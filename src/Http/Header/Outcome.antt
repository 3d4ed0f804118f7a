-- ===== src/Http/Header/Outcome.antt =====
-- What `header` does at any payload, in util/http.go.
use httpdump.Base.{
  ℕ, suc, ◌+◌, ◌≤◌, ◌≡◌, ◌≢◌, ◌↔◌, inl, inr, refl, sym, subst, ap, true, Option, none, some, length,
  Bytes, index, ok, panic, ◌>>=◌, Returns, Bool-cases, Option-cases, arith,
}
use httpdump.Base.Text.Search.{index-bound}
use httpdump.Http.Title.{crlf, has_request_title, has_response_title}
use httpdump.Http.Title.Request.{parse_request_title_sound}
use httpdump.Http.Title.Response.{parse_response_title_sound}
use httpdump.Http.Header.{
  Line, Scan, missing, at_line, out_of_fuel, scan_lines, scan_start, has_title,
  mime_headers_start_pos, read_line, header_from, header_scan, header,
}
use httpdump.Http.Header.Lines.{Found, scan_lines-Found, value_of-panic}

has_title-returns : (payload : Bytes) → Returns (has_title payload) (λ _. Unit {0})
unfolding has_title has_request_title has_response_title
has_title-returns payload =
    let (r, e, _) = parse_request_title_sound payload in
    let (r', e', _) = parse_response_title_sound payload in
    rw (e, e')
      (elim (Bool-cases r.1) [
        | inl titled ↦ rw titled (true, refl, tt)
        | inr other ↦ rw other (r'.1, refl, tt)
      ])

abbrev InPayload : Bytes → Option ℕ → Type 0
InPayload payload none = Unit
InPayload payload (some pos) = pos ≤ length payload

scan_start-returns : (payload : Bytes) → Returns (scan_start payload) (InPayload payload)
unfolding scan_start mime_headers_start_pos
scan_start-returns payload =
    let (titled, e, _) = has_title-returns payload in
    rw (e, ◌>>=◌)
      (elim (Bool-cases titled) [
        | inr plain ↦ rw plain (some 0, refl, omega arith)
        | inl with_title ↦ rw with_title (elim (Option-cases (index payload crlf)) [
          | inl nothing ↦ rw (nothing, mime_headers_start_pos) (none, refl, tt)
          | inr (pos, found) ↦
              rw (found, mime_headers_start_pos)
                (some (pos + 2), refl, omega (arith, index-bound payload crlf pos found))
        ])
      ])

-- The line that `header` reads, if it finds one.
abbrev pub Reads : Bytes → Bytes → Line → Type 0
Reads payload name l =
    (pos : ℕ) × (scan_start payload ≡ ok (some pos))
    × (scan_lines (suc (length payload)) payload name pos ≡ at_line l)

abbrev BareEnd : Bytes → Bytes → Type 0
BareEnd payload name = (l : Line) × Reads payload name l × (l.value_start ≡ l.header_end)

read_line-panic :
    (payload name : Bytes) (pos : ℕ) (r : Scan)
    → scan_start payload ≡ ok (some pos)
    → scan_lines (suc (length payload)) payload name pos ≡ r
    → Found payload name r
    → (read_line payload r ≡ panic) ↔ BareEnd payload name
unfolding read_line
read_line-panic payload name pos missing e s f = (
  λ p. absurd (ground arith),
  λ (l, (pos', e', s'), h).
      let same : pos' ≡ pos = ground arith in
      absurd (ground (arith, ap (scan_lines (suc (length payload)) payload name) same)),
)
read_line-panic payload name pos out_of_fuel e s f = absurd f
read_line-panic payload name pos (at_line l) e s f = (
  λ p. (l, (pos, e, s), (value_of-panic f).0 p),
  λ (l', (pos', e', s'), h).
      let same : pos' ≡ pos = ground arith in
      let scan = ap (scan_lines (suc (length payload)) payload name) same in
      let line : l' ≡ l = ground arith in (value_of-panic f).1 (ground arith),
)

Found-ends : (payload name : Bytes) (r : Scan) → Found payload name r → r ≢ out_of_fuel
Found-ends payload name missing f e = cc
Found-ends payload name (at_line l) f e = cc
Found-ends payload name out_of_fuel f e = f

header_from-panic :
    (payload name : Bytes) (o : Option ℕ)
    → scan_start payload ≡ ok o
    → InPayload payload o
    → (header_from payload name o ≢ out_of_fuel)
      × ((read_line payload (header_from payload name o) ≡ panic) ↔ BareEnd payload name)
unfolding header_from read_line
header_from-panic payload name none e i =
    (λ h. cc h, (λ p. absurd (ground arith), λ (l, (pos, e', _), _). absurd (ground arith)))
header_from-panic payload name (some pos) e i =
    let found = scan_lines-Found (suc (length payload)) payload name pos i (omega arith) in
    (Found-ends payload name _ found, read_line-panic payload name pos _ e refl found)

header_scan_lem :
    (payload name : Bytes) (o : Option ℕ)
    → scan_start payload ≡ ok o
    → header_scan payload name ≡ ok (header_from payload name o)
unfolding header_scan
header_scan_lem payload name o e = rw (e, ◌>>=◌)

header_lem :
    (payload name : Bytes) (r : Scan)
    → header_scan payload name ≡ ok r
    → header payload name ≡ read_line payload r
unfolding header
header_lem payload name r e = rw (e, ◌>>=◌)

-- For every payload and name the scan of `header` ends within one round for each byte of the
-- payload and one more. The call panics exactly if the line that it reads ends right behind its
-- colon with a bare newline; in all other cases it returns a value.
pub header-panic :
    (payload name : Bytes)
    → Returns (header_scan payload name) (λ r. r ≢ out_of_fuel)
      × ((header payload name ≡ panic)
          ↔ ((l : Line) × Reads payload name l × (l.value_start ≡ l.header_end)))
header-panic payload name =
    let (start, e, inside) = scan_start-returns payload in
    let scan = header_scan_lem payload name start e in
    let (ends, panics) = header_from-panic payload name start e inside in
    (
      (_, scan, ends),
      subst (λ x. (x ≡ panic) ↔ BareEnd payload name) (sym (header_lem payload name _ scan)) panics,
    )
