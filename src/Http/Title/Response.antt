-- ===== src/Http/Title/Response.antt =====
-- `ParseResponseTitle`: what it reads, and what it accepts.
use httpdump.Base.{
  ℕ, ◌≤◌, ◌<◌, ◌≡◌, ◌⊎◌, inl, inr, refl, Bool, true, false, ◌||◌, Option, some, ltb, ltb→le, ◌==◌,
  length, take, drop, get_elem?, get_elem?-lt, Bool-cases, Option-cases, Bytes, index,
  slice-returns, byte_at, ok, ◌>>=◌, Returns, arith,
}
use httpdump.Http.Std.{parse_http_version, is_http1, has_status_text}
use httpdump.Http.Title.{
  min_response_count, crlf, space, ato_i, response_status, parse_response_title,
}

-- A response title: a version of HTTP/1, a space, a known status in three digits and a delimiter,
-- in a payload with a CRLF.
pub record IsResponse (payload : Bytes) (code : ℕ) : Type 0 where
  pub long : min_response_count ≤ length payload
  pub ends : (n : ℕ) × (index payload crlf ≡ some n)
  pub http1 : is_http1 (parse_http_version (take 8 payload)) ≡ true
  pub gap : get_elem? payload 8 ≡ some space
  pub status : ato_i (take 3 (drop 9 payload)) 10 ≡ (code, true)
  pub known : has_status_text code ≡ true
  pub delimited : (get_elem? payload 12 ≡ some space) ⊎ (get_elem? payload 12 ≡ some 13)

byte_at-lt :
    (s : Bytes) (i : ℕ) → i < length s → (c : ℕ) × (byte_at s i ≡ ok c) × (get_elem? s i ≡ some c)
unfolding byte_at
byte_at-lt s i h = let (c, e) = get_elem?-lt s i h in (c, rw (e, byte_at), e)

delimiter_cases :
    (o : Option ℕ) (c : ℕ)
    → o ≡ some c
    → (c == space || c == 13) ≡ true
    → (o ≡ some space) ⊎ (o ≡ some 13)
delimiter_cases o c e h = ground arith

-- The tests behind the status.
status_sound :
    (s : Bytes) (code : ℕ) (parsed : Bool)
    → min_response_count ≤ length s
    → ((n : ℕ) × (index s crlf ≡ some n))
    → is_http1 (parse_http_version (take 8 s)) ≡ true
    → get_elem? s 8 ≡ some space
    → ato_i (take 3 (drop 9 s)) 10 ≡ (code, parsed)
    → Returns
        (response_status s (code, parsed))
        (λ r. (r ≡ (0, false)) ⊎ ((r.1 ≡ true) × IsResponse s r.0))
unfolding response_status
status_sound s code false long ends http1 gap e = (_, refl, inl refl)
status_sound s code true long ends http1 gap e = elim (Bool-cases (has_status_text code)) [
  | inr unknown ↦ rw unknown (_, refl, inl refl)
  | inl known ↦
      let (c, read, at_12) = byte_at-lt s 12 (omega arith) in
      rw (known, read, ◌>>=◌)
        (elim (Bool-cases (c == space || c == 13)) [
          | inr other ↦ rw other (_, refl, inl refl)
          | inl delimiter ↦ rw delimiter (
            _,
            refl,
            inr (
              refl,
              record {
                long = long;
                ends = ends;
                http1 = http1;
                gap = gap;
                status = e;
                known = known;
                delimited = delimiter_cases _ c at_12 delimiter;
              },
            ),
          )
        ])
]

-- `ParseResponseTitle` never reads out of range. It gives 0 and false, or a code and true, and then
-- the payload begins with a response title of that code.
pub parse_response_title_sound :
    (payload : Bytes)
    → Returns
        (parse_response_title payload)
        (λ r. (r ≡ (0, false)) ⊎ ((r.1 ≡ true) × IsResponse payload r.0))
unfolding parse_response_title
parse_response_title_sound s = elim (Bool-cases (ltb (length s) min_response_count)) [
  | inl short ↦ rw short (_, refl, inl refl)
  | inr enough ↦
      let long : min_response_count ≤ length s = ltb→le _ _ enough in
      let (c, read, at_8) = byte_at-lt s 8 (omega arith) in
      let version = slice-returns s 0 8 (omega arith) (omega arith) in
      let digits3 = slice-returns s 9 12 (omega arith) (omega arith) in
      rw enough (elim (Option-cases (index s crlf)) [
        | inl nothing ↦ rw nothing (_, refl, inl refl)
        | inr ends ↦
            rw (ends.1, version, ◌>>=◌)
              (elim (Bool-cases (is_http1 (parse_http_version (take 8 s)))) [
                | inr other ↦ rw other (_, refl, inl refl)
                | inl http1 ↦
                    rw (http1, read, ◌>>=◌)
                      (elim (Bool-cases (c == space)) [
                        | inr gone ↦ rw gone (_, refl, inl refl)
                        | inl gap ↦
                            rw (gap, digits3, ◌>>=◌)
                              (status_sound s (ato_i (take 3 (drop 9 s)) 10).0
                                (ato_i (take 3 (drop 9 s)) 10).1 long ends http1 (ground arith)
                                refl)
                      ])
              ])
      ])
]
