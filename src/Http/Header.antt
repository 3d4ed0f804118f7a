-- ===== src/Http/Header.antt =====
-- `header` and `Header` of util/http.go: the value of one header line. `none` is -1, and the code's
-- `valueEnd` is `stop - 1` here, so that it is never negative.
pub mod Lines
pub mod Outcome
use httpdump.Base.{
  ℕ, zero, suc, ◌+◌, ◌-◌, Bool, true, false, not, ◌&&◌, ◌||◌, Option, none, some, List, [], ◌∷◌,
  ltb, leb, ◌==◌, if◌then◌else◌, length, get_or, take, drop, Bytes, bytes_eq, index_byte, index,
  slice, byte_at, Go, ok, panic, ◌>>=◌,
}
use httpdump.Http.Title.{crlf, empty_line, has_request_title, has_response_title}

-- `MIMEHeadersStartPos` and `MIMEHeadersEndPos`
unfoldable pub mime_headers_start_pos : Bytes → Option ℕ
mime_headers_start_pos payload = elim (index payload crlf) [
  | none ↦ none
  | some pos ↦ some (pos + 2)
]

unfoldable pub mime_headers_end_pos : Bytes → Option ℕ
mime_headers_end_pos payload = elim (index payload empty_line) [
  | none ↦ none
  | some pos ↦ some (pos + 4)
]

unfoldable pub has_title : Bytes → Go Bool
has_title payload =
    has_request_title payload >>= λ request. if request then ok true else has_response_title payload

-- Simple case folding, as `bytes.EqualFold` does it towards an ASCII name: the letters, and the two
-- characters outside ASCII (long s and the Kelvin sign, in UTF-8) that fold to letters.
abbrev lower : ℕ → ℕ
lower c = if leb b'A' c && leb c b'Z' then c + 32 else c

unfoldable pub fold_case : Bytes → Bytes
fold_case (c ∷ d ∷ e ∷ s) =
    let plain = lower c ∷ fold_case (d ∷ e ∷ s) in
    let long_s = b's' ∷ fold_case (e ∷ s) in
    let kelvin = b'k' ∷ fold_case s in
    if c == 0xC5 && d == 0xBF
    then long_s
    else if c == 0xE2 && d == 0x84 && e == 0xAA
    then kelvin
    else plain
fold_case (c ∷ d ∷ []) = if c == 0xC5 && d == 0xBF then b's' ∷ [] else lower c ∷ lower d ∷ []
fold_case (c ∷ []) = lower c ∷ []
fold_case [] = []

unfoldable pub equal_fold : Bytes → Bytes → Bool
equal_fold s name = bytes_eq (fold_case s) (fold_case name)

-- The line of a header that was found.
pub record Line : Type 0 where
  pub header_start : ℕ
  pub header_end : ℕ
  pub value_start : ℕ
  pub stop : ℕ

-- What the loop of `header` ends with. `out_of_fuel` belongs to the model alone.
pub data Scan : Type 0 where
  missing : Scan
  at_line : Line → Scan
  out_of_fuel : Scan

-- The loop of `header`. Each round moves behind the next line end, so that a fuel above the length
-- of the payload is enough.
unfoldable pub scan_lines : ℕ → Bytes → Bytes → ℕ → Scan
scan_lines zero payload name start = out_of_fuel
scan_lines (suc fuel) payload name start =
    if not (ltb start (length payload))
    then missing
    else elim (index_byte (drop start payload) 10) [
      | none ↦ missing
      | some line_len ↦
          let line = take line_len (drop start payload) in
          let header_end = line_len + start in
          let next = scan_lines fuel payload name (header_end + 1) in
          elim (index_byte line b':') [
            | none ↦ missing
            | some colon ↦
                if equal_fold (take colon line) name
                then at_line (record {
                  header_start = start;
                  header_end = header_end;
                  value_start = colon + start + 1;
                  stop = header_end - 1;
                })
                else next
          ]
    ]

-- The loop that skips what is below 0x21 at the start of a value, `n` bytes before its last.
unfoldable pub skip_left : Bytes → ℕ → ℕ → ℕ
skip_left payload start zero = start
skip_left payload start (suc n) =
    let rest = skip_left payload (start + 1) n in
    if ltb (get_or payload start 0) 0x21 then rest else start

-- The loop that drops what is below 0x21 at the end of a value, `n` bytes behind its first.
unfoldable pub skip_right : Bytes → ℕ → ℕ → ℕ
skip_right payload stop zero = stop
skip_right payload stop (suc n) =
    let rest = skip_right payload (stop - 1) n in
    if ltb (get_or payload (stop - 1) 0) 0x21 then rest else stop

-- `payload[valueStart : valueEnd+1]` behind the two loops.
unfoldable pub value_of : Bytes → Line → Go Bytes
value_of payload l =
    let start = skip_left payload l.value_start (l.stop - 1 - l.value_start) in
    let stop = skip_right payload l.stop (l.stop - 1 - start) in slice payload start stop

-- Where the scan begins: at the second line of a payload with a title.
unfoldable pub scan_start : Bytes → Go (Option ℕ)
scan_start payload =
    has_title payload >>= λ titled. ok (if titled then mime_headers_start_pos payload else some 0)

-- What `header` gives at the end of the scan.
unfoldable pub read_line : Bytes → Scan → Go Bytes
read_line payload missing = ok []
read_line payload (at_line l) = value_of payload l
read_line payload out_of_fuel = ok []

unfoldable pub header_from : Bytes → Bytes → Option ℕ → Scan
header_from payload name none = missing
header_from payload name (some pos) = scan_lines (suc (length payload)) payload name pos

-- The scan, from its beginning to its end.
unfoldable pub header_scan : Bytes → Bytes → Go Scan
header_scan payload name = scan_start payload >>= λ start. ok (header_from payload name start)

-- `header`, of which the program uses the value: empty where no line has the name.
unfoldable pub header : Bytes → Bytes → Go Bytes
header payload name = header_scan payload name >>= read_line payload
