-- ===== src/Http/Title.antt =====
-- `ParseRequestTitle` and `ParseResponseTitle` of util/http.go, with `atoI`. A slice out of range
-- is a panic.
pub mod Request
pub mod Number
pub mod Response
use httpdump.Base.{
  ℕ, zero, suc, ◌+◌, ◌-◌, ◌*◌, ◌%◌, ◌^◌, Bool, true, false, not, ◌&&◌, ◌||◌, Option, none, some,
  List, [], ◌∷◌, ltb, leb, ◌==◌, if◌then◌else◌, length, get_or, take, Bytes, codes, bytes_eq,
  index_byte, index, count_byte, slice, byte_at, member, Go, ok, panic, ◌>>=◌,
}
use httpdump.Http.Std.{parse_http_version, is_http1, has_status_text}

abbrev pub min_request_count : ℕ
min_request_count = 16

abbrev pub min_response_count : ℕ
min_response_count = 14

abbrev pub version_len : ℕ
version_len = 8

abbrev pub crlf : Bytes
crlf = 13 ∷ 10 ∷ []

abbrev pub empty_line : Bytes
empty_line = 13 ∷ 10 ∷ 13 ∷ 10 ∷ []

abbrev pub space : ℕ
space = 32

-- The keys of `Methods`.
unfoldable pub methods : List Bytes
methods =
    codes "CONNECT"
    ∷ codes "DELETE"
    ∷ codes "GET"
    ∷ codes "HEAD"
    ∷ codes "OPTIONS"
    ∷ codes "PATCH"
    ∷ codes "POST"
    ∷ codes "PUT"
    ∷ codes "TRACE"
    ∷ []

-- `Method`, whose nil is the empty slice.
unfoldable pub method : Bytes → Bytes
method payload = elim (index_byte payload space) [ none ↦ [] | some end ↦ take end payload ]

-- The part of `ParseRequestTitle` behind the test of the method: the version is what stands between
-- the second space and the end of the title.
unfoldable pub title_version : Bytes → Bytes → ℕ → Go Bool
title_version s m title_len = slice s (length m + 1) (length s) >>= λ rest.
    elim (index rest (space ∷ [])) [
      | none ↦ ok false
      | some path ↦ slice s (path + length m + 2) title_len >>= λ vers.
          ok (is_http1 (parse_http_version vers))
    ]

-- The method and true, or the empty string and false.
unfoldable pub parse_request_title : Bytes → Go (Bytes × Bool)
parse_request_title payload =
    if ltb (length payload) min_request_count then ok ([], false) else elim (index payload crlf) [
      | none ↦ ok ([], false)
      | some title_len ↦
          if not (count_byte (take title_len payload) space == 2)
          then ok ([], false)
          else if not (member (method payload) methods)
          then ok ([], false)
          else title_version payload (method payload) title_len >>= λ good.
              ok (if good then (method payload, true) else ([], false))
    ]

unfoldable pub has_request_title : Bytes → Go Bool
has_request_title payload = parse_request_title payload >>= λ r. ok r.1

-- `hexTable`, whose other entries are 0.
unfoldable pub hex_value : ℕ → ℕ
hex_value c =
    if leb b'0' c && leb c b'9'
    then c - b'0'
    else if leb b'A' c && leb c b'F'
    then c - b'A' + 10
    else if leb b'a' c && leb c b'f'
    then c - b'a' + 10
    else 0

-- The loop of `atoI`: the number so far is an int, here its 64 bits, since it may wrap around.
unfoldable pub atoi_from : ℕ → Bytes → ℕ → ℕ × Bool
atoi_from num [] base = (num, true)
atoi_from num (c ∷ s) base =
    let v = hex_value c in
    let rest = atoi_from ((num * base + v) % 2 ^ 64) s base in
    if ltb 127 c
    then (num, false)
    else if leb base v || (v == 0 && not (c == b'0'))
    then (num, false)
    else rest

unfoldable pub ato_i : Bytes → ℕ → ℕ × Bool
ato_i s base = atoi_from 0 s base

-- The last tests of `ParseResponseTitle`, with the status read.
unfoldable pub response_status : Bytes → ℕ × Bool → Go (ℕ × Bool)
response_status payload (status, parsed) =
    if not parsed
    then ok (0, false)
    else if not (has_status_text status)
    then ok (0, false)
    else byte_at payload (version_len + 4) >>= λ c.
        ok (if c == space || c == 13 then (status, true) else (0, false))

-- The status code and true, or 0 and false.
unfoldable pub parse_response_title : Bytes → Go (ℕ × Bool)
parse_response_title payload =
    if ltb (length payload) min_response_count then ok (0, false) else elim (index payload crlf) [
      | none ↦ ok (0, false)
      | some title_len ↦ slice payload 0 version_len >>= λ vers.
          if not (is_http1 (parse_http_version vers))
          then ok (0, false)
          else byte_at payload version_len >>= λ c.
              if not (c == space)
              then ok (0, false)
              else slice payload (version_len + 1) (version_len + 4) >>= λ code.
                  response_status payload (ato_i code 10)
    ]

unfoldable pub has_response_title : Bytes → Go Bool
has_response_title payload = parse_response_title payload >>= λ r. ok r.1

-- `Http1StartHint`: whether a request begins here, and whether a response does.
unfoldable pub http1_start_hint : Bytes → Go (Bool × Bool)
http1_start_hint payload = has_request_title payload >>= λ request.
    has_response_title payload >>= λ response.
    ok (if request then (true, false) else if response then (false, true) else (false, false))
