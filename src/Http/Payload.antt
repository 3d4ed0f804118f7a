-- ===== src/Http/Payload.antt =====
-- `HasFullPayload` of util/http.go: whether a message is complete. An int is held as its 64 bits.
pub mod Length
mod Tests
use httpdump.Base.{
  ℕ, ◌+◌, ◌-◌, ◌%◌, ◌^◌, Bool, true, false, not, ◌&&◌, ◌||◌, Option, none, some, [], ◌∷◌, ◌++◌, ltb,
  leb, ◌==◌, if◌then◌else◌, length, Bytes, codes, index, has_suffix, Go, ok, ◌>>=◌,
}
use httpdump.Http.Title.{empty_line, ato_i}
use httpdump.Http.Header.{mime_headers_start_pos, mime_headers_end_pos, header}

-- `httpProto`; `header_start` is none at -1.
pub record HttpProto : Type 0 where
  pub body : ℕ
  pub header_start : Option ℕ
  pub header_parsed : Bool
  pub has_full_body : Bool
  pub is_chunked : Bool
  pub body_len : ℕ
  pub has_trailer : Bool

-- `new(httpProto)`
abbrev pub new_proto : HttpProto
new_proto = record {
  body = 0;
  header_start = some 0;
  header_parsed = false;
  has_full_body = false;
  is_chunked = false;
  body_len = 0;
  has_trailer = false;
}

-- `x > 0` of an int
abbrev pub is_positive : ℕ → Bool
is_positive x = not (x == 0) && ltb x (2 ^ 63)

-- `state.headerStart < 1`
abbrev below_one : Option ℕ → Bool
below_one none = true
below_one (some n) = n == 0

unfoldable pub locate_body : HttpProto → Bytes → HttpProto
locate_body s payload =
    if s.body == 0
    then elim (mime_headers_end_pos payload) [ none ↦ s | some pos ↦ record s { body = pos } ]
    else s

-- `len(chunked) > 0 && bytes.Index(payload, []byte("chunked")) > 0`
unfoldable pub names_chunked : Bytes → Bytes → Bool
names_chunked chunked payload =
    not (length chunked == 0)
    && elim (index payload (codes "chunked")) [ none ↦ false | some pos ↦ not (pos == 0) ]

-- What the headers say of the body.
unfoldable pub read_headers : HttpProto → Bytes → Bytes → Go HttpProto
read_headers s payload chunked =
    if names_chunked chunked payload
    then (header payload (codes "Trailer") >>= λ trailer.
        ok (record s { is_chunked = true; has_trailer = not (length trailer == 0) }))
    else (header payload (codes "Content-Length") >>= λ content_len.
        ok (record s { body_len = (ato_i content_len 10).0 }))

unfoldable pub parse_headers : HttpProto → Bytes → Go HttpProto
parse_headers s payload =
    if s.header_parsed
    then ok s
    else (header payload (codes "Transfer-Encoding") >>= λ chunked.
        read_headers s payload chunked >>= λ t. ok (
          if is_positive t.body_len || leb t.body (length payload)
          then record t { header_parsed = true }
          else t))

-- The tests behind the headers.
unfoldable pub check_body : HttpProto → Bytes → Bool × HttpProto
check_body s payload =
    let body_len = (length payload + 2 ^ 64 - s.body) % 2 ^ 64 in
    if not s.is_chunked
    then (s.body_len == body_len, s)
    else if not (is_positive body_len)
    then (false, s)
    else if s.has_trailer
    then (has_suffix payload empty_line, s)
    else if has_suffix payload (codes "0" ++ empty_line)
    then (true, record s { has_full_body = true })
    else (false, s)

unfoldable pub has_full_payload : HttpProto → Bytes → Go (Bool × HttpProto)
has_full_payload s payload =
    let t =
      if below_one s.header_start
      then record s { header_start = mime_headers_start_pos payload }
      else s in
    elim t.header_start [
      | none ↦ ok (false, t)
      | some pos ↦ parse_headers (locate_body t payload) payload >>= λ u. ok (check_body u payload)
    ]

-- `Http1EndHint`
unfoldable pub http1_end_hint : Bytes → Go Bool
http1_end_hint payload = has_full_payload new_proto payload >>= λ r. ok r.0
