-- ===== src/Http/Payload/Length.antt =====
-- `HasFullPayload` at a message whose length its headers tell.
use httpdump.Base.{
  ℕ, ◌+◌, ◌-◌, ◌%◌, ◌^◌, ◌≤◌, ◌<◌, ◌≡◌, ap, true, none, some, [], ◌==◌, ltb, ◌&&◌, ◌++◌, has_suffix,
  length, Bytes, codes, itoa, ok, ◌>>=◌, arith, if◌then◌else◌,
}
use httpdump.Http.Title.{ato_i, empty_line}
use httpdump.Http.Title.Number.{ato_i-itoa}
use httpdump.Http.Header.{mime_headers_start_pos, mime_headers_end_pos, header}
use httpdump.Http.Payload.{
  locate_body, names_chunked, read_headers, parse_headers, check_body, has_full_payload,
  http1_end_hint,
}

-- A message with its headers complete, not chunked, whose `Content-Length` line says `n`: the hint
-- is true exactly if `n` bytes follow the headers, no more and no fewer.
pub content_length_hint :
    (payload : Bytes) (line headers n : ℕ)
    → mime_headers_start_pos payload ≡ some line
    → mime_headers_end_pos payload ≡ some headers
    → 0 < headers
    → headers ≤ length payload
    → length payload < 2 ^ 63
    → n < 2 ^ 63
    → header payload (codes "Transfer-Encoding") ≡ ok []
    → header payload (codes "Content-Length") ≡ ok (itoa n)
    → http1_end_hint payload ≡ ok (n == (length payload - headers))
unfolding http1_end_hint has_full_payload parse_headers read_headers names_chunked locate_body
    check_body
content_length_hint payload line headers n start end ph ih small hn te cl =
    let count : (length payload + 2 ^ 64 - headers) % 2 ^ 64 ≡ length payload - headers =
      omega arith in
    let value : (ato_i (itoa n) 10).0 ≡ n = ap (λ r. r.0) (ato_i-itoa n (omega arith)) in
    rw (start, locate_body, end, te, ◌>>=◌, cl, ◌>>=◌, value) (ground (arith, count))

-- While the end of the headers has not arrived, the hint is true exactly if the `Content-Length`
-- line names the length of all that has arrived, the title and the headers included.
pub no_end_hint :
    (payload : Bytes) (line n : ℕ)
    → mime_headers_start_pos payload ≡ some line
    → mime_headers_end_pos payload ≡ none
    → length payload < 2 ^ 63
    → n < 2 ^ 63
    → header payload (codes "Transfer-Encoding") ≡ ok []
    → header payload (codes "Content-Length") ≡ ok (itoa n)
    → http1_end_hint payload ≡ ok (n == length payload)
unfolding http1_end_hint has_full_payload parse_headers read_headers names_chunked locate_body
    check_body
no_end_hint payload line n start end small hn te cl =
    let count : (length payload + 2 ^ 64 - 0) % 2 ^ 64 ≡ length payload = omega arith in
    let value : (ato_i (itoa n) 10).0 ≡ n = ap (λ r. r.0) (ato_i-itoa n (omega arith)) in
    rw (start, locate_body, end, te, ◌>>=◌, cl, ◌>>=◌, value) (ground (arith, count))

-- A chunked message with its headers complete is taken for complete exactly if something follows
-- the headers and the payload ends with an empty line, behind a 0 where no `Trailer` line stands.
pub chunked_hint :
    (payload coding trailer : Bytes) (line headers : ℕ)
    → mime_headers_start_pos payload ≡ some line
    → mime_headers_end_pos payload ≡ some headers
    → 0 < headers
    → headers ≤ length payload
    → length payload < 2 ^ 63
    → header payload (codes "Transfer-Encoding") ≡ ok coding
    → names_chunked coding payload ≡ true
    → header payload (codes "Trailer") ≡ ok trailer
    → http1_end_hint payload
      ≡ ok (
          ltb headers (length payload)
          && has_suffix payload
              (if length trailer == 0 then codes "0" ++ empty_line else empty_line))
unfolding http1_end_hint has_full_payload parse_headers read_headers locate_body check_body
chunked_hint payload coding trailer line headers start end ph ih small te chunked tr =
    let count : (length payload + 2 ^ 64 - headers) % 2 ^ 64 ≡ length payload - headers =
      omega arith in
    rw (start, locate_body, end, te, ◌>>=◌, chunked, tr, ◌>>=◌) (ground (arith, count))
