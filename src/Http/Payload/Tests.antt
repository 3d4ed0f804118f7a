-- ===== src/Http/Payload/Tests.antt =====
-- Runs of the end hint and of `header` at concrete messages.
use httpdump.Base.{
  ℕ, ◌-◌, ◌++◌, ◌≡◌, ◌≢◌, Returns, ◌↔◌, refl, ◌&&◌, [], ◌∷◌, ltb, ◌==◌, if◌then◌else◌, length,
  Bytes, codes, bytes_eq, index_byte, index, has_prefix, has_suffix, count_byte, slice, byte_at,
  member, itoa, digits, ok, panic, arith,
}
use httpdump.Http.Std.{parse_http_version, is_http1}
use httpdump.Http.Title.{
  crlf, empty_line, methods, method, title_version, parse_request_title, has_request_title,
  has_response_title, response_status, parse_response_title,
}
use httpdump.Http.Header.{
  Line, out_of_fuel, mime_headers_start_pos, mime_headers_end_pos, has_title, fold_case, equal_fold,
  scan_lines, skip_left, skip_right, value_of, scan_start, read_line, header_from, header_scan,
  header,
}
use httpdump.Http.Header.Outcome.{Reads, header-panic}
use httpdump.Http.Payload.{names_chunked, http1_end_hint}
use httpdump.Http.Payload.Length.{content_length_hint, no_end_hint, chunked_hint}

abbrev message : Bytes
message = codes "POST / HTTP/1.1" ++ crlf ++ codes "Content-Length: 2" ++ empty_line ++ codes "hi"

message_coding : header message (codes "Transfer-Encoding") ≡ ok []
unfolding header header_scan header_from read_line scan_start scan_lines skip_left skip_right
    value_of has_title fold_case equal_fold mime_headers_start_pos has_request_title
    has_response_title parse_request_title parse_response_title response_status method methods
    member bytes_eq index_byte index has_prefix count_byte title_version slice is_http1
    parse_http_version byte_at
message_coding = refl

message_length : header message (codes "Content-Length") ≡ ok (itoa 2)
unfolding header header_scan header_from read_line scan_start scan_lines skip_left skip_right
    value_of has_title fold_case equal_fold mime_headers_start_pos has_request_title
    has_response_title parse_request_title parse_response_title response_status method methods
    member bytes_eq index_byte index has_prefix count_byte title_version slice is_http1
    parse_http_version byte_at itoa digits
message_length = refl

content_length_hint_example : http1_end_hint message ≡ ok (2 == (length message - 38))
unfolding mime_headers_start_pos mime_headers_end_pos index has_prefix
content_length_hint_example =
    content_length_hint message 17 38 2 refl refl (omega arith) (omega arith) (omega arith)
      (omega arith) message_coding message_length

-- The first part of a message, whose length its `Content-Length` line happens to name.
abbrev part : Bytes
part = codes "POST / HTTP/1.1" ++ crlf ++ codes "Content-Length: 36" ++ crlf

part_coding : header part (codes "Transfer-Encoding") ≡ ok []
unfolding header header_scan header_from read_line scan_start scan_lines skip_left skip_right
    value_of has_title fold_case equal_fold mime_headers_start_pos has_request_title
    has_response_title parse_request_title parse_response_title response_status method methods
    member bytes_eq index_byte index has_prefix count_byte title_version slice is_http1
    parse_http_version byte_at
part_coding = refl

part_length : header part (codes "Content-Length") ≡ ok (itoa 36)
unfolding header header_scan header_from read_line scan_start scan_lines skip_left skip_right
    value_of has_title fold_case equal_fold mime_headers_start_pos has_request_title
    has_response_title parse_request_title parse_response_title response_status method methods
    member bytes_eq index_byte index has_prefix count_byte title_version slice is_http1
    parse_http_version byte_at itoa digits
part_length = refl

no_end_hint_example : http1_end_hint part ≡ ok (36 == length part)
unfolding mime_headers_start_pos mime_headers_end_pos index has_prefix
no_end_hint_example =
    no_end_hint part 17 36 refl refl (omega arith) (omega arith) part_coding part_length

abbrev chunks : Bytes
chunks =
    codes "POST / HTTP/1.1"
    ++ crlf
    ++ codes "Transfer-Encoding: chunked"
    ++ empty_line
    ++ codes "2"
    ++ crlf
    ++ codes "hi"
    ++ crlf
    ++ codes "0"
    ++ empty_line

chunks_coding : header chunks (codes "Transfer-Encoding") ≡ ok (codes "chunked")
unfolding header header_scan header_from read_line scan_start scan_lines skip_left skip_right
    value_of has_title fold_case equal_fold mime_headers_start_pos has_request_title
    has_response_title parse_request_title parse_response_title response_status method methods
    member bytes_eq index_byte index has_prefix count_byte title_version slice is_http1
    parse_http_version byte_at
chunks_coding = refl

chunks_trailer : header chunks (codes "Trailer") ≡ ok []
unfolding header header_scan header_from read_line scan_start scan_lines skip_left skip_right
    value_of has_title fold_case equal_fold mime_headers_start_pos has_request_title
    has_response_title parse_request_title parse_response_title response_status method methods
    member bytes_eq index_byte index has_prefix count_byte title_version slice is_http1
    parse_http_version byte_at
chunks_trailer = refl

chunked_hint_example :
    http1_end_hint chunks
    ≡ ok (
        ltb 47 (length chunks)
        && has_suffix chunks
            (if length {A = ℕ} [] == 0 then codes "0" ++ empty_line else empty_line))
unfolding mime_headers_start_pos mime_headers_end_pos index has_prefix names_chunked
chunked_hint_example =
    chunked_hint chunks (codes "chunked") [] 17 47 refl refl (omega arith) (omega arith)
      (omega arith) chunks_coding refl chunks_trailer

-- A header line of a name, a colon and a bare newline.
abbrev bare : Bytes
bare = codes "Transfer-Encoding:" ++ 10 ∷ []

bare_test : header bare (codes "Transfer-Encoding") ≡ panic
unfolding header header_scan header_from read_line scan_start scan_lines skip_left skip_right
    value_of has_title fold_case equal_fold mime_headers_start_pos has_request_title
    has_response_title parse_request_title parse_response_title response_status method methods
    member bytes_eq index_byte index has_prefix count_byte title_version slice is_http1
    parse_http_version byte_at
bare_test = refl

header-panic_example :
    Returns (header_scan bare (codes "Transfer-Encoding")) (λ r. r ≢ out_of_fuel)
    × ((header bare (codes "Transfer-Encoding") ≡ panic)
        ↔ ((l : Line) × Reads bare (codes "Transfer-Encoding") l × (l.value_start ≡ l.header_end)))
header-panic_example = header-panic bare (codes "Transfer-Encoding")
