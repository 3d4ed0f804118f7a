-- ===== src/Handler/Tests.antt =====
-- Runs of the handler at concrete messages.
use httpdump.Base.{
  ℕ, ◌≡◌, arith, refl, Bool, true, false, none, [], ◌∷◌, ◌++◌, Bytes, codes, bytes_eq, index_byte,
  index, has_prefix, has_suffix, count_byte, slice, byte_at, member, panic, ◌↔◌,
}
use httpdump.Http.Std.{parse_http_version, is_http1, has_status_text}
use httpdump.Http.Title.{
  crlf, empty_line, methods, method, title_version, parse_request_title, has_request_title,
  has_response_title, response_status, parse_response_title, ato_i, atoi_from, hex_value,
}
use httpdump.Http.Header.{
  mime_headers_start_pos, mime_headers_end_pos, has_title, fold_case, equal_fold, scan_lines,
  skip_left, skip_right, value_of, scan_start, read_line, header_from, header_scan, header,
}
use httpdump.Http.Payload.{
  locate_body, names_chunked, read_headers, parse_headers, check_body, has_full_payload,
  http1_end_hint,
}
use httpdump.Filter.Options.{reached_n, can_dump}
use httpdump.Handler.Sample.{calls, options, env, base}
use httpdump.Handler.Pairs.{SendArgs, cached, send, sent_args, after, send-pair}
use httpdump.Filter.Mime.{
  parse_mime_type, parse_content_type, parse_charset, cut_scope, cut_dot, trim_space, trim_from,
  space_width, space_width_back, is_space_2, is_space_3, is_space, is_text_content, text_sub_types,
  is_binary_content,
}
use httpdump.Handler.Format.Panics.{reads_body, print_rest-panic}
use httpdump.Handler.Format.{
  Header, try_decompress, read_all, print_body, print_non_text_type_body, print_rest, header_get,
}
use httpdump.Handler.Loop.{handle_requests}
use httpdump.Handler.Loop.Segments.{handle_requests-pieces}

abbrev args : Bytes → Bool → ℕ → SendArgs
args msg req time = record {
  key = codes "1-a-b";
  msg = msg;
  count_discards = true;
  req = req;
  time = time;
}

abbrev other_args : SendArgs
other_args = record {
  key = codes "2-a-b";
  msg = codes "o";
  count_discards = true;
  req = true;
  time = 7;
}

send-pair_example :
    let request = args (codes "q") true 5 in
    let response = args (codes "r") false 9 in
    let pair = sent_args request ∷ sent_args response ∷ [] in
    ((send request []).1 ≡ [])
    × ((send response (after (other_args ∷ []) (send request []).0)).1 ≡ pair)
    × ((send response []).1 ≡ [])
    × ((send request (after (other_args ∷ []) (send response []).0)).1 ≡ pair)
unfolding cached bytes_eq
send-pair_example =
    send-pair (args (codes "q") true 5) (args (codes "r") false 9) (other_args ∷ []) [] refl refl
      refl refl (refl, omega arith, tt) (refl, omega arith, tt)

abbrev request_start : Bytes
request_start = codes "POST / HTTP/1.1" ++ crlf ++ codes "Content-Length: 2" ++ empty_line

handle_requests-pieces_example :
    handle_requests env 0
      (request_start ∷ codes "hi" ∷ [])
      (record { base = base; rb = []; method = [] })
    ≡ handle_requests env 0
        ((request_start ++ codes "hi") ∷ [])
        (record { base = base; rb = []; method = [] })
unfolding header header_scan header_from read_line scan_start scan_lines skip_left skip_right
    value_of has_title fold_case equal_fold mime_headers_start_pos mime_headers_end_pos
    has_request_title has_response_title parse_request_title parse_response_title response_status
    method methods member bytes_eq index_byte index has_prefix has_suffix count_byte title_version
    slice is_http1 parse_http_version byte_at has_status_text ato_i atoi_from hex_value locate_body
    names_chunked read_headers parse_headers check_body has_full_payload http1_end_hint reached_n
handle_requests-pieces_example =
    handle_requests-pieces env 0 (record { base = base; rb = []; method = [] }) request_start
      (codes "hi") (codes "POST") [] [] refl refl refl refl refl

abbrev response_start : Bytes
response_start = codes "HTTP/1.1 200 OK" ++ crlf ++ codes "Content-Length: 2" ++ empty_line

abbrev gzip_header : Header
gzip_header = (codes "Content-Encoding", codes "gzip" ∷ []) ∷ []

print_rest-panic_example :
    (print_rest calls options (codes "all") false true 1 (codes "REQ") 0 gzip_header (codes "x")
      ≡ panic)
    ↔ ((true ≡ true)
        × (can_dump options ≡ false)
        × (bytes_eq (codes "all") (codes "header") ≡ false)
        × (try_decompress calls gzip_header (codes "x") ≡ none)
        × (reads_body calls gzip_header ≡ true))
print_rest-panic_example =
    print_rest-panic calls options (codes "all") false true 1 (codes "REQ") 0 gzip_header
      (codes "x")

gzip_test : print_body calls false gzip_header (codes "x") ≡ panic
unfolding print_body print_non_text_type_body read_all try_decompress header_get parse_content_type
    parse_charset parse_mime_type cut_scope cut_dot trim_space trim_from space_width
    space_width_back is_space is_space_2 is_space_3 is_text_content text_sub_types is_binary_content
    index has_prefix member bytes_eq
gzip_test = refl
