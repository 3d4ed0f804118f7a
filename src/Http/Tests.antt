-- ===== src/Http/Tests.antt =====
-- Runs at concrete payloads, those of util/http_test.go among them.
use httpdump.Base.{
  ◌≡◌, ◌↔◌, refl, true, false, ◌++◌, Bytes, codes, bytes_eq, index_byte, index, has_prefix,
  count_byte, slice, byte_at, member, ok,
}
use httpdump.Http.Std.{parse_http_version, is_http1, has_status_text}
use httpdump.Http.Title.{
  crlf, methods, method, title_version, parse_request_title, hex_value, atoi_from, ato_i,
  response_status, parse_response_title,
}
use httpdump.Http.Title.Request.{IsRequest, parse_request_title_iff}

abbrev get_text : Bytes
get_text = codes "GET /httplive/echo.json HTTP/1.1" ++ crlf ++ codes "Host: 7.d5k.co:5003"

parse_request_title_test : parse_request_title get_text ≡ ok (codes "GET", true)
unfolding parse_request_title method methods member bytes_eq index_byte index has_prefix count_byte
    title_version slice is_http1 parse_http_version
parse_request_title_test = refl

post_1_0_test : parse_request_title (codes "POST /post HTTP/1.0" ++ crlf) ≡ ok (codes "POST", true)
unfolding parse_request_title method methods member bytes_eq index_byte index has_prefix count_byte
    title_version slice is_http1 parse_http_version
post_1_0_test = refl

continue_test : parse_response_title (codes "HTTP/1.1 100 Continue" ++ crlf) ≡ ok (100, true)
unfolding parse_response_title response_status index has_prefix slice byte_at is_http1
    parse_http_version bytes_eq ato_i atoi_from hex_value has_status_text
continue_test = refl

no_digits_test : parse_response_title (codes "HTTP/1.0 10r Continue" ++ crlf) ≡ ok (0, false)
unfolding parse_response_title response_status index has_prefix slice byte_at is_http1
    parse_http_version bytes_eq ato_i atoi_from hex_value has_status_text
no_digits_test = refl

parse_request_title_iff_example :
    (parse_request_title get_text ≡ ok (codes "GET", true)) ↔ IsRequest get_text (codes "GET")
parse_request_title_iff_example = parse_request_title_iff get_text (codes "GET")
