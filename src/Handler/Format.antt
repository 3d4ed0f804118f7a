-- ===== src/Handler/Format.antt =====
-- What `printRequest` and `printResponse` of handler/handler_base.go write. A body is the bytes
-- that its reader gives before its end; a read that fails on the way is left out. A header map is
-- the list of its entries, in the order in which the loop over it takes them.
pub mod Panics
use httpdump.Base.{
  ℕ, suc, ◌+◌, ◌%◌, ◌^◌, Bool, true, false, not, ◌&&◌, ◌||◌, Option, none, some, List, [], ◌∷◌,
  ◌++◌, ltb, ◌==◌, if◌then◌else◌, length, Bytes, codes, bytes_eq, member, itoa, Go, ok, panic,
  ◌>>=◌, ℤ, pos, negsuc, is_neg, is_zero, is_pos,
}
use httpdump.Http.Title.{crlf}
use httpdump.Filter.IntSet.{int_string}
use httpdump.Filter.Options.{can_dump}
use httpdump.Filter.Options
use httpdump.Filter.Mime.{parse_mime_type, parse_content_type, is_text_content, is_binary_content}

abbrev pub Header : Type 0
Header = List (Bytes × List Bytes)

-- The methods of the interface `Req`.
pub record Req : Type 0 where
  pub method : Bytes
  pub host : Bytes
  pub path : Bytes
  pub request_uri : Bytes
  pub proto : Bytes
  pub header : Header
  pub content_length : ℤ
  pub body : Bytes

-- The methods of the interface `Rsp`.
pub record Rsp : Type 0 where
  pub status_line : Bytes
  pub raw_headers : List Bytes
  pub status_code : ℕ
  pub header : Header
  pub content_length : ℤ
  pub body : Bytes

-- `header.Get(name)` at a canonical name.
unfoldable pub header_get : Header → Bytes → Bytes
header_get [] name = []
header_get ((key, []) ∷ h) name = if bytes_eq key name then [] else header_get h name
header_get ((key, v ∷ vs) ∷ h) name = if bytes_eq key name then v else header_get h name

-- `header[name] = []string{value}`
unfoldable pub header_set : Header → Bytes → Bytes → Header
header_set [] name value = (name, value ∷ []) ∷ []
header_set ((key, vs) ∷ h) name value =
    if bytes_eq key name then (key, value ∷ []) ∷ h else (key, vs) ∷ header_set h name value

unfoldable pub print_values : Bytes → List Bytes → Bytes
print_values name [] = []
print_values name (v ∷ vs) = name ++ (codes ": " ++ (v ++ (crlf ++ print_values name vs)))

unfoldable pub print_header : Header → Bytes
print_header [] = []
print_header ((name, vs) ∷ h) = print_values name vs ++ print_header h

-- `parseContentLength`; `parse_int` is what `strconv.ParseInt` gives, an error or not.
unfoldable pub parse_content_length : (Bytes → ℤ) → ℤ → Header → ℤ
parse_content_length parse_int cl header =
    if not (is_neg cl)
    then cl
    else if bytes_eq (header_get header (codes "Content-Length")) []
    then cl
    else parse_int (header_get header (codes "Content-Length"))

unfoldable pub write_lines : List Bytes → Bytes
write_lines [] = []
write_lines (l ∷ ls) = l ++ (crlf ++ write_lines ls)

-- `strings.ToUpper`, and `htmlindex.Get` with the decoder that it gives: `none` for an error.
pub record Charsets : Type 0 where
  pub to_upper : Bytes → Bytes
  pub decoder : Bytes → Option (Bytes → Option Bytes)

-- What the printers call: the decoders of the libraries (`none` where a decoder does not start),
-- the charsets, the creation of a file, and the texts of their errors.
pub record Calls : Type 0 where
  pub parse_int : Bytes → ℤ
  pub gunzip : Bytes → Option Bytes
  pub inflate : Bytes → Option Bytes
  pub charsets : Charsets
  pub creates : Bytes → Bool
  pub error_text : Bytes
  pub day : ℕ → Bytes
  pub format_time : ℕ → Bytes

-- `TryDecompress`: the reader; `none` is a nil one, from which every read panics.
unfoldable pub try_decompress : Calls → Header → Bytes → Option Bytes
try_decompress calls header body =
    let c = header_get header (codes "Content-Encoding") in
    if bytes_eq c (codes "gzip")
    then calls.gunzip body
    else if bytes_eq c (codes "deflate")
    then calls.inflate body
    else some body

unfoldable pub read_all : Option Bytes → Go Bytes
read_all none = panic
read_all (some content) = ok content

-- The decoder of `ReadWithCharset`, which it looks for before it reads.
unfoldable pub charset_decoder : Charsets → Bytes → Option (Bytes → Option Bytes)
charset_decoder charsets charset =
    let upper = charsets.to_upper charset in
    if bytes_eq upper (codes "UTF-8") || bytes_eq upper (codes "UTF8")
    then some (λ content. some content)
    else charsets.decoder (
        if bytes_eq upper (codes "GBK") || bytes_eq upper (codes "GB2312")
        then codes "GB18030"
        else upper)

-- `ReadWithCharset`; `none` is its error.
unfoldable pub read_with_charset : Charsets → Option Bytes → Bytes → Go (Option Bytes)
read_with_charset charsets reader charset = elim (charset_decoder charsets charset) [
  | none ↦ ok none
  | some decode ↦ read_all reader >>= λ content. ok (decode content)
]

-- The text of a body: read as it is where no charset is named.
unfoldable pub read_text : Charsets → Option Bytes → Bytes → Go (Option Bytes)
read_text charsets reader charset =
    if bytes_eq charset []
    then (read_all reader >>= λ content. ok (some content))
    else read_with_charset charsets reader charset

-- `printNonTextTypeBody`
unfoldable pub print_non_text_type_body : Bool → Option Bytes → Bytes → Bool → Go Bytes
print_non_text_type_body force reader content_type is_binary = read_all reader >>= λ content.
    if force || not is_binary
    then ok (content ++ (crlf ++ crlf))
    else ok (
        codes "{Non-text body, content-type:"
        ++ (content_type ++ (codes ", len:" ++ (itoa (length content) ++ (codes "}" ++ crlf)))))

-- `printBody`
unfoldable pub print_body : Calls → Bool → Header → Bytes → Go Bytes
print_body calls force header body =
    let nr = try_decompress calls header body in
    let content_type = header_get header (codes "Content-Type") in
    let parts = parse_content_type content_type in
    let mt = parse_mime_type parts.0 in
    if not (is_text_content mt)
    then print_non_text_type_body force nr content_type (is_binary_content mt)
    else (read_text calls.charsets nr parts.1 >>= λ read. elim read [
      | none ↦ ok (codes "{Read body failed" ++ (calls.error_text ++ (codes "}" ++ crlf)))
      | some text ↦ ok text
    ])

-- `bodyFileName`
unfoldable pub body_file_name : Calls → Bytes → ℕ → Bytes → ℕ → Bytes
body_file_name calls prefix seq req t =
    prefix ++ (codes "." ++ (calls.day t ++ (codes "." ++ (itoa seq ++ (codes "." ++ req)))))

-- `DumpBody` and what is written of it; the count of the dumps is uint32.
unfoldable pub dump_body : Calls → Options.Options → Bytes → Bytes → Bytes × Options.Options
dump_body calls o fn body =
    if not (calls.creates fn)
    then (codes "dump to file failed:" ++ (calls.error_text ++ crlf), o)
    else if ltb 0 (length body)
    then (
      codes "\n// dump body to file:" ++ (fn ++ (codes "size:" ++ (itoa (length body) ++ crlf))),
      record o { dump_num = (o.dump_num + 1) % 2 ^ 32 },
    )
    else ([], o)

unfoldable pub title_line : Calls → ℕ → Bytes → Bytes → Bytes → ℕ → Bytes
title_line calls seq tag src dst time =
    codes "\n### #"
    ++ (itoa seq
        ++ (codes " "
            ++ (tag
                ++ (codes " "
                    ++ (src
                        ++ (codes "-"
                            ++ (dst ++ (codes " " ++ (calls.format_time time ++ crlf)))))))))

-- What follows the headers: the dump, the size of the body, or the body.
unfoldable pub print_rest :
    Calls
    → Options.Options
    → Bytes
    → Bool
    → Bool
    → ℕ
    → Bytes
    → ℕ
    → Header
    → Bytes
    → Go (Bytes × Options.Options)
print_rest calls o level force has_body seq tag time header body =
    if has_body && can_dump o
    then ok (dump_body calls o (body_file_name calls o.dump_body seq tag time) body)
    else if bytes_eq level (codes "header")
    then ok (
      (if has_body
          then codes "\n// body size:"
            ++ (itoa (length body) ++ (codes ", set [level = all] to display http body" ++ crlf))
          else []),
      o,
    )
    else if has_body
    then (print_body calls force header body >>= λ text. ok (text, o))
    else ok ([], o)

-- `printRequest`: the text in `reqBuffer`.
unfoldable pub print_request :
    Calls
    → Options.Options
    → Bytes
    → Bool
    → Bytes
    → Bytes
    → Req
    → ℕ
    → ℕ
    → Go (Bytes × Options.Options)
print_request calls o level force src dst r time seq =
    let title = title_line calls seq (codes "REQ") src dst time in
    if bytes_eq level (codes "url")
    then ok (title ++ (r.method ++ (codes " " ++ (r.host ++ (r.path ++ crlf)))), o)
    else (let n = parse_content_length calls.parse_int r.content_length r.header in
        let header = header_set r.header (codes "Content-Length") (int_string n) in
        let has_body =
          not (is_zero n)
          && not (
              member r.method (
                codes "CONNECT"
                ∷ codes "GET"
                ∷ codes "HEAD"
                ∷ codes "TRACE"
                ∷ codes "OPTIONS"
                ∷ [])) in
        print_rest calls o level force has_body seq (codes "REQ") time header r.body >>= λ rest.
        ok (
          title
              ++ (r.method
                  ++ (codes " "
                      ++ (r.request_uri
                          ++ (codes " "
                              ++ (r.proto
                                  ++ (crlf ++ (print_header header ++ (crlf ++ rest.0)))))))),
          rest.1,
        ))

-- `printResponse`: the text in `rspBuffer`.
unfoldable pub print_response :
    Calls
    → Options.Options
    → Bytes
    → Bool
    → Bytes
    → Bytes
    → Rsp
    → ℕ
    → ℕ
    → Go (Bytes × Options.Options)
print_response calls o level force src dst r time seq =
    let title = title_line calls seq (codes "RSP") src dst time ++ (r.status_line ++ crlf) in
    if bytes_eq level (codes "url")
    then ok (title, o)
    else (let n = parse_content_length calls.parse_int r.content_length r.header in
        let has_body = is_pos n && not (r.status_code == 304) && not (r.status_code == 204) in
        print_rest calls o level force has_body seq (codes "RSP") time r.header r.body >>= λ rest.
        ok (title ++ (write_lines r.raw_headers ++ (crlf ++ rest.0)), rest.1))
