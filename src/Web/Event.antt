-- ===== src/Web/Event.antt =====
-- `ParseHTTPEvent` and `SSESender` of sse.go. `ss.ParseInt`, `ss.FieldsN` and `man.IBytes` are
-- parameters. A line longer than the buffer of the scanner, 64 KB, which would end the scan, is
-- left out.
pub mod Fields
pub mod Place
pub mod Title
pub mod Eof
pub mod Panics
use httpdump.Base.{
  ℕ, zero, suc, Bool, true, false, ◌&&◌, none, some, List, [], ◌∷◌, ◌++◌, if◌then◌else◌, length,
  drop, get_elem?, Bytes, codes, bytes_eq, has_prefix, slice, Go, ok, panic, ◌>>=◌, ℤ, pos,
}
use httpdump.Filter.Mime.{space_width}
use httpdump.Http.Title.{parse_response_title}
use httpdump.Replay.Title.{parse_title}
use httpdump.Replay.Lines.{lines_of}

-- `HTTPEvent`; the field `Path` is `uri_path`.
pub record HttpEvent : Type 0 where
  pub eof : Bool
  pub req : Bool
  pub rsp : Bool
  pub seq : ℤ
  pub connection : Bytes
  pub method : Bytes
  pub host : Bytes
  pub uri_path : Bytes
  pub content_type : Bytes
  pub status : ℕ
  pub time : Bytes
  pub size : Bytes
  pub timestamp : Bytes
  pub payload : Bytes

pub record Calls : Type 0 where
  pub parse_int : Bytes → ℤ
  pub ss_fields_n : Bytes → ℕ → List Bytes
  pub i_bytes : ℕ → Bytes

unfoldable pub keep_word : Bytes → List Bytes → List Bytes
keep_word [] words = words
keep_word (c ∷ word) words = (c ∷ word) ∷ words

-- `strings.Fields(s)` behind the word that is begun, where `skip` bytes of a space are left.
unfoldable pub fields_at : ℕ → Bytes → Bytes → List Bytes
fields_at skip word [] = keep_word word []
fields_at (suc skip) word (c ∷ s) = fields_at skip word s
fields_at zero word (c ∷ s) = elim (space_width c s) [
  | zero ↦ fields_at zero (word ++ c ∷ []) s
  | suc skip ↦ keep_word word (fields_at skip [] s)
]

abbrev pub fields_from : Bytes → Bytes → List Bytes
fields_from word s = fields_at 0 word s

abbrev pub fields : Bytes → List Bytes
fields s = fields_from [] s

-- `FieldsN`, which indexes the fields before it tests their number.
unfoldable pub fields_n : List Bytes → ℕ → Go Bytes
fields_n words seq = elim (get_elem? words seq) [ none ↦ panic | some word ↦ ok word ]

-- What the scanner does with its next line: a title behind a line `###`, or anything.
pub data Expect : Type 0 where
  any_line : Expect
  request_title : Expect
  response_title : Expect
  no_line : Expect

-- The assignments behind a line `###`, up to the sequence number.
unfoldable pub head_event : Calls → HttpEvent → Bytes → Bytes → Bytes → HttpEvent
head_event calls e field2 connection timestamp = record e {
  req = bytes_eq field2 (codes "REQ");
  rsp = bytes_eq field2 (codes "RSP");
  connection = connection;
  timestamp = timestamp;
  size = calls.i_bytes (length e.payload);
}

unfoldable pub expect_title : Bytes → Expect
expect_title field2 =
    if bytes_eq field2 (codes "REQ")
    then request_title
    else if bytes_eq field2 (codes "RSP")
    then response_title
    else any_line

-- A line that begins with `###`.
unfoldable pub head_line : Calls → HttpEvent → Bytes → Go (HttpEvent × Expect)
head_line calls e line =
    let words = fields line in
    fields_n words 1 >>= λ field1. fields_n words 2 >>= λ field2. fields_n words 3 >>= λ connection.
    fields_n words 4 >>= λ timestamp.
    (let e' = head_event calls e field2 connection timestamp in
      if has_prefix field1 (codes "EOF")
      then (slice field1 4 (length field1) >>= λ digits.
          ok (record e' { eof = true; seq = calls.parse_int digits }, no_line))
      else (slice field1 1 (length field1) >>= λ digits.
          ok (record e' { seq = calls.parse_int digits }, expect_title field2)))

-- Any other line.
unfoldable pub header_line : Calls → HttpEvent → Bytes → Go HttpEvent
header_line calls e line =
    if has_prefix line (codes "Host:")
    then (fields_n (calls.ss_fields_n line 2) 1 >>= λ host. ok (record e { host = host }))
    else if e.rsp && has_prefix line (codes "Content-Type:")
    then (fields_n (calls.ss_fields_n line 2) 1 >>= λ content_type.
        ok (record e { content_type = content_type }))
    else ok e

unfoldable pub title_request : HttpEvent → Bytes → Go HttpEvent
title_request e line =
    parse_title line >>= λ t. ok (record e { method = t.method; uri_path = t.path })

unfoldable pub title_response : HttpEvent → Bytes → Go HttpEvent
title_response e line = parse_response_title line >>= λ t. ok (record e { status = t.0 })

-- The lines of the loop. A title that is expected behind the last line is read from no bytes.
unfoldable pub scan_event : Calls → HttpEvent → Expect → List Bytes → Go HttpEvent
scan_event calls e any_line [] = ok e
scan_event calls e request_title [] = title_request e []
scan_event calls e response_title [] = title_response e []
scan_event calls e no_line lines = ok e
scan_event calls e request_title (line ∷ lines) =
    title_request e line >>= λ e'. scan_event calls e' any_line lines
scan_event calls e response_title (line ∷ lines) =
    title_response e line >>= λ e'. scan_event calls e' any_line lines
scan_event calls e any_line (line ∷ lines) = elim (has_prefix line (codes "###")) [
  | true ↦ head_line calls e line >>= λ r. scan_event calls r.0 r.1 lines
  | false ↦ header_line calls e line >>= λ e'. scan_event calls e' any_line lines
]

abbrev pub new_event : Bytes → HttpEvent
new_event msg = record {
  eof = false;
  req = false;
  rsp = false;
  seq = pos 0;
  connection = [];
  method = [];
  host = [];
  uri_path = [];
  content_type = [];
  status = 0;
  time = [];
  size = [];
  timestamp = [];
  payload = msg;
}

unfoldable pub parse_http_event : Calls → Bytes → Go HttpEvent
parse_http_event calls msg = scan_event calls (new_event msg) any_line (lines_of msg)

-- `SSESender`: what was broadcast, and whether the stream is shut down. `json` is `codec.Json`.
pub record SseSender : Type 0 where
  pub broadcast : List Bytes
  pub shut_down : Bool

-- `SSESender.Send`
unfoldable pub sse_send : Calls → (HttpEvent → Bytes) → SseSender → Bytes → Go SseSender
sse_send calls json s msg =
    parse_http_event calls msg >>= λ e. ok (record s { broadcast = s.broadcast ++ json e ∷ [] })

-- `SSESender.Close`
unfoldable pub sse_close : SseSender → SseSender
sse_close s = record s { shut_down = true }
