-- ===== src/Handler/Std.antt =====
-- handler/handler_std.go: the readers that the standard assembler starts, over the bytes of one
-- direction of a connection. `http.ReadRequest` and `http.ReadResponse` are parameters: a message
-- with the bytes that are left when its body is discarded too, or an error. The reader's buffer
-- begins with zeros, so that the five bytes of a shorter peek are none of `HTTP/`.
pub mod Repeats
pub mod Ends
mod Tests
use httpdump.Base.{
  ℕ, zero, suc, ◌%◌, ◌^◌, Bool, true, false, not, Option, none, some, List, [], ◌∷◌, ◌++◌, ltb,
  if◌then◌else◌, length, take, Bytes, codes, has_prefix, Go, ok, panic, ◌>>=◌,
}
use httpdump.Filter.Options
use httpdump.Filter.Options.{permits_req}
use httpdump.Tcp.Connection.{is_http_request_data}
use httpdump.Handler.Format.{Header, Req, Rsp, print_request, print_response}
use httpdump.Handler.Fast.{new_base}
use httpdump.Handler.Base.{Env, Base, incr, send_on, handle_error, Tag, tag_request, tag_response}

-- What `http.ReadRequest` or `http.ReadResponse` does with the bytes of its reader.
pub data Read (A : Type 0) : Type 0 where
  got : A → Bytes → Read A
  ended : Bool → Bytes → Read A

pub record StdEnv : Type 0 where
  pub env : Env
  pub read_request : Bytes → Read Req
  pub read_response : Bytes → Read Rsp

-- `Base` with its two buffers, which no code of this file resets.
pub record Std : Type 0 where
  pub base : Base
  pub req_buffer : Bytes
  pub rsp_buffer : Bytes

-- The end of the two functions: the text goes behind what the buffer holds, and all of that is
-- sent.
unfoldable pub print_on :
    Env → Bytes → Base → ℕ → Bool → Go (Bytes × Options.Options) → Go (Bytes × Base)
print_on env buffer h seq req printed = printed >>= λ text.
    ok (buffer ++ text.0, send_on env (record h { option = text.1 }) seq req (buffer ++ text.0))

-- `processRequest` on what the buffer holds: the buffer and the handler afterwards.
unfoldable pub process_request_on : Env → Bytes → Base → Req → ℕ → Go (Bytes × Base)
process_request_on env buffer h r start_time =
    let seq = incr h.req_counter in
    let permit = permits_req h.option r.host r.request_uri (env.ratio seq) in
    let h' = record h { req_counter = seq; option = permit.1 } in
    if not permit.0
    then ok (buffer, h')
    else if h.using_json
    then ok (buffer, send_on env h' seq true (env.req_to_json r seq ++ codes "\n"))
    else print_on env buffer h' seq true
        (print_request env.calls h'.option h.level h.force h.src h.dst r start_time seq)

-- `processResponse` on what the buffer holds.
unfoldable pub process_response_on : Env → Bytes → Base → Rsp → ℕ → Go (Bytes × Base)
process_response_on env buffer h r end_time =
    let seq = incr h.rsp_counter in
    let h' = record h { rsp_counter = seq } in
    if not (env.ratio seq)
    then ok (buffer, h')
    else if h.using_json
    then ok (buffer, send_on env h' seq false (env.rsp_to_json r seq ++ codes "\n"))
    else print_on env buffer h' seq false
        (print_response env.calls h.option h.level h.force h.src h.dst r end_time seq)

-- `runRequests`, on as many rounds as `fuel` says; `now` is the time at each number of rounds left.
unfoldable pub run_requests : StdEnv → (ℕ → ℕ) → ℕ → Std → Bytes → Option (Go Std)
run_requests e now zero s buf = none
run_requests e now (suc fuel) s buf = elim (e.read_request buf) [
  | ended is_eof text ↦
      some (ok (record s { base = handle_error e.env s.base is_eof text (now fuel) tag_request }))
  | got r rest ↦ elim (process_request_on e.env s.req_buffer s.base r (now fuel)) [
    | panic ↦ some panic
    | ok (buffer, h) ↦ run_requests e now fuel (record s { base = h; req_buffer = buffer }) rest
  ]
]

-- `runResponses`
unfoldable pub run_responses : StdEnv → (ℕ → ℕ) → ℕ → Std → Bytes → Option (Go Std)
run_responses e now zero s buf = none
run_responses e now (suc fuel) s buf = elim (e.read_response buf) [
  | ended is_eof text ↦
      some (ok (record s { base = handle_error e.env s.base is_eof text (now fuel) tag_response }))
  | got r rest ↦ elim (process_response_on e.env s.rsp_buffer s.base r (now fuel)) [
    | panic ↦ some panic
    | ok (buffer, h) ↦ run_responses e now fuel (record s { base = h; rsp_buffer = buffer }) rest
  ]
]

-- `Factory.run`; `resp` counts the flags `-r`. Each round of a loop reads at least a byte.
unfoldable pub run : StdEnv → (ℕ → ℕ) → ℕ → Std → Bytes → Option (Go Std)
run e now resp s stream =
    if has_prefix stream (codes "HTTP/")
    then (if ltb 0 resp then run_responses e now (suc (length stream)) s stream else some (ok s))
    else if is_http_request_data (take 8 stream)
    then run_requests e now (suc (length stream)) s stream
    else some (ok s)

-- `MapKeys`, in the order in which its loop takes the entries of the map.
unfoldable pub header_lines : Bytes → List Bytes → List Bytes
header_lines key [] = []
header_lines key (value ∷ values) = (key ++ (codes ": " ++ value)) ∷ header_lines key values

unfoldable pub map_keys : Header → List Bytes
map_keys [] = []
map_keys ((key, values) ∷ header) = header_lines key values ++ map_keys header

-- `streamKey`: the texts of the ends of its two flows.
pub record StreamKey : Type 0 where
  pub net_src : Bytes
  pub net_dst : Bytes
  pub tcp_src : Bytes
  pub tcp_dst : Bytes

unfoldable pub stream_key_src : StreamKey → Bytes
stream_key_src k = k.net_src ++ (codes ":" ++ k.tcp_src)

unfoldable pub stream_key_dst : StreamKey → Bytes
stream_key_dst k = k.net_dst ++ (codes ":" ++ k.tcp_dst)

-- `streamKey.String`
unfoldable pub stream_key_string : StreamKey → Bytes
stream_key_string k =
    k.net_src
    ++ (codes ":" ++ (k.tcp_src ++ (codes "-" ++ (k.net_dst ++ (codes ":" ++ k.tcp_dst)))))

-- `Factory.New`: the handler of the stream that its goroutine gets.
unfoldable pub factory_new :
    Bool → ℕ → StreamKey → Options.Options → Bool → Bytes → Bool → Option (List Bool) → Std
factory_new using_json resp k option eof level force limiter = record {
  base =
      new_base using_json resp (stream_key_src k) (stream_key_dst k) option eof level force limiter;
  req_buffer = [];
  rsp_buffer = [];
}
