-- ===== src/Tcp/Connection.antt =====
-- `TCPConnection` of handler/tcp_assembly.go. A time is a number; the zero time is 0.
pub mod Safe
pub mod Stamp
use httpdump.Base.{
  ℕ, Bool, true, false, not, ◌&&◌, ◌||◌, Option, none, some, List, [], ◌∷◌, ltb, leb, ◌==◌,
  if◌then◌else◌, length, take, Bytes, codes, index_byte, member, Go, ok, ◌>>=◌,
}
use httpdump.Http.Title.{space, parse_response_title}
use httpdump.Tcp.Packet.{Tcp}
use httpdump.Tcp.Stream
use httpdump.Tcp.Stream.{
  Endpoint, Stream, fake, equals, new_network_stream, append_packet, confirm_packet, set_closed,
  is_closed,
}

-- The keys of `httpMethods`.
unfoldable pub http_methods : List Bytes
http_methods =
    codes "CONNECT"
    ∷ codes "GET"
    ∷ codes "POST"
    ∷ codes "PUT"
    ∷ codes "DELETE"
    ∷ codes "HEAD"
    ∷ codes "TRACE"
    ∷ codes "OPTIONS"
    ∷ codes "PATCH"
    ∷ []

unfoldable pub is_http_request_data : Bytes → Bool
is_http_request_data body =
    if ltb (length body) 8 then false else elim (index_byte (take 8 body) space) [
      | none ↦ false
      | some idx ↦ member (take idx (take 8 body)) http_methods
    ]

pub record TcpConnection : Type 0 where
  pub key : Bytes
  pub request_stream : Stream
  pub response_stream : Stream
  pub client_id : Endpoint
  pub last_timestamp : ℕ
  pub last_req_timestamp : ℕ
  pub last_rsp_timestamp : ℕ
  pub is_http : Bool

-- `process_resp` counts the flags `-r`.
unfoldable pub new_tcp_connection : Bytes → Endpoint → Endpoint → ℕ → TcpConnection
new_tcp_connection key src dst process_resp = record {
  key = key;
  request_stream = new_network_stream src dst true;
  response_stream = (if ltb 0 process_resp then new_network_stream src dst false else fake false);
  client_id = record { ip = []; port = 0 };
  last_timestamp = 0;
  last_req_timestamp = 0;
  last_rsp_timestamp = 0;
  is_http = false;
}

-- The streams that a packet goes to: `send` first, then `confirm`.
pub record Ends : Type 0 where
  pub send : Stream
  pub confirm : Stream

-- The end of `onReceive`: the data, the acknowledgement, and the close of the sender's direction.
unfoldable pub deliver : Ends → Tcp → Go Ends
deliver e tcp = append_packet e.send tcp >>= λ send.
    (if tcp.ack then confirm_packet e.confirm tcp.ack_no else ok e.confirm) >>= λ confirm.
    ok (record {
      send = if tcp.fin || tcp.rst then set_closed send true else send;
      confirm = confirm;
    })

-- `onReceive` at a connection that is known to carry HTTP.
unfoldable pub receive_http : TcpConnection → Endpoint → Tcp → Bool → Go TcpConnection
receive_http c src tcp is_req =
    let from_client = equals c.client_id src in
    let rsp_timestamp = if from_client then c.last_rsp_timestamp else c.last_timestamp in
    let stamped = record c {
      last_req_timestamp = if is_req then c.last_timestamp else c.last_req_timestamp;
      last_rsp_timestamp = if is_req then rsp_timestamp else c.last_timestamp;
    } in
    if from_client
    then (deliver (record { send = c.request_stream; confirm = c.response_stream }) tcp >>= λ e.
        ok (record stamped { request_stream = e.send; response_stream = e.confirm }))
    else (deliver (record { send = c.response_stream; confirm = c.request_stream }) tcp >>= λ e.
        ok (record stamped { request_stream = e.confirm; response_stream = e.send }))

-- Whether the payload begins a response, which the code asks only where it begins no request.
unfoldable pub begins_response : Bytes → Bool → Go Bool
begins_response payload is_req =
    if is_req then ok false else (parse_response_title payload >>= λ r. ok r.1)

unfoldable pub on_receive : TcpConnection → Endpoint → Tcp → ℕ → Go TcpConnection
on_receive c src tcp timestamp =
    let now = record c { last_timestamp = timestamp } in
    let is_req = is_http_request_data tcp.payload in
    if c.is_http
    then receive_http now src tcp false
    else (begins_response tcp.payload is_req >>= λ is_rsp.
        if not is_req && not is_rsp
        then ok now
        else receive_http (record now { client_id = src; is_http = true }) src tcp is_req)

unfoldable pub closed : TcpConnection → Bool
closed c = is_closed c.request_stream && is_closed c.response_stream

unfoldable pub finish : TcpConnection → Go TcpConnection
finish c = Stream.finish c.request_stream >>= λ request.
    Stream.finish c.response_stream >>= λ response.
    ok (record c { request_stream = request; response_stream = response })

-- `TCPConnection.flushOlderThan`
unfoldable pub flush_older_than : TcpConnection → Go TcpConnection
flush_older_than c = finish (record c {
  request_stream = set_closed c.request_stream true;
  response_stream = set_closed c.response_stream true;
})
