-- ===== src/Tcp/Connection/Stamp.antt =====
-- The times of the last request and the last response.
use httpdump.Base.{ℕ, ◌≡◌, inl, inr, refl, true, Returns, Bool-cases}
use httpdump.Tcp.Packet.{Tcp}
use httpdump.Tcp.Stream.{Endpoint, equals}
use httpdump.Tcp.Connection.{TcpConnection, receive_http, on_receive}
use httpdump.Tcp.Connection.Safe.{IsOpen, deliver-EndsOpen}

-- Once a connection carries HTTP, no packet changes the time of its last request, and every packet
-- sets that of its last response, the packets of the client too.
pub on_receive_stamps :
    (c : TcpConnection) (src : Endpoint) (tcp : Tcp) (timestamp : ℕ)
    → IsOpen c
    → c.is_http ≡ true
    → Returns
        (on_receive c src tcp timestamp)
        (λ c'. (c'.last_req_timestamp ≡ c.last_req_timestamp) × (c'.last_rsp_timestamp ≡ timestamp))
unfolding on_receive receive_http
on_receive_stamps c src tcp timestamp o http = rw http (elim (Bool-cases (equals c.client_id src)) [
  | inl client ↦
      let (e, eq, _) =
        deliver-EndsOpen (record { send = c.request_stream; confirm = c.response_stream }) tcp
          (o.request, o.response) in
      rw (client, eq) (_, refl, (refl, refl))
  | inr server ↦
      let (e, eq, _) =
        deliver-EndsOpen (record { send = c.response_stream; confirm = c.request_stream }) tcp
          (o.response, o.request) in
      rw (server, eq) (_, refl, (refl, refl))
])
