-- ===== src/Tcp/Connection/Safe.antt =====
-- The invariant of a connection that is still in the map: its channels are open and its windows
-- hold queues.
use httpdump.Base.{
  ℕ, ◌≡◌, inl, inr, refl, Bool, true, false, not, ◌&&◌, ◌||◌, List, [], ◌∷◌, ◌++◌, if◌then◌else◌,
  Bytes, ◌>>=◌, Returns, Bool-cases, arith, sym, subst, append-nil,
}
use httpdump.Http.Title.Response.{parse_response_title_sound}
use httpdump.Tcp.Packet.{Tcp}
use httpdump.Tcp.Queue.{Queue}
use httpdump.Tcp.Queue
use httpdump.Tcp.Window.Holds.{Holds}
use httpdump.Tcp.Window.Insert.{insert_refines}
use httpdump.Tcp.Window.Confirm.{confirm_refines}
use httpdump.Tcp.Stream.{
  Endpoint, Stream, NetworkStream, network, fake, equals, append_packet, send_all, confirm_packet,
  set_closed,
}
use httpdump.Tcp.Connection.{
  TcpConnection, Ends, deliver, receive_http, begins_response, on_receive, is_http_request_data,
}

abbrev pub StreamOpen : Stream → Type 0
StreamOpen (network s) = (s.chan_closed ≡ false) × ((q : Queue) × Holds s.window q)
StreamOpen (fake closed) = Unit

pub record IsOpen (c : TcpConnection) : Type 0 where
  pub request : StreamOpen c.request_stream
  pub response : StreamOpen c.response_stream

append_packet-StreamOpen :
    (s : Stream) (tcp : Tcp) → StreamOpen s → Returns (append_packet s tcp) StreamOpen
unfolding append_packet
append_packet-StreamOpen (fake closed) tcp o = (fake closed, refl, tt)
append_packet-StreamOpen (network s) tcp (unlocked, (q, h)) = elim (Bool-cases s.ignore) [
  | inl i ↦ simp i (network s, refl, (unlocked, (q, h)))
  | inr i ↦
      let (w, e, (h', _, _)) = insert_refines tcp h in simp i (rw e (_, refl, (unlocked, (_, h'))))
]

send_all-open :
    (s : NetworkStream) (ps : List Tcp)
    → s.chan_closed ≡ false
    → Returns
        (send_all s ps)
        (λ t. (t.chan_closed ≡ false) × (t.window ≡ s.window) × (t.packets ≡ s.packets ++ ps))
unfolding send_all
send_all-open s [] h = (s, refl, (h, refl, sym (append-nil s.packets)))
send_all-open s (p ∷ ps) h =
    (record s { packets = s.packets ++ p ∷ ps }, ground arith, (h, refl, refl))

confirm_packet-StreamOpen :
    (s : Stream) (ack : ℕ) → StreamOpen s → Returns (confirm_packet s ack) StreamOpen
unfolding confirm_packet
confirm_packet-StreamOpen (fake closed) ack o = (fake closed, refl, tt)
confirm_packet-StreamOpen (network s) ack (unlocked, (q, h)) = elim (Bool-cases s.ignore) [
  | inl i ↦ simp i (network s, refl, (unlocked, (q, h)))
  | inr i ↦
      let (r, e, (h', _, _)) = confirm_refines ack h in
      let waiting = (Queue.confirm ack s.window.expect_begin q).waiting in
      let (t, e', (still, w, _)) = send_all-open (record s { window = r.0 }) r.1 unlocked in
      (network t, ground arith, (still, (waiting, subst (λ x. Holds x waiting) (sym w) h')))
]

set_closed-StreamOpen : (s : Stream) (b : Bool) → StreamOpen s → StreamOpen (set_closed s b)
unfolding set_closed
set_closed-StreamOpen (network s) b o = o
set_closed-StreamOpen (fake closed) b o = tt

abbrev pub EndsOpen : Ends → Type 0
EndsOpen e = StreamOpen e.send × StreamOpen e.confirm

pub deliver-EndsOpen : (e : Ends) (tcp : Tcp) → EndsOpen e → Returns (deliver e tcp) EndsOpen
unfolding deliver
deliver-EndsOpen e tcp (os, oc) =
    let (s, es, os') = append_packet-StreamOpen e.send tcp os in
    let (c, ec, oc') = confirm_packet-StreamOpen e.confirm tcp.ack_no oc in
    rw (es, ◌>>=◌)
      (elim (Bool-cases tcp.ack) [
        | inl a ↦ simp a (rw ec (_, refl, (ended s tcp os', oc')))
        | inr a ↦ simp a (_, refl, (ended s tcp os', oc))
      ])
  where
    ended :
        (s : Stream) (tcp : Tcp)
        → StreamOpen s
        → StreamOpen (if tcp.fin || tcp.rst then set_closed s true else s)
    ended s tcp o = elim (Bool-cases (tcp.fin || tcp.rst)) [
      | inl f ↦ rw f (set_closed-StreamOpen s true o)
      | inr f ↦ rw f o
    ]

receive_http-IsOpen :
    (c : TcpConnection) (src : Endpoint) (tcp : Tcp) (is_req : Bool)
    → IsOpen c
    → Returns (receive_http c src tcp is_req) (λ c'. IsOpen c' × (c'.key ≡ c.key))
unfolding receive_http
receive_http-IsOpen c src tcp is_req o = elim (Bool-cases (equals c.client_id src)) [
  | inl client ↦
      let (e, eq, (os, oc)) =
        deliver-EndsOpen (record { send = c.request_stream; confirm = c.response_stream }) tcp
          (o.request, o.response) in
      rw (client, eq) (_, refl, (record { request = os; response = oc }, refl))
  | inr server ↦
      let (e, eq, (os, oc)) =
        deliver-EndsOpen (record { send = c.response_stream; confirm = c.request_stream }) tcp
          (o.response, o.request) in
      rw (server, eq) (_, refl, (record { request = oc; response = os }, refl))
]

begins_response-returns :
    (payload : Bytes) (is_req : Bool) → Returns (begins_response payload is_req) (λ _. Unit {0})
unfolding begins_response
begins_response-returns payload true = (false, refl, tt)
begins_response-returns payload false =
    let (r, e, _) = parse_response_title_sound payload in rw e (r.1, refl, tt)

-- `onReceive` does not panic on an open connection, and leaves it open under its key.
pub on_receive-IsOpen :
    (c : TcpConnection) (src : Endpoint) (tcp : Tcp) (timestamp : ℕ)
    → IsOpen c
    → Returns (on_receive c src tcp timestamp) (λ c'. IsOpen c' × (c'.key ≡ c.key))
unfolding on_receive
on_receive-IsOpen c src tcp timestamp o =
    let now = record c { last_timestamp = timestamp } in
    let is_req = is_http_request_data tcp.payload in
    elim (Bool-cases c.is_http) [
      | inl http ↦ rw http (
          receive_http-IsOpen (record c { last_timestamp = timestamp; is_http = true }) src tcp
            false (record { request = o.request; response = o.response }))
      | inr fresh ↦
          let (is_rsp, e, _) = begins_response-returns tcp.payload is_req in
          rw (fresh, e, ◌>>=◌)
            (elim (Bool-cases (not is_req && not is_rsp)) [
              | inl other ↦
                  rw other (_, refl, (record { request = o.request; response = o.response }, refl))
              | inr first ↦ rw first (
                  receive_http-IsOpen (record now { client_id = src; is_http = true }) src tcp
                    is_req (record { request = o.request; response = o.response }))
            ])
    ]
