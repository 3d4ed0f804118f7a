-- ===== src/Tcp/Stream.antt =====
-- `NetworkStream` and `FakeStream` of handler/tcp_assembly.go. The channel of a stream is the list
-- of what was sent into it, and whether it is closed: a send or a close on a closed channel panics.
-- A send into a full channel, which waits for the reader, is a send here.
use httpdump.Base.{
  ℕ, Bool, true, false, List, [], ◌∷◌, ◌++◌, if◌then◌else◌, Go, ok, panic, ◌>>=◌, Bytes, bytes_eq,
  ◌==◌, ◌&&◌, itoa,
}
use httpdump.Tcp.Packet.{Tcp}
use httpdump.Tcp.Window
use httpdump.Tcp.Window.{Window, new_receive_window}

-- `ip` is the text of the address.
pub record Endpoint : Type 0 where
  pub ip : Bytes
  pub port : ℕ

unfoldable pub equals : Endpoint → Endpoint → Bool
equals p v = bytes_eq p.ip v.ip && p.port == v.port

-- `Endpoint.String`
unfoldable pub to_string : Endpoint → Bytes
to_string p = p.ip ++ (b':' ∷ itoa p.port)

pub record NetworkStream : Type 0 where
  pub window : Window
  pub packets : List Tcp
  pub chan_closed : Bool
  pub ignore : Bool
  pub closed : Bool
  pub src : Endpoint
  pub dst : Endpoint
  pub is_request : Bool

-- The implementations of the interface `Stream`; a fake one has the field `closed` alone.
pub data Stream : Type 0 where
  network : NetworkStream → Stream
  fake : Bool → Stream

unfoldable pub new_network_stream : Endpoint → Endpoint → Bool → Stream
new_network_stream src dst is_request = network (record {
  window = new_receive_window 64;
  packets = [];
  chan_closed = false;
  ignore = false;
  closed = false;
  src = src;
  dst = dst;
  is_request = is_request;
})

unfoldable pub append_packet : Stream → Tcp → Go Stream
append_packet (network s) tcp =
    if s.ignore
    then ok (network s)
    else (Window.insert s.window tcp >>= λ w. ok (network (record s { window = w })))
append_packet (fake closed) tcp = ok (fake closed)

-- `c <- packet` for each packet.
unfoldable pub send_all : NetworkStream → List Tcp → Go NetworkStream
send_all s [] = ok s
send_all s (p ∷ ps) =
    if s.chan_closed then panic else ok (record s { packets = s.packets ++ p ∷ ps })

unfoldable pub confirm_packet : Stream → ℕ → Go Stream
confirm_packet (network s) ack =
    if s.ignore
    then ok (network s)
    else (Window.confirm s.window ack >>= λ r.
        send_all (record s { window = r.0 }) r.1 >>= λ t. ok (network t))
confirm_packet (fake closed) ack = ok (fake closed)

unfoldable pub set_closed : Stream → Bool → Stream
set_closed (network s) closed = network (record s { closed = closed })
set_closed (fake _) closed = fake closed

unfoldable pub is_closed : Stream → Bool
is_closed (network s) = s.closed
is_closed (fake closed) = closed

-- `Finish` closes the channel.
unfoldable pub finish : Stream → Go Stream
finish (network s) = if s.chan_closed then panic else ok (network (record s { chan_closed = true }))
finish (fake closed) = ok (fake closed)

-- `Close`, called by the reader when it stops; on a fake stream it panics.
unfoldable pub close : Stream → Go Stream
close (network s) = ok (network (record s { ignore = true }))
close (fake closed) = panic

-- `Packets`: what the reader gets.
unfoldable pub received : Stream → Go (List Tcp)
received (network s) = ok s.packets
received (fake closed) = panic
