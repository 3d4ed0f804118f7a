-- ===== src/Tcp/Assembler.antt =====
-- `TCPAssembler` of handler/tcp_assembly.go. The map of connections is a list of its entries,
-- `none` once it is nil. The lock makes each call one step.
pub mod Map
pub mod Live
pub mod Safe
pub mod Flush
mod Tests
use httpdump.Base.{
  ℕ, Bool, true, false, not, ◌&&◌, ◌||◌, Option, none, some, List, [], ◌∷◌, ◌++◌, ltb,
  if◌then◌else◌, Bytes, bytes_eq, bytes_lt, Go, ok, panic, ◌>>=◌,
}
use mathlib.Core.Option
use httpdump.Tcp.Packet.{Tcp}
use httpdump.Tcp.Stream.{Endpoint, to_string}
use httpdump.Tcp.Connection
use httpdump.Tcp.Connection.{
  TcpConnection, new_tcp_connection, is_http_request_data, on_receive, closed,
}

abbrev pub Connections : Type 0
Connections = List TcpConnection

-- A call of `handler.handle`.
pub record Handled : Type 0 where
  pub src : Endpoint
  pub dst : Endpoint
  pub key : Bytes

pub record TcpAssembler : Type 0 where
  pub connections : Option Connections
  pub process_resp : ℕ
  pub handled : List Handled
  pub handler_finished : Bool

unfoldable pub new_tcp_assembler : ℕ → TcpAssembler
new_tcp_assembler process_resp = record {
  connections = some [];
  process_resp = process_resp;
  handled = [];
  handler_finished = false;
}

unfoldable pub create_connection_key : Endpoint → Endpoint → Bytes
create_connection_key src dst =
    let src_string = to_string src in
    let dst_string = to_string dst in
    if bytes_lt src_string dst_string
    then src_string ++ (b'-' ∷ dst_string)
    else dst_string ++ (b'-' ∷ src_string)

-- `r.connections[key]`; the entry of a connection is under its own key.
unfoldable pub lookup : Bytes → Connections → Option TcpConnection
lookup key [] = none
lookup key (c ∷ cs) = if bytes_eq c.key key then some c else lookup key cs

-- The connection behind a pointer of the map, after a change.
unfoldable pub update : TcpConnection → Connections → Connections
update c [] = []
update c (d ∷ cs) = if bytes_eq d.key c.key then c ∷ cs else d ∷ update c cs

-- `delete(r.connections, key)`
unfoldable pub delete : Bytes → Connections → Connections
delete key [] = []
delete key (c ∷ cs) = if bytes_eq c.key key then cs else c ∷ delete key cs

abbrev pub entries : Option Connections → Connections
entries none = []
entries (some cs) = cs

-- `retrieveConnection`. A write into the nil map panics.
unfoldable pub retrieve_connection :
    TcpAssembler → Endpoint → Endpoint → Bytes → Bool → Go (TcpAssembler × Option TcpConnection)
retrieve_connection r src dst key init = elim (lookup key (entries r.connections)) [
  | some c ↦ ok (r, some c)
  | none ↦ if not init then ok (r, none) else elim r.connections [
    | none ↦ panic
    | some cs ↦
        let c = new_tcp_connection key src dst r.process_resp in
        ok (
          record r {
            connections = some (c ∷ cs);
            handled = r.handled ++ record { src = src; dst = dst; key = key } ∷ [];
          },
          some c,
        )
  ]
]

-- What `Assemble` does with the connection once the packet is in it.
unfoldable pub store : TcpAssembler → TcpConnection → Bytes → Go TcpAssembler
store r c key =
    if closed c
    then (Connection.finish c >>= λ _.
        ok (record r { connections = Option.map (delete key) r.connections }))
    else ok (record r { connections = Option.map (update c) r.connections })

-- `Assemble`, with the end points of the flow and of the packet's ports.
unfoldable pub assemble : TcpAssembler → Endpoint → Endpoint → Tcp → ℕ → Go TcpAssembler
assemble r src dst tcp timestamp =
    let key = create_connection_key src dst in
    let create_new_conn = (tcp.syn && not tcp.ack) || is_http_request_data tcp.payload in
    retrieve_connection r src dst key create_new_conn >>= λ found. elim found.1 [
      | none ↦ ok found.0
      | some c ↦ on_receive c src tcp timestamp >>= λ c'. store found.0 c' key
    ]

-- The connections that `FlushOlderThan` leaves, and those that it takes out.
unfoldable pub younger : ℕ → Connections → Connections
younger time [] = []
younger time (c ∷ cs) = if ltb c.last_timestamp time then younger time cs else c ∷ younger time cs

unfoldable pub older : ℕ → Connections → Connections
older time [] = []
older time (c ∷ cs) = if ltb c.last_timestamp time then c ∷ older time cs else older time cs

-- A call for each connection of a list.
unfoldable pub each : (TcpConnection → Go TcpConnection) → Connections → Go Connections
each f [] = ok []
each f (c ∷ cs) = f c >>= λ c'. each f cs >>= λ cs'. ok (c' ∷ cs')

-- `FlushOlderThan`, with the connections that were flushed.
unfoldable pub flush_older_than : TcpAssembler → ℕ → Go (TcpAssembler × Connections)
flush_older_than r time = elim r.connections [
  | none ↦ ok (r, [])
  | some cs ↦ each Connection.flush_older_than (older time cs) >>= λ flushed.
      ok (record r { connections = some (younger time cs) }, flushed)
]

unfoldable pub finish_all : TcpAssembler → Go (TcpAssembler × Connections)
finish_all r = each Connection.finish (entries r.connections) >>= λ finished.
    ok (record r { connections = none; handler_finished = true }, finished)
