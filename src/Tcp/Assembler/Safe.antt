-- ===== src/Tcp/Assembler/Safe.antt =====
-- The assembler as a packet reaches it.
mod Retrieve
use httpdump.Base.{
  ℕ, ◌≡◌, inl, inr, refl, sym, subst, ap, ◌∙◌, Bool, true, false, not, ◌&&◌, ◌||◌, Option, none,
  some, [], ◌∷◌, Bytes, ◌>>=◌, Returns, bytes_eq, bytes_eq_iff, Bool-cases, Option-cases, arith,
}
use httpdump.Tcp.Packet.{Tcp}
use httpdump.Tcp.Stream.{Endpoint}
use httpdump.Tcp.Connection.{TcpConnection, new_tcp_connection, closed, is_http_request_data}
use httpdump.Tcp.Connection.Safe.{IsOpen, on_receive-IsOpen}
use httpdump.Tcp.Assembler.{
  Connections, TcpAssembler, create_connection_key, lookup, update, delete, entries,
  retrieve_connection, store, assemble,
}
use httpdump.Tcp.Assembler.Map.{
  Absent, Distinct, Absent-lookup, key-lookup, Distinct-update, Distinct-delete,
}
use httpdump.Tcp.Assembler.Live.{
  AllLive, IsValid, new_tcp_connection-IsLive, lookup-IsLive, AllLive-update, AllLive-delete,
  finish-IsDone,
}
use httpdump.Tcp.Assembler.Safe.Retrieve.{
  Follows, Retrieved, store-Follows, retrieve_connection-Retrieved,
}

assemble_lem :
    (r : TcpAssembler) (src dst : Endpoint) (tcp : Tcp) (timestamp : ℕ)
    → IsValid r
    → Returns (assemble r src dst tcp timestamp) (λ r'.
      IsValid r'
      × ((k : Bytes)
          → bytes_eq (create_connection_key src dst) k ≡ false
          → lookup k (entries r'.connections) ≡ lookup k (entries r.connections))
      × (lookup (create_connection_key src dst) (entries r.connections) ≡ none
          → ((tcp.syn && not tcp.ack) || is_http_request_data tcp.payload) ≡ false
          → r'.connections ≡ r.connections))
unfolding assemble
assemble_lem r src dst tcp timestamp v =
    let key = create_connection_key src dst in
    let init = (tcp.syn && not tcp.ack) || is_http_request_data tcp.payload in
    let (found, e, h) =
      retrieve_connection-Retrieved r v.table src dst key v.present v.live v.distinct init in
    rw (e, ◌>>=◌, v.present)
      (elim (Option-cases found.1) [
        | inl missing ↦ rw missing (
          found.0,
          refl,
          (
            record { table = h.table; present = h.present; live = h.live; distinct = h.distinct },
            λ k ne. rw h.present (h.others k ne),
            λ e e'. rw h.present (ap some (h.ignored e e').1),
          ),
        )
        | inr (c, here) ↦
            let (o, same) = h.usable c here in
            let (c', e', (o', kept)) = on_receive-IsOpen c src tcp timestamp o in
            let (r', e'', f) =
              store-Follows found.0 h.table c' key h.present h.live h.distinct o' (rw kept same) in
            rw (here, e', ◌>>=◌)
              (
                r',
                e'',
                (
                  f.valid,
                  λ k ne. f.others k ne ∙ h.others k ne,
                  λ e e'. absurd (ground (arith, here, h.ignored e e')),
                ),
              )
      ])

-- A packet never makes a valid assembler panic, and leaves it valid: its map is there, its keys
-- differ, its windows hold queues, the channels of its connections are open, and no connection in
-- it is closed in both directions.
pub assemble-IsValid :
    (r : TcpAssembler) (src dst : Endpoint) (tcp : Tcp) (timestamp : ℕ)
    → IsValid r
    → Returns (assemble r src dst tcp timestamp) IsValid
assemble-IsValid r src dst tcp timestamp v =
    let (r', e, (v', _, _)) = assemble_lem r src dst tcp timestamp v in (r', e, v')

-- A packet of one connection leaves every connection of another key of a valid assembler as it was.
pub assemble-others :
    (r : TcpAssembler) (src dst : Endpoint) (tcp : Tcp) (timestamp : ℕ) (k : Bytes)
    → IsValid r
    → bytes_eq (create_connection_key src dst) k ≡ false
    → Returns
        (assemble r src dst tcp timestamp)
        (λ r'. lookup k (entries r'.connections) ≡ lookup k (entries r.connections))
assemble-others r src dst tcp timestamp k v ne =
    let (r', e, (_, others, _)) = assemble_lem r src dst tcp timestamp v in (r', e, others k ne)

-- A packet of no connection of a valid assembler that neither starts one with a SYN nor begins an
-- HTTP request leaves the map as it was.
pub assemble-ignores :
    (r : TcpAssembler) (src dst : Endpoint) (tcp : Tcp) (timestamp : ℕ)
    → IsValid r
    → lookup (create_connection_key src dst) (entries r.connections) ≡ none
    → ((tcp.syn && not tcp.ack) || is_http_request_data tcp.payload) ≡ false
    → Returns (assemble r src dst tcp timestamp) (λ r'. r'.connections ≡ r.connections)
assemble-ignores r src dst tcp timestamp v missing plain =
    let (r', e, (_, _, same)) = assemble_lem r src dst tcp timestamp v in
    (r', e, same missing plain)
