-- ===== src/Tcp/Assembler/Live.antt =====
-- The invariant of the connections in the map, and the connections that are flushed out of it.
use httpdump.Base.{
  ℕ, ◌≡◌, inl, inr, refl, subst, Bool, true, false, ◌&&◌, some, [], ◌∷◌, ltb, Bytes, Go, ◌>>=◌,
  Returns, bytes_eq, Bool-cases, arith,
}
use httpdump.Tcp.Window.Holds.{new_receive_window-Holds}
use httpdump.Tcp.Stream
use httpdump.Tcp.Stream.{Endpoint, Stream, network, fake, new_network_stream, set_closed, is_closed}
use httpdump.Tcp.Connection
use httpdump.Tcp.Connection.{
  TcpConnection, new_tcp_connection, on_receive, closed, is_http_request_data,
}
use httpdump.Tcp.Connection.Safe.{StreamOpen, IsOpen}
use httpdump.Tcp.Assembler.{Connections, TcpAssembler, lookup, update, delete, younger, older, each}
use httpdump.Tcp.Assembler.Map.{Distinct}

-- A connection of the map: open, and not closed in both directions.
abbrev pub IsLive : TcpConnection → Type 0
IsLive c = IsOpen c × (closed c ≡ false)

abbrev pub AllLive : Connections → Type 0
AllLive [] = Unit
AllLive (c ∷ cs) = IsLive c × AllLive cs

pub record IsValid (r : TcpAssembler) : Type 0 where
  pub table : Connections
  pub present : r.connections ≡ some table
  pub live : AllLive table
  pub distinct : Distinct table

pub new_network_stream-StreamOpen :
    (src dst : Endpoint) (b : Bool) → StreamOpen (new_network_stream src dst b)
unfolding new_network_stream
new_network_stream-StreamOpen src dst b = (refl, ([], new_receive_window-Holds 64 (omega arith)))

pub new_tcp_connection-IsLive :
    (key : Bytes) (src dst : Endpoint) (n : ℕ) → IsLive (new_tcp_connection key src dst n)
unfolding new_tcp_connection closed is_closed new_network_stream
new_tcp_connection-IsLive key src dst n = elim (Bool-cases (ltb 0 n)) [
  | inl e ↦ rw e (
    record {
      request = new_network_stream-StreamOpen src dst true;
      response = new_network_stream-StreamOpen src dst false;
    },
    unlocked,
  )
  | inr e ↦ rw e (
    record { request = new_network_stream-StreamOpen src dst true; response = tt },
    unlocked_fake,
  )
]
  where
    unlocked :
        (is_closed (new_network_stream src dst true)
          && is_closed (new_network_stream src dst false))
        ≡ false
    unlocked = refl

    unlocked_fake : (is_closed (new_network_stream src dst true) && false) ≡ false
    unlocked_fake = refl

pub lookup-IsLive :
    (key : Bytes) (cs : Connections) (c : TcpConnection)
    → AllLive cs
    → lookup key cs ≡ some c
    → IsLive c
unfolding lookup
lookup-IsLive key [] c l h = cc
lookup-IsLive key (d ∷ cs) c (ld, l) h = elim (Bool-cases (bytes_eq d.key key)) [
  | inl e ↦ let same : d ≡ c = ground arith in subst IsLive same ld
  | inr ne ↦ lookup-IsLive key cs c l (ground arith)
]

pub AllLive-update :
    (c : TcpConnection) (cs : Connections) → IsLive c → AllLive cs → AllLive (update c cs)
unfolding update
AllLive-update c [] lc l = tt
AllLive-update c (d ∷ cs) lc (ld, l) = elim (Bool-cases (bytes_eq d.key c.key)) [
  | inl e ↦ simp e (lc, l)
  | inr ne ↦ simp ne (ld, AllLive-update c cs lc l)
]

pub AllLive-delete : (key : Bytes) (cs : Connections) → AllLive cs → AllLive (delete key cs)
unfolding delete
AllLive-delete key [] l = tt
AllLive-delete key (d ∷ cs) (ld, l) = elim (Bool-cases (bytes_eq d.key key)) [
  | inl e ↦ simp e l
  | inr ne ↦ simp ne (ld, AllLive-delete key cs l)
]

pub AllLive-younger : (time : ℕ) (cs : Connections) → AllLive cs → AllLive (younger time cs)
unfolding younger
AllLive-younger time [] l = tt
AllLive-younger time (d ∷ cs) (ld, l) = elim (Bool-cases (ltb d.last_timestamp time)) [
  | inl old ↦ simp old (AllLive-younger time cs l)
  | inr young ↦ simp young (ld, AllLive-younger time cs l)
]

pub AllLive-older : (time : ℕ) (cs : Connections) → AllLive cs → AllLive (older time cs)
unfolding older
AllLive-older time [] l = tt
AllLive-older time (d ∷ cs) (ld, l) = elim (Bool-cases (ltb d.last_timestamp time)) [
  | inl old ↦ simp old (ld, AllLive-older time cs l)
  | inr young ↦ simp young (AllLive-older time cs l)
]

-- The reader of the stream is told that nothing follows.
abbrev pub StreamDone : Stream → Type 0
StreamDone (network s) = s.chan_closed ≡ true
StreamDone (fake closed) = Unit

pub record IsDone (c : TcpConnection) : Type 0 where
  pub request : StreamDone c.request_stream
  pub response : StreamDone c.response_stream

finish-StreamDone : (s : Stream) → StreamOpen s → Returns (Stream.finish s) StreamDone
unfolding Stream.finish
finish-StreamDone (network s) (unlocked, _) = rw unlocked (_, refl, refl)
finish-StreamDone (fake closed) o = (fake closed, refl, tt)

pub finish-IsDone :
    (c : TcpConnection)
    → IsOpen c
    → Returns (Connection.finish c) (λ c'. IsDone c' × (c'.key ≡ c.key))
unfolding Connection.finish
finish-IsDone c o =
    let (a, ea, da) = finish-StreamDone c.request_stream o.request in
    let (b, eb, db) = finish-StreamDone c.response_stream o.response in
    rw (ea, eb, ◌>>=◌) (_, refl, (record { request = da; response = db }, refl))

set_closed-StreamOpen : (s : Stream) (b : Bool) → StreamOpen s → StreamOpen (set_closed s b)
unfolding set_closed
set_closed-StreamOpen (network s) b o = o
set_closed-StreamOpen (fake closed) b o = tt

pub flush-IsDone :
    (c : TcpConnection)
    → IsOpen c
    → Returns (Connection.flush_older_than c) (λ c'. IsDone c' × (c'.key ≡ c.key))
unfolding Connection.flush_older_than
flush-IsDone c o = finish-IsDone _ (record {
  request = set_closed-StreamOpen c.request_stream true o.request;
  response = set_closed-StreamOpen c.response_stream true o.response;
})

abbrev pub AllDone : Connections → Connections → Type 0
AllDone [] [] = Unit
AllDone (c ∷ cs) (d ∷ ds) = IsDone d × (d.key ≡ c.key) × AllDone cs ds
AllDone _ _ = ⊥

pub each-AllDone :
    (f : TcpConnection → Go TcpConnection)
    → ((c : TcpConnection) → IsOpen c → Returns (f c) (λ d. IsDone d × (d.key ≡ c.key)))
    → (cs : Connections) → AllLive cs
    → Returns (each f cs) (AllDone cs)
unfolding each
each-AllDone f h [] l = ([], refl, tt)
each-AllDone f h (c ∷ cs) ((o, _), l) =
    let (d, e, (done, key)) = h c o in
    let (ds, es, all) = each-AllDone f h cs l in rw (e, es, ◌>>=◌) (d ∷ ds, refl, (done, key, all))
