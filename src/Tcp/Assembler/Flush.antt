-- ===== src/Tcp/Assembler/Flush.antt =====
-- What a flush leaves and what it finishes, and whole runs of the assembler.
use httpdump.Base.{
  ℕ, ◌≡◌, inl, inr, refl, subst, true, Option, none, some, List, [], ◌∷◌, if◌then◌else◌, ltb, Bytes,
  Go, ok, ◌>>=◌, Returns, bytes_eq, bytes_eq_iff, Bool-cases,
}
use httpdump.Tcp.Packet.{Tcp}
use httpdump.Tcp.Stream.{Endpoint}
use httpdump.Tcp.Connection
use httpdump.Tcp.Connection.{TcpConnection}
use httpdump.Tcp.Assembler.{
  Connections, TcpAssembler, new_tcp_assembler, lookup, entries, assemble, younger, older,
  flush_older_than, finish_all,
}
use httpdump.Tcp.Assembler.Map.{Absent, Distinct, lookup-Absent, Distinct-younger, Absent-younger}
use httpdump.Tcp.Assembler.Live.{
  IsValid, AllLive-younger, AllLive-older, AllDone, finish-IsDone, flush-IsDone, each-AllDone,
}
use httpdump.Tcp.Assembler.Safe.{assemble-IsValid}

-- The connection, if it has seen a packet since `time`.
abbrev pub recent : ℕ → Option TcpConnection → Option TcpConnection
recent time none = none
recent time (some c) = if ltb c.last_timestamp time then none else some c

lookup-younger :
    (k : Bytes) (time : ℕ) (cs : Connections)
    → Distinct cs
    → lookup k (younger time cs) ≡ recent time (lookup k cs)
unfolding lookup younger
lookup-younger k time [] d = refl
lookup-younger k time (c ∷ cs) (a, d) = elim (Bool-cases (bytes_eq c.key k)) [
  | inl e ↦ elim (Bool-cases (ltb c.last_timestamp time)) [
    | inl old ↦
        simp (younger, e, old)
          (lookup-Absent k (younger time cs)
            (Absent-younger k time cs (subst (λ x. Absent x cs) ((bytes_eq_iff c.key k).0 e) a)))
    | inr young ↦ simp (younger, lookup, e, young) refl
  ]
  | inr ne ↦ elim (Bool-cases (ltb c.last_timestamp time)) [
    | inl old ↦ simp (younger, lookup, ne, old) (lookup-younger k time cs d)
    | inr young ↦ simp (younger, lookup, ne, young) (lookup-younger k time cs d)
  ]
]

-- A flush of a valid assembler does not panic and leaves it valid. It takes out the connections
-- whose last packet is before `time` and no other: every lookup afterwards is the one before it,
-- where that connection is recent enough. The channels of each connection that it takes out are
-- closed, so that their readers end.
pub flush_older_than-recent :
    (r : TcpAssembler) (time : ℕ) (v : IsValid r)
    → Returns (flush_older_than r time) (λ p.
      IsValid p.0
      × AllDone (older time v.table) p.1
      × ((k : Bytes)
          → lookup k (entries p.0.connections) ≡ recent time (lookup k (entries r.connections))))
unfolding flush_older_than
flush_older_than-recent r time v =
    let (flushed, e, done) =
      each-AllDone Connection.flush_older_than flush-IsDone (older time v.table)
        (AllLive-older time v.table v.live) in
    simp (flush_older_than, v.present, e, ◌>>=◌)
      (
        _,
        refl,
        (
          record {
            table = younger time v.table;
            present = refl;
            live = AllLive-younger time v.table v.live;
            distinct = Distinct-younger time v.table v.distinct;
          },
          done,
          λ k. lookup-younger k time v.table v.distinct,
        ),
      )

-- `FinishAll` of a valid assembler does not panic: it closes the channels of every connection of
-- the map, drops the map and finishes the handler.
pub finish_all-AllDone :
    (r : TcpAssembler) (v : IsValid r)
    → Returns
        (finish_all r)
        (λ p. (p.0.connections ≡ none) × (p.0.handler_finished ≡ true) × AllDone v.table p.1)
unfolding finish_all
finish_all-AllDone r v =
    let (finished, e, done) = each-AllDone Connection.finish finish-IsDone v.table v.live in
    simp (finish_all, v.present, e, ◌>>=◌) (_, refl, (refl, refl, done))

-- What `LoopPackets` of util/pcap.go selects, in the order in which it does: a packet that is TCP
-- over an internet protocol, another one, or a tick of the clock with the time of the oldest
-- connections to keep. The end of the packets or of the context is the end of the list.
pub data Action : Type 0 where
  packet : Endpoint → Endpoint → Tcp → ℕ → Action
  other_packet : Action
  tick : ℕ → Action

unfoldable pub act : TcpAssembler → Action → Go TcpAssembler
act r (packet src dst tcp timestamp) = assemble r src dst tcp timestamp
act r other_packet = ok r
act r (tick time) = flush_older_than r time >>= λ p. ok p.0

-- `LoopPackets`, with its deferred `FinishAll`.
unfoldable pub capture : TcpAssembler → List Action → Go TcpAssembler
capture r [] = finish_all r >>= λ p. ok p.0
capture r (a ∷ actions) = act r a >>= λ r'. capture r' actions

act-IsValid : (r : TcpAssembler) (a : Action) → IsValid r → Returns (act r a) IsValid
unfolding act
act-IsValid r (packet src dst tcp timestamp) v = assemble-IsValid r src dst tcp timestamp v
act-IsValid r other_packet v = (r, refl, v)
act-IsValid r (tick time) v =
    let (p, e, (v', _, _)) = flush_older_than-recent r time v in rw (e, ◌>>=◌) (p.0, refl, v')

capture-Returns :
    (r : TcpAssembler) (actions : List Action)
    → IsValid r
    → Returns (capture r actions) (λ r'. (r'.connections ≡ none) × (r'.handler_finished ≡ true))
unfolding capture
capture-Returns r [] v =
    let (p, e, (gone, finished, _)) = finish_all-AllDone r v in
    rw (e, ◌>>=◌) (p.0, refl, (gone, finished))
capture-Returns r (a ∷ actions) v =
    let (r', e, v') = act-IsValid r a v in rw (e, ◌>>=◌) (capture-Returns r' actions v')

new_tcp_assembler-IsValid : (n : ℕ) → IsValid (new_tcp_assembler n)
unfolding new_tcp_assembler
new_tcp_assembler-IsValid n = record { table = []; present = refl; live = tt; distinct = tt }

-- A capture never panics: whatever packets and ticks reach a new assembler, in whatever order, each
-- of them returns, and the final `FinishAll` returns with the map dropped and the handler finished.
-- No send and no close finds a closed channel, and no write finds the nil map.
pub capture-returns :
    (process_resp : ℕ) (actions : List Action)
    → Returns
        (capture (new_tcp_assembler process_resp) actions)
        (λ r'. (r'.connections ≡ none) × (r'.handler_finished ≡ true))
capture-returns process_resp actions =
    capture-Returns (new_tcp_assembler process_resp) actions
      (new_tcp_assembler-IsValid process_resp)
