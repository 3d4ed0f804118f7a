-- ===== src/Tcp/Queue.antt =====
-- What a receive window stands for: the packets that wait for their acknowledgement, the one with
-- the earliest sequence number first.
pub mod Order
pub mod Stream
use httpdump.Base.{
  ℕ, zero, suc, Bool, not, ◌&&◌, true, none, some, List, [], ◌∷◌, ◌++◌, ◌==◌, if◌then◌else◌, length,
  get_elem?, insert_at, is_neg, is_zero,
}
use httpdump.Tcp.Packet.{Tcp}
use httpdump.Tcp.Seq.{compare_tcp_seq, add32}
use httpdump.Tcp.Window.{payload_len, Slot, duplicated, at, deliver, sent}

abbrev pub Queue : Type 0
Queue = List Tcp

-- Where a packet with number `seq` belongs among the first `n`, seen from the end.
unfoldable pub find_slot : Queue → ℕ → ℕ → Slot
find_slot q seq zero = at 0
find_slot q seq (suc n) =
    let older = find_slot q seq n in
    elim (get_elem? q n) [
      | none ↦ duplicated
      | some prev ↦
          let result = compare_tcp_seq prev.seq seq in
          if is_zero result then duplicated else if is_neg result then at (suc n) else older
    ]

unfoldable pub place : Slot → Tcp → Queue → Queue
place duplicated p q = q
place (at i) p q = insert_at i p q

-- A packet without payload, or one that ends at or before the byte that is expected, changes
-- nothing.
unfoldable pub is_ignored : ℕ → Tcp → Bool
is_ignored expect p =
    if length p.payload == 0
    then true
    else not (expect == 0) && not (is_neg (compare_tcp_seq expect (add32 p.seq (payload_len p))))

unfoldable pub insert : ℕ → Tcp → Queue → Queue
insert expect p q = if is_ignored expect p then q else place (find_slot q p.seq (length q)) p q

-- What a confirmation leaves behind.
pub record Confirmed : Type 0 where
  pub waiting : Queue
  pub taken : ℕ
  pub expect : ℕ
  pub out : List Tcp

-- The packets before `ack` leave the queue from its front; `deliver` says what each one sends.
unfoldable pub confirm : ℕ → ℕ → Queue → Confirmed
confirm ack expect [] = record { waiting = []; taken = 0; expect = expect; out = [] }
confirm ack expect (p ∷ q) =
    let (delivered, expect') = deliver expect p in
    let rest = confirm ack expect' q in
    if is_neg (compare_tcp_seq p.seq ack)
    then record rest { taken = suc rest.taken; out = sent delivered ++ rest.out }
    else record { waiting = p ∷ q; taken = 0; expect = expect; out = [] }
