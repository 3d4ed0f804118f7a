-- ===== src/Tcp/Queue/Order.antt =====
-- The order of the packets in a queue.
use httpdump.Base.{
  ℕ, zero, suc, ◌+◌, ◌-◌, ◌^◌, ◌≤◌, ◌<◌, ◌≡◌, ◌∙◌, refl, ap, inl, inr, true, false, some, [], ◌∷◌,
  if◌then◌else◌, length, drop, get_elem?-drop, get_elem?, insert_at, get_elem?-lt, lt_of_get_elem?,
  get_elem?-insert_at, Bool-cases, is_neg, is_zero, is_pos, arith, sym, ℤ,
}
use native.Mathlib.Decide.{ℕ_discrete, dec_lt}
use httpdump.Tcp.Packet.{Tcp}
use httpdump.Tcp.Seq.{compare_tcp_seq}
use httpdump.Tcp.Seq.Order.{compare_tcp_seq_flip}
use httpdump.Tcp.Window.{Slot, duplicated, at, deliver}
use httpdump.Tcp.Queue.{Queue, find_slot, is_ignored, place, insert, confirm}

-- Each packet is earlier than the next one, and its number is a uint32.
pub record IsOrdered (q : Queue) : Type 0 where
  pub ascending :
      (i : ℕ) (a b : Tcp)
      → get_elem? q i ≡ some a
      → get_elem? q (suc i) ≡ some b
      → is_neg (compare_tcp_seq a.seq b.seq) ≡ true
  pub in_range : (i : ℕ) (a : Tcp) → get_elem? q i ≡ some a → a.seq < 2 ^ 32

-- What the scan knows of the packets on either side of the place that it found.
record Fits (q : Queue) (seq n i : ℕ) : Type 0 where
  bound : i ≤ n
  before :
      (j : ℕ) (a : Tcp)
      → suc j ≡ i
      → get_elem? q j ≡ some a
      → is_neg (compare_tcp_seq a.seq seq) ≡ true
  behind : (b : Tcp) → i < n → get_elem? q i ≡ some b → is_pos (compare_tcp_seq b.seq seq) ≡ true

find_slot_lem :
    (q : Queue) (seq n : ℕ) (prev : Tcp)
    → get_elem? q n ≡ some prev
    → find_slot q seq (suc n) ≡ (
        if is_zero (compare_tcp_seq prev.seq seq)
        then duplicated
        else if is_neg (compare_tcp_seq prev.seq seq)
        then at (suc n)
        else find_slot q seq n)
unfolding find_slot
find_slot_lem q seq n prev g = rw (g, find_slot) (ground arith)

pos_of_neither : (z : ℤ) → is_zero z ≡ false → is_neg z ≡ false → is_pos z ≡ true
pos_of_neither z h k = ground arith

-- Behind a packet that is earlier, the scan stops.
Fits-here :
    (q : Queue) (seq n : ℕ) (prev : Tcp)
    → get_elem? q n ≡ some prev
    → is_neg (compare_tcp_seq prev.seq seq) ≡ true
    → Fits q seq (suc n) (suc n)
Fits-here q seq n prev g h = record {
  bound = omega arith;
  before = λ j a e k.
      let e' : j ≡ n = omega arith in
      let same : prev ≡ a = cc (ap (get_elem? q) e') in rw (← same) h;
  behind = λ b lt k. absurd (omega arith);
}

-- Past a packet that is later, it goes on.
Fits-older :
    (q : Queue) (seq n i : ℕ) (prev : Tcp)
    → get_elem? q n ≡ some prev
    → is_pos (compare_tcp_seq prev.seq seq) ≡ true
    → Fits q seq n i
    → Fits q seq (suc n) i
Fits-older q seq n i prev g h f = record {
  bound = omega (arith, f.bound);
  before = f.before;
  behind = λ b lt k. elim (ℕ_discrete i n) [
    | yes e ↦ let same : prev ≡ b = cc (ap (get_elem? q) e) in rw (← same) h
    | no ne ↦ f.behind b (omega (arith, f.bound)) k
  ];
}

find_slot-Fits :
    (q : Queue) (seq n i : ℕ) → n ≤ length q → find_slot q seq n ≡ at i → Fits q seq n i
unfolding find_slot
find_slot-Fits q seq zero i hn e = record {
  bound = ground arith;
  before = λ j a s g. absurd (ground arith);
  behind = λ b lt g. absurd (omega arith);
}
find_slot-Fits q seq (suc n) i hn e =
    let (prev, g) = get_elem?-lt q n hn in
    let c = compare_tcp_seq prev.seq seq in
    elim (Bool-cases (is_zero c)) [
      | inl z ↦ cc (find_slot_lem q seq n prev g)
      | inr nz ↦ elim (Bool-cases (is_neg c)) [
        | inl lt ↦
            let here : suc n ≡ i = ground (arith, find_slot_lem q seq n prev g) in
            rw (← here) (Fits-here q seq n prev g lt)
        | inr ge ↦
            let older : find_slot q seq n ≡ at i = ground (arith, find_slot_lem q seq n prev g) in
            Fits-older q seq n i prev g (pos_of_neither c nz ge)
              (find_slot-Fits q seq n i (omega arith) older)
      ]
    ]

-- Neighbours of the list that `insert_at` gives.
insert_at-ascending :
    (q : Queue) (i j : ℕ) (p a b : Tcp)
    → p.seq < 2 ^ 32
    → Fits q p.seq (length q) i
    → IsOrdered q
    → get_elem? (insert_at i p q) j ≡ some a
    → get_elem? (insert_at i p q) (suc j) ≡ some b
    → is_neg (compare_tcp_seq a.seq b.seq) ≡ true
insert_at-ascending q i j p a b hp f o ga gb =
    let ea = get_elem?-insert_at i p q j f.bound in
    let eb = get_elem?-insert_at i p q (suc j) f.bound in
    elim (dec_lt (suc j) i) [
      | yes lt ↦ o.ascending j a b (ground arith) (ground arith)
      | no ge ↦ elim (ℕ_discrete (suc j) i) [
        | yes e ↦ let same : p ≡ b = ground arith in rw (← same) (f.before j a e (ground arith))
        | no ne ↦ elim (ℕ_discrete j i) [
          | yes e ↦
              let same : p ≡ a = ground arith in
              let next : get_elem? q i ≡ some b = ground arith in
              rw (← same) (
                compare_tcp_seq_flip b.seq p.seq (o.in_range i b next) hp
                  (f.behind b (lt_of_get_elem? q i b next) next))
          | no ne' ↦
              let back : suc (j - 1) ≡ j = omega arith in
              o.ascending (j - 1) a b (ground arith) (rw back (ground arith))
        ]
      ]
    ]

insert_at-IsOrdered :
    (q : Queue) (i : ℕ) (p : Tcp)
    → p.seq < 2 ^ 32
    → Fits q p.seq (length q) i
    → IsOrdered q
    → IsOrdered (insert_at i p q)
insert_at-IsOrdered q i p hp f o = record {
  ascending = λ j a b ga gb. insert_at-ascending q i j p a b hp f o ga gb;
  in_range = λ j a g.
      ground (arith, get_elem?-insert_at i p q j f.bound, o.in_range j a, o.in_range (j - 1) a);
}

-- `insert` keeps the order.
pub insert-IsOrdered :
    (expect : ℕ) (p : Tcp) (q : Queue)
    → p.seq < 2 ^ 32
    → IsOrdered q
    → IsOrdered (insert expect p q)
unfolding insert
insert-IsOrdered expect p q hp o = elim (Bool-cases (is_ignored expect p)) [
  | inl e ↦ rw e o
  | inr e ↦ rw e (placed (find_slot q p.seq (length q)) refl)
]
  where
    placed : (s : Slot) → find_slot q p.seq (length q) ≡ s → IsOrdered (place s p q)
    placed duplicated e = unfold place in o
    placed (at i) e =
        unfold place in
        insert_at-IsOrdered q i p hp (find_slot-Fits q p.seq (length q) i (omega arith) e) o

waiting-drop : (ack e : ℕ) (q : Queue) → let c = confirm ack e q in c.waiting ≡ drop c.taken q
unfolding confirm
waiting-drop ack e [] = refl
waiting-drop ack e (p ∷ q) = ground (arith, waiting-drop ack (deliver e p).1 q)

drop-IsOrdered : (k : ℕ) (q : Queue) → IsOrdered q → IsOrdered (drop k q)
drop-IsOrdered k q o = record {
  ascending = λ i a b ga gb.
      o.ascending (k + i) a b (ground (arith, get_elem?-drop k q i))
        (ap (get_elem? q) (omega arith) ∙ sym (get_elem?-drop k q (suc i)) ∙ gb);
  in_range = λ i a g. o.in_range (k + i) a (ground (arith, get_elem?-drop k q i));
}

-- `confirm` keeps the order.
pub confirm-IsOrdered : (ack e : ℕ) (q : Queue) → IsOrdered q → IsOrdered (confirm ack e q).waiting
confirm-IsOrdered ack e q o = rw (waiting-drop ack e q) (drop-IsOrdered _ q o)
