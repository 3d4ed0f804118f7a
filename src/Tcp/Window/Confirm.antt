-- ===== src/Tcp/Window/Confirm.antt =====
-- `confirm` of a window and of the queue that it holds.
use httpdump.Base.{
  ℕ, suc, ◌+◌, ◌%◌, ◌≤◌, ◌<◌, ◌≡◌, ◌≢◌, sym, ne→==, get_or-set, ◌∙◌, refl, ap, inl, inr, false,
  none, some, [], ◌∷◌, ◌++◌, ◌==◌, length, is_neg, get_elem?, get_or, set, length-set, Bool-cases,
  append-nil, append_assoc, Returns, arith,
}
use native.Mathlib.Nat.{mod-add-mod, mod-lt}
use httpdump.Tcp.Packet.{Tcp}
use httpdump.Tcp.Queue.{Queue, Confirmed}
use httpdump.Tcp.Queue
use httpdump.Tcp.Seq.{compare_tcp_seq}
use httpdump.Tcp.Window.{Window, Confirming, Buffer, sent, deliver, index, confirm_from, confirm}
use httpdump.Tcp.Window.Holds.{Holds}
use httpdump.Tcp.Window.Ring.{wrap}

-- The slots from `k` on hold the packets of `q`; those before have been set to nil.
record Left (w : Window) (k : ℕ) (q : Queue) (buf : Buffer) : Type 0 where
  same : length buf ≡ length w.buffer
  room : k + length q ≤ length w.buffer
  rest : (i : ℕ) → i < length q → get_or buf (index w (k + i)) none ≡ get_elem? q i

slot-cleared :
    (w : Window) (k j : ℕ) (buf : Buffer)
    → w.start < length w.buffer
    → length buf ≡ length w.buffer
    → k < length w.buffer
    → j < length w.buffer
    → k ≢ j
    → get_or (set buf (index w k) none) (index w j) none ≡ get_or buf (index w j) none
slot-cleared w k j buf hs same hk hj ne = ground (
  arith,
  same,
  wrap k w.start (length w.buffer),
  wrap j w.start (length w.buffer),
  get_or-set buf (index w k) (index w j) none none,
)

Left-next :
    {w : Window} {k : ℕ} {p : Tcp} {q : Queue} {buf : Buffer}
    → w.start < length w.buffer
    → Left w k (p ∷ q) buf
    → Left w (k + 1) q (set buf (index w k) none)
Left-next {w} {k} {p} {q} {buf} hs l = record {
  same = length-set buf (index w k) none ∙ l.same;
  room = omega (arith, l.room);
  rest = λ i lt.
      let e : k + 1 + i ≡ k + suc i = omega arith in
      rw e (
        slot-cleared w k (k + suc i) buf hs l.same (omega (arith, l.room)) (omega (arith, l.room))
          (omega arith)
        ∙ l.rest (suc i) (omega arith));
}

-- The loop from `k` on, where `q` waits there: what it leaves, and the variables at its end.
confirm_from_refines :
    (w : Window) (ack : ℕ) (q : Queue) (s : Confirming)
    → w.start < length w.buffer
    → Left w s.idx q s.buf
    → let c = Queue.confirm ack s.expect q in
      Returns (confirm_from w ack (length q) s) (λ t.
        (t.idx ≡ s.idx + c.taken)
        × (t.expect ≡ c.expect)
        × (t.out ≡ s.out ++ c.out)
        × Left w t.idx c.waiting t.buf)
unfolding confirm_from Queue.confirm
confirm_from_refines w ack [] s hs l = (s, refl, (omega arith, refl, sym (append-nil s.out), l))
confirm_from_refines w ack (p ∷ q) s hs l =
    let read : get_or s.buf (index w s.idx) none ≡ some p =
      ap (λ k. get_or s.buf (index w k) none) (omega arith) ∙ l.rest 0 (omega arith) in
    let s' : Confirming = record {
      idx = s.idx + 1;
      buf = set s.buf (index w s.idx) none;
      expect = (deliver s.expect p).1;
      out = s.out ++ sent (deliver s.expect p).0;
    } in
    elim (Bool-cases (is_neg (compare_tcp_seq p.seq ack))) [
      | inl earlier ↦
          let (t, e, (i, x, o, left)) = confirm_from_refines w ack q s' hs (Left-next hs l) in
          rw (read, earlier) (t, e, (omega arith, x, o ∙ append_assoc s.out _ _, left))
      | inr later ↦ rw (read, later) (s, refl, (omega arith, refl, sym (append-nil s.out), l))
    ]

taken-add-waiting :
    (ack e : ℕ) (q : Queue) → let c = Queue.confirm ack e q in c.taken + length c.waiting ≡ length q
unfolding Queue.confirm
taken-add-waiting ack e [] = omega arith
taken-add-waiting ack e (p ∷ q) = ground (arith, taken-add-waiting ack (deliver e p).1 q)

-- The slots that the loop leaves, seen from the new start.
rest-moved :
    (w : Window) (k i : ℕ) (buf : Buffer) (q : Queue)
    → Left w k q buf
    → i < length q
    → get_or buf ((i + (w.start + k) % length buf) % length buf) none ≡ get_elem? q i
rest-moved w k i buf q l lt =
    let n = length buf in
    let turn : (i + (w.start + k) % n) % n ≡ (k + i + w.start) % n =
      ap (λ m. m % n) (omega arith)
      ∙ mod-add-mod (w.start + k) n i
      ∙ ap (λ m. m % n) (omega arith) in
    ap (λ m. get_or buf m none) (turn ∙ ap (λ m. (k + i + w.start) % m) l.same) ∙ l.rest i lt

-- `confirm` does not panic on a window that holds a queue. What it sends is what `Queue.confirm`
-- sends; the window that it leaves holds what that leaves, and expects the same byte.
pub confirm_refines :
    {w : Window} {q : Queue} (ack : ℕ)
    → Holds w q
    → let c = Queue.confirm ack w.expect_begin q in
      Returns
        (confirm w ack)
        (λ r. Holds r.0 c.waiting × (r.0.expect_begin ≡ c.expect) × (r.1 ≡ c.out))
unfolding confirm
confirm_refines {w} {q} ack h =
    let s : Confirming = record { idx = 0; buf = w.buffer; expect = w.expect_begin; out = [] } in
    let start : Left w 0 q w.buffer = record {
      same = refl;
      room = omega (arith, h.size_eq, h.size_in);
      rest = λ i lt. ap (λ k. get_or w.buffer (index w k) none) (omega arith) ∙ h.slots i lt;
    } in
    let (t, e, (i, x, o, left)) = confirm_from_refines w ack q s h.start_in start in
    let some_slot : (length t.buf == 0) ≡ false =
      ne→== _ _ (omega (arith, left.same, h.start_in)) in
    let count = taken-add-waiting ack w.expect_begin q in
    rw (ap (λ n. confirm_from w ack n s) h.size_eq ∙ e, some_slot)
      (
        _,
        refl,
        (
          record {
            start_in = mod-lt _ (omega (arith, left.same, h.start_in));
            size_eq = omega (arith, h.size_eq, count, i);
            size_in = omega (arith, h.size_eq, h.size_in, left.same);
            slots = λ j lt. rest-moved w t.idx j t.buf _ left lt;
          },
          x,
          o,
        ),
      )
