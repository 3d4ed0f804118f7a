-- ===== src/Tcp/Window/Insert.antt =====
-- `insert` of a window and of the queue that it holds.
use httpdump.Base.{
  ℕ, zero, suc, ◌+◌, ◌-◌, ◌*◌, ◌≤◌, ◌<◌, ◌≡◌, ◌∙◌, refl, ap, inl, inr, Option, none, some, ltb,
  ◌==◌, if◌then◌else◌, length, get_elem?, get_or, set, take, drop, replicate, insert_at,
  get_elem?-lt, length-set, length-take, length-drop, length-replicate, length-insert_at,
  get_elem?-insert_at, Bool-cases, get_or-take, get_or-drop, ok, ◌>>=◌, Returns, arith,
}
use native.Mathlib.Nat.{mod-eq_of_lt}
use httpdump.Tcp.Packet.{Tcp}
use httpdump.Tcp.Queue.{Queue, is_ignored, place}
use httpdump.Tcp.Queue
use httpdump.Tcp.Window
use httpdump.Tcp.Window.{
  settle, Window, Slot, duplicated, at, index, packet_at, shift, expand, put_at, insert, copy_to,
}
use httpdump.Tcp.Window.Holds.{Holds, packet_at_lem}
use httpdump.Tcp.Window.Ring.{
  slot, slot-set, slot-shift, length-shift, length-copy_to, get_or-copy_to, wrap,
}

-- The scan reads the packets of the queue, and never a nil pointer.
find_slot_refines :
    (w : Window) (q : Queue) (seq n : ℕ)
    → Holds w q
    → n ≤ length q
    → Window.find_slot w seq n ≡ ok (Queue.find_slot q seq n)
unfolding Window.find_slot Queue.find_slot
find_slot_refines w q seq zero h hn = refl
find_slot_refines w q seq (suc n) h hn =
    let (p, e) = get_elem?-lt q n (omega arith) in
    ground (arith, e, packet_at_lem n h e, find_slot_refines w q seq n h)

find_slot-bound : (q : Queue) (seq n i : ℕ) → Queue.find_slot q seq n ≡ at i → i ≤ n
unfolding Queue.find_slot
find_slot-bound q seq zero i h = ground arith
find_slot-bound q seq (suc n) i h = ground (arith, find_slot-bound q seq n i)

-- The slots of the buffer that `expand` fills.
get_or-expand :
    (w : Window) (i : ℕ)
    → w.start < length w.buffer
    → w.size ≤ length w.buffer
    → i < w.size
    → get_or (expand w).buffer i none ≡ get_or w.buffer (index w i) none
unfolding expand
get_or-expand w i hs hz hi =
    let n = length w.buffer in
    let fresh : Window.Buffer = replicate (n * 2) none in
    let tail : Window.Buffer = drop w.start w.buffer in
    ground (
      arith,
      wrap i w.start n,
      length-replicate {A = Option Tcp} (n * 2) none,
      get_or-copy_to 0 fresh (take w.size tail) i,
      length-take w.size tail,
      length-drop w.start w.buffer,
      get_or-take w.size tail i none,
      get_or-drop w.start w.buffer i none,
      get_or-copy_to 0 fresh tail i,
      length-copy_to 0 fresh tail,
      get_or-copy_to (n - w.start) (copy_to 0 fresh tail) (take (w.start + w.size - n) w.buffer) i,
      length-take (w.start + w.size - n) w.buffer,
      get_or-take (w.start + w.size - n) w.buffer (i - (n - w.start)) none,
    )

length-expand :
    (w : Window) → w.start < length w.buffer → length (expand w).buffer ≡ length w.buffer * 2
unfolding expand
length-expand w hs =
    let n = length w.buffer in
    let fresh : Window.Buffer = replicate (n * 2) none in
    ground (
      arith,
      length-replicate {A = Option Tcp} (n * 2) none,
      length-copy_to 0 fresh (take w.size (drop w.start w.buffer)),
      length-copy_to 0 fresh (drop w.start w.buffer),
      length-copy_to (n - w.start) (copy_to 0 fresh (drop w.start w.buffer))
          (take (w.start + w.size - n) w.buffer),
    )

expand_fields :
    (w : Window)
    → ((expand w).start ≡ 0)
      × ((expand w).size ≡ w.size)
      × ((expand w).expect_begin ≡ w.expect_begin)
      × ((expand w).last_ack ≡ w.last_ack)
unfolding expand
expand_fields w = (refl, refl, refl, refl)

expand-Holds : {w : Window} {q : Queue} → Holds w q → Holds (expand w) q
expand-Holds {w} {q} h = record {
  start_in = omega (arith, length-expand w h.start_in, expand_fields w);
  size_eq = omega (arith, expand_fields w);
  size_in = omega (arith, length-expand w h.start_in, expand_fields w);
  slots = λ i lt. ground (
    arith,
    expand_fields w,
    length-expand w h.start_in,
    get_or-expand w i,
    h.slots i,
    mod-eq_of_lt {n = i + 0} {m = length w.buffer * 2} (omega arith),
  );
}

-- The buffer after room has been made at `idx`.
room : Window → ℕ → Window.Buffer
room w idx = if idx == w.size then w.buffer else shift w.start idx (w.size - idx) w.buffer

slot-room :
    (w : Window) (idx j : ℕ)
    → w.start < length w.buffer
    → idx ≤ w.size
    → w.size < length w.buffer
    → j < w.size + 1
    → (length (room w idx) ≡ length w.buffer)
      × (slot w.start (room w idx) j
          ≡ (if ltb idx j then slot w.start w.buffer (j - 1) else slot w.start w.buffer j))
unfolding room
slot-room w idx j hs hi hz hj = ground (
  arith,
  length-shift w.start idx (w.size - idx) w.buffer,
  slot-shift w.start idx (w.size - idx) w.buffer j,
)

length-room : (w : Window) (idx : ℕ) → length (room w idx) ≡ length w.buffer
unfolding room
length-room w idx = ground (arith, length-shift w.start idx (w.size - idx) w.buffer)

slot-filled :
    {w : Window} {q : Queue} (idx j : ℕ) (p : Tcp)
    → Holds w q
    → idx ≤ length q
    → w.size < length w.buffer
    → j < length (insert_at idx p q)
    → slot w.start (set (room w idx) (index w idx) (some p)) j ≡ get_elem? (insert_at idx p q) j
slot-filled {w} {q} idx j p h hi hz hj = ground (
  arith,
  length-room w idx,
  length-insert_at idx p q,
  slot-room w idx j,
  slot-set w.start (room w idx) idx j (some p),
  get_elem?-insert_at idx p q j hi,
  h.slots j,
  h.slots (j - 1),
)

put_at-Holds :
    {w : Window} {q : Queue} (idx : ℕ) (p : Tcp)
    → Holds w q
    → idx ≤ length q
    → w.size < length w.buffer
    → Returns (put_at w idx p) (λ w'.
      Holds w' (insert_at idx p q)
      × (w'.expect_begin ≡ w.expect_begin)
      × (w'.last_ack ≡ w.last_ack))
unfolding put_at room
put_at-Holds {w} {q} idx p h hi hz =
    let same : length (set (room w idx) (index w idx) (some p)) ≡ length w.buffer =
      length-set _ _ _ ∙ length-room w idx in
    (
      record w { size = w.size + 1; buffer = set (room w idx) (index w idx) (some p) },
      ground arith,
      (
        record {
          start_in = omega (arith, same);
          size_eq = omega (arith, length-insert_at idx p q);
          size_in = omega (arith, same);
          slots = λ j lt. slot-filled idx j p h hi hz lt;
        },
        refl,
        refl,
      ),
    )

settle_refines :
    {w : Window} {q : Queue} (p : Tcp) (s : Slot)
    → Holds w q
    → ((i : ℕ) → s ≡ at i → i ≤ length q)
    → Returns (settle w p s) (λ w'.
      Holds w' (place s p q) × (w'.expect_begin ≡ w.expect_begin) × (w'.last_ack ≡ w.last_ack))
unfolding settle place
settle_refines {w} p duplicated h b = (w, refl, (h, refl, refl))
settle_refines {w} p (at idx) h b = elim (Bool-cases (w.size == length w.buffer)) [
  | inl full ↦
      let (w', e, (held, kept, acked)) =
        put_at-Holds idx p (expand-Holds h) (b idx refl)
          (ground (arith, length-expand w, expand_fields w)) in
      rw full (w', e, (held, ground (arith, expand_fields w), ground (arith, expand_fields w)))
  | inr free ↦ rw free (put_at-Holds idx p h (b idx refl) (ground arith))
]

insert_lem :
    (w : Window) (p : Tcp)
    → insert w p ≡ (
        if is_ignored w.expect_begin p
        then ok w
        else Window.find_slot w p.seq w.size >>= settle w p)
unfolding insert is_ignored
insert_lem w p = ground arith

-- `insert` does not panic on a window that holds a queue. It leaves a window that holds the queue
-- of `Queue.insert`, and keeps the expected byte and the last acknowledgement.
pub insert_refines :
    {w : Window} {q : Queue} (p : Tcp)
    → Holds w q
    → Returns (insert w p) (λ w'.
      Holds w' (Queue.insert w.expect_begin p q)
      × (w'.expect_begin ≡ w.expect_begin)
      × (w'.last_ack ≡ w.last_ack))
unfolding Queue.insert
insert_refines {w} {q} p h = elim (Bool-cases (is_ignored w.expect_begin p)) [
  | inl e ↦ rw (insert_lem, e) (w, refl, (h, refl, refl))
  | inr e ↦
      rw
        (
          insert_lem,
          e,
          ap (Window.find_slot w p.seq) h.size_eq
              ∙ find_slot_refines w q p.seq (length q) h (omega arith),
        )
        (settle_refines p _ h (find_slot-bound q p.seq (length q)))
]
