-- ===== src/Tcp/Window/Run.antt =====
-- A window over its whole life: the packets that arrive and the acknowledgements, in any order.
use httpdump.Base.{ℕ, ◌-◌, ◌^◌, ◌≤◌, ◌<◌, ◌≡◌, refl, List, [], ◌∷◌, ◌++◌, ok, Go, ◌>>=◌, Returns}
use httpdump.Tcp.Packet.{Tcp}
use httpdump.Tcp.Queue
use httpdump.Tcp.Queue.{Queue}
use httpdump.Tcp.Queue.Order.{IsOrdered, insert-IsOrdered, confirm-IsOrdered}
use httpdump.Tcp.Queue.Stream.{
  AllParts, NoGap, Before, Reaches, bytes, slice, confirm_stream, confirm_takes,
}
use httpdump.Tcp.Window.{Window, new_receive_window, insert, confirm}
use httpdump.Tcp.Window.Holds.{Holds, new_receive_window-Holds}
use httpdump.Tcp.Window.Insert.{insert_refines}
use httpdump.Tcp.Window.Confirm.{confirm_refines}

-- `AppendPacket` and `ConfirmPacket`
pub data Event : Type 0 where
  arrives : Tcp → Event
  acks : ℕ → Event

-- What a window sends into its channel.
unfoldable pub run : Window → List Event → Go (List Tcp)
run w [] = ok []
run w (arrives p ∷ es) = insert w p >>= λ w'. run w' es
run w (acks n ∷ es) = confirm w n >>= λ r. run r.0 es >>= λ out. ok (r.1 ++ out)

-- What a queue with the expected byte `e` sends.
unfoldable pub run_queue : ℕ → Queue → List Event → List Tcp
run_queue e q [] = []
run_queue e q (arrives p ∷ es) = run_queue e (Queue.insert e p q) es
run_queue e q (acks n ∷ es) =
    let c = Queue.confirm n e q in c.out ++ run_queue c.expect c.waiting es

-- No run of packets and acknowledgements makes a window panic or tells it from the queue it holds.
pub run_refines :
    (es : List Event) {w : Window} {q : Queue}
    → Holds w q
    → run w es ≡ ok (run_queue w.expect_begin q es)
unfolding run run_queue
run_refines [] h = refl
run_refines (arrives p ∷ es) {w} {q} h =
    let (w', e, (h', kept, acked)) = insert_refines p h in rw (e, run_refines es h', kept)
run_refines (acks n ∷ es) {w} {q} h =
    let (r, e, (h', expect, out)) = confirm_refines n h in rw (e, run_refines es h', expect, out)

-- A new window of any positive size sends, on any run, what the empty queue sends.
pub run-new_receive_window :
    (n : ℕ) (es : List Event) → 0 < n → run (new_receive_window n) es ≡ ok (run_queue 0 [] es)
unfolding new_receive_window
run-new_receive_window n es h = run_refines es (new_receive_window-Holds n h)

-- An acknowledgement takes the packets before it out of the window, up to the first that is not,
-- and the window sends exactly the bytes of the stream from the byte that it expected to the byte
-- that it expects then, which comes behind all that was taken out, with no panic. This holds where
-- the window holds parts of one stream without a gap before the acknowledgement, the first
-- confirmation was made (`expectBegin` is above 0), and all numbers are below 2^31, so that none
-- wraps.
pub confirm_sends_stream :
    {w : Window} {q : Queue} (stream : ℕ → ℕ) (ack : ℕ)
    → Holds w q
    → AllParts stream q
    → NoGap ack w.expect_begin q
    → ack < 2 ^ 31
    → 0 < w.expect_begin
    → w.expect_begin < 2 ^ 31
    → Returns (confirm w ack) (λ r.
      (bytes r.1 ≡ slice stream w.expect_begin (r.0.expect_begin - w.expect_begin))
      × (w.expect_begin ≤ r.0.expect_begin)
      × (taken : Queue) × (waiting : Queue) × (q ≡ taken ++ waiting)
      × Holds r.0 waiting
      × Before ack r.0.expect_begin taken
      × Reaches ack waiting)
confirm_sends_stream {w} {q} stream ack h parts gap ha he he' =
    let (r, e, (h', expect, out)) = confirm_refines ack h in
    let (same, grows) = confirm_stream stream ack w.expect_begin q parts gap ha he he' in
    let (taken, whole, before, reaches) =
      confirm_takes stream ack w.expect_begin q parts gap ha he he' in
    (r, e, (rw (out, expect) same, rw expect grows, taken, _, whole, h', rw expect before, reaches))

-- `insert` and `confirm` of a window leave its packets in ascending order of their numbers.
pub window_order :
    {w : Window} {q : Queue} (p : Tcp) (ack : ℕ)
    → Holds w q
    → IsOrdered q
    → p.seq < 2 ^ 32
    → Returns (insert w p) (λ w'. (q' : Queue) × Holds w' q' × IsOrdered q')
      × Returns (confirm w ack) (λ r. (q' : Queue) × Holds r.0 q' × IsOrdered q')
window_order {w} {q} p ack h o hp =
    let (w', e, (h', _, _)) = insert_refines p h in
    let (r, e', (h'', _, _)) = confirm_refines ack h in
    (
      (w', e, (Queue.insert w.expect_begin p q, h', insert-IsOrdered w.expect_begin p q hp o)),
      (r, e', (_, h'', confirm-IsOrdered ack w.expect_begin q o)),
    )
