-- ===== src/Tcp/Window/Holds.antt =====
-- The invariant of a receive window, and the queue that it holds.
use httpdump.Base.{
  ℕ, ◌≤◌, ◌<◌, ◌≡◌, none, some, [], length, get_elem?, get_or, length-replicate, ok, arith,
}
use httpdump.Tcp.Packet.{Tcp}
use httpdump.Tcp.Window.{Window, new_receive_window, index, packet_at}
use httpdump.Tcp.Queue.{Queue}

-- The ring has slots, begins at one, and its first `size` slots hold the packets of `q` in order.
pub record Holds (w : Window) (q : Queue) : Type 0 where
  pub start_in : w.start < length w.buffer
  pub size_eq : w.size ≡ length q
  pub size_in : w.size ≤ length w.buffer
  pub slots : (i : ℕ) → i < length q → get_or w.buffer (index w i) none ≡ get_elem? q i

pub new_receive_window-Holds : (n : ℕ) → 0 < n → Holds (new_receive_window n) []
unfolding new_receive_window
new_receive_window-Holds n h = record {
  start_in = omega (arith, length-replicate {0} {A = _} n none);
  size_eq = omega arith;
  size_in = omega arith;
  slots = λ i lt. absurd (omega arith);
}

pub packet_at_lem :
    {w : Window} {q : Queue} {p : Tcp} (i : ℕ)
    → Holds w q
    → get_elem? q i ≡ some p
    → i < length q
    → packet_at w i ≡ ok p
unfolding packet_at
packet_at_lem {w} {q} {p} i h e lt = ground (arith, h.slots i lt)
