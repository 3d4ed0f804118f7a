-- ===== src/Tcp/Tests.antt =====
-- Runs of the window at concrete packets, those of handler/tcp_assembly_test.go among them.
use httpdump.Base.{
  get_or, zero, suc, ◌^◌, ℕ, ◌-◌, ◌++◌, ◌≤◌, ◌<◌, ◌≡◌, ◌↔◌, ◌⊎◌, inl, refl, true, false, none, some,
  List, [], ◌∷◌, ok, Returns, is_neg, is_zero, arith, get_elem?,
}
use httpdump.Tcp.Packet.{Tcp}
use httpdump.Base.{Bytes}
use httpdump.Tcp.Seq.{compare_tcp_seq, max_tcp_seq, add32}
use httpdump.Tcp.Seq.Order.{compare_tcp_seq_zero, compare_tcp_seq_later}
use httpdump.Tcp.Window
use httpdump.Tcp.Window.{
  Window, new_receive_window, insert, confirm, find_slot, settle, put_at, expand, shift, copy,
  copy_to, packet_at, confirm_from, deliver,
}
use httpdump.Tcp.Window.Holds.{Holds}
use httpdump.Tcp.Window.Run.{
  Event, arrives, acks, run, run_queue, run_refines, confirm_sends_stream, window_order,
}
use httpdump.Tcp.Queue.{Queue}
use httpdump.Tcp.Queue.Order.{IsOrdered}
use httpdump.Tcp.Queue.Stream.{bytes, slice, Before, Reaches}

abbrev packet : ℕ → Bytes → Tcp
packet seq payload = record {
  seq = seq;
  ack_no = 0;
  syn = false;
  ack = true;
  fin = false;
  rst = false;
  payload = payload;
}

abbrev p10000 : Tcp
p10000 = packet 10000 (7 ∷ 8 ∷ 9 ∷ 0 ∷ [])

abbrev p10005 : Tcp
p10005 = packet 10005 (1 ∷ 2 ∷ [])

abbrev p10009 : Tcp
p10009 = packet 10009 (7 ∷ 8 ∷ 9 ∷ 0 ∷ [])

abbrev p10010 : Tcp
p10010 = packet 10010 (2 ∷ 3 ∷ 4 ∷ 5 ∷ [])

abbrev p10030 : Tcp
p10030 = packet 10030 (7 ∷ 8 ∷ 9 ∷ 0 ∷ [])

abbrev script : List Event
script =
    arrives p10005
    ∷ arrives p10000
    ∷ arrives p10010
    ∷ arrives p10005
    ∷ arrives p10009
    ∷ arrives p10030
    ∷ acks 10020
    ∷ []

-- `TestReceiveWindow`: a ring of four slots grows, and 10030 stays behind.
receive_window_test :
    (run (new_receive_window 4) script) ≡ ok (p10000 ∷ p10005 ∷ p10009 ∷ packet 10010 (5 ∷ []) ∷ [])
unfolding run new_receive_window insert confirm find_slot settle put_at expand shift copy copy_to
    packet_at confirm_from deliver compare_tcp_seq
receive_window_test = refl

-- A stream whose byte at position `i` is `i`.
abbrev counting : ℕ → ℕ
counting i = i

abbrev p5 : Tcp
p5 = packet 5 (5 ∷ 6 ∷ 7 ∷ [])

abbrev p7 : Tcp
p7 = packet 7 (7 ∷ 8 ∷ [])

-- Two overlapping packets, round the end of the ring.
abbrev wrapped : Window
wrapped = record {
  size = 2;
  start = 2;
  buffer = some p7 ∷ none ∷ some p5 ∷ [];
  last_ack = 0;
  expect_begin = 5;
}

abbrev waiting : Queue
waiting = p5 ∷ p7 ∷ []

wrapped-slots :
    (i : ℕ) → i < 2 → get_or wrapped.buffer (Window.index wrapped i) none ≡ get_elem? waiting i
wrapped-slots zero h = refl
wrapped-slots (suc zero) h = refl
wrapped-slots (suc (suc i)) h = absurd (omega arith)

wrapped-Holds : Holds wrapped waiting
wrapped-Holds = record {
  start_in = omega arith;
  size_eq = refl;
  size_in = omega arith;
  slots = wrapped-slots;
}

waiting-IsOrdered : IsOrdered waiting
unfolding compare_tcp_seq
waiting-IsOrdered = record { ascending = waiting_up; in_range = waiting_range }
  where
    waiting_up :
        (i : ℕ) (a b : Tcp)
        → get_elem? waiting i ≡ some a
        → get_elem? waiting (suc i) ≡ some b
        → is_neg (compare_tcp_seq a.seq b.seq) ≡ true
    waiting_up zero a b g k = ground arith
    waiting_up (suc i) a b g k = ground arith

    waiting_range : (i : ℕ) (a : Tcp) → get_elem? waiting i ≡ some a → a.seq < 2 ^ 32
    waiting_range zero a g = ground arith
    waiting_range (suc zero) a g = ground arith
    waiting_range (suc (suc i)) a g = ground arith

run_refines_example : run wrapped script ≡ ok (run_queue 5 waiting script)
run_refines_example = run_refines script wrapped-Holds

confirm_sends_stream_example : Returns (confirm wrapped 9) (λ r.
    (bytes r.1 ≡ slice counting 5 (r.0.expect_begin - 5))
    × (5 ≤ r.0.expect_begin)
    × (taken : Queue) × (q : Queue) × (waiting ≡ taken ++ q)
    × Holds r.0 q
    × Before 9 r.0.expect_begin taken
    × Reaches 9 q)
confirm_sends_stream_example =
    confirm_sends_stream counting 9 wrapped-Holds
      (
        record { carries = refl; starts = omega arith; ends = omega arith },
        (record { carries = refl; starts = omega arith; ends = omega arith }, tt),
      )
      (omega arith) (omega arith) (omega arith) (omega arith)

window_order_example :
    Returns (insert wrapped p10005) (λ w'. (q' : Queue) × Holds w' q' × IsOrdered q')
    × Returns (confirm wrapped 8) (λ r. (q' : Queue) × Holds r.0 q' × IsOrdered q')
window_order_example = window_order p10005 8 wrapped-Holds waiting-IsOrdered (omega arith)

compare_tcp_seq_zero_example : (is_zero (compare_tcp_seq 0 0xFFFFFFFF) ≡ true) ↔ (
    (◌≡◌ {A = ℕ} 0 0xFFFFFFFF)
    ⊎ ((◌≡◌ {A = ℕ} 0 0) × (◌≡◌ {A = ℕ} 0xFFFFFFFF max_tcp_seq))
    ⊎ ((◌≡◌ {A = ℕ} 0 max_tcp_seq) × (◌≡◌ {A = ℕ} 0xFFFFFFFF 0)))
compare_tcp_seq_zero_example = compare_tcp_seq_zero 0 0xFFFFFFFF (omega arith) (omega arith)

compare_tcp_seq_later_example : is_neg (compare_tcp_seq 0xFFFFFFF0 (add32 0xFFFFFFF0 40)) ≡ true
compare_tcp_seq_later_example =
    compare_tcp_seq_later 0xFFFFFFF0 40 (omega arith) (omega arith) (omega arith)
      (inl (omega arith))
