-- ===== src/Tcp/Window.antt =====
-- `ReceiveWindow` of handler/tcp_assembly.go: a ring of packets in the order of their sequence
-- numbers. A slot of the buffer is a `*layers.TCP`, so `none` is a nil pointer.
pub mod Holds
mod Ring
pub mod Insert
pub mod Confirm
pub mod Run
use httpdump.Base.{
  ℕ, zero, suc, ◌+◌, ◌-◌, ◌*◌, ◌%◌, ◌^◌, Bool, true, false, not, ◌&&◌, ◌||◌, Option, none, some,
  List, [], ◌∷◌, ◌++◌, ltb, leb, ◌==◌, if◌then◌else◌, length, get_or, set, take, drop, replicate,
  Go, ok, panic, ◌>>=◌, is_neg, is_zero, is_pos,
}
use httpdump.Tcp.Packet.{Tcp}
use httpdump.Tcp.Seq.{compare_tcp_seq, add32, sub32}

abbrev pub Buffer : Type 0
Buffer = List (Option Tcp)

pub record Window : Type 0 where
  pub size : ℕ
  pub start : ℕ
  pub buffer : Buffer
  pub last_ack : ℕ
  pub expect_begin : ℕ

unfoldable pub new_receive_window : ℕ → Window
new_receive_window initial_size = record {
  size = 0;
  start = 0;
  buffer = replicate initial_size none;
  last_ack = 0;
  expect_begin = 0;
}

unfoldable pub destroy : Window → Window
destroy w = record w { size = 0; start = 0; buffer = [] }

-- `(i + w.start) % len(w.buffer)`
abbrev pub index : Window → ℕ → ℕ
index w i = (i + w.start) % length w.buffer

-- `w.buffer[(i + w.start) % len(w.buffer)]`, of which the code reads fields: a nil pointer there
-- panics, and so does the division by the length of an empty buffer.
abbrev deref : Option Tcp → Go Tcp
deref none = panic
deref (some p) = ok p

unfoldable pub packet_at : Window → ℕ → Go Tcp
packet_at w i = deref (get_or w.buffer (index w i) none)

-- uint32(len(packet.Payload))
abbrev pub payload_len : Tcp → ℕ
payload_len p = length p.payload % 2 ^ 32

-- Where the scan of `insert` leaves `idx`, or that it met a packet with the same number.
pub data Slot : Type 0 where
  duplicated : Slot
  at : ℕ → Slot

-- The first loop of `insert`, with `idx` to go: from the newest packet towards the oldest.
unfoldable pub find_slot : Window → ℕ → ℕ → Go Slot
find_slot w seq zero = ok (at 0)
find_slot w seq (suc idx) =
    let older = find_slot w seq idx in
    packet_at w idx >>= λ prev.
    let result = compare_tcp_seq prev.seq seq in
    if is_zero result then ok duplicated else if is_neg result then ok (at (suc idx)) else older

-- The second loop of `insert`, with `n` packets still to move: `i` is `idx + n - 1`.
unfoldable pub shift : ℕ → ℕ → ℕ → Buffer → Buffer
shift start idx zero buf = buf
shift start idx (suc n) buf =
    let i = idx + n in
    let next = (i + start + 1) % length buf in
    let current = (i + start) % length buf in
    shift start idx n (set buf next (get_or buf current none))

-- `copy(dst, src)`
unfoldable pub copy : Buffer → Buffer → Buffer
copy [] src = []
copy (d ∷ dst) [] = d ∷ dst
copy (d ∷ dst) (s ∷ src) = s ∷ copy dst src

-- `copy(dst[off:], src)`
unfoldable pub copy_to : ℕ → Buffer → Buffer → Buffer
unfolding copy
copy_to off dst src = take off dst ++ copy (drop off dst) src

unfoldable pub expand : Window → Window
expand w =
    let n = length w.buffer in
    let buffer = replicate (n * 2) none in
    let end = w.start + w.size in
    let filled =
      if ltb end n
      then copy_to 0 buffer (take w.size (drop w.start w.buffer))
      else copy_to (n - w.start) (copy_to 0 buffer (drop w.start w.buffer))
          (take (end - n) w.buffer) in
    record w { start = 0; buffer = filled }

-- What `insert` does once `idx` is found.
unfoldable pub put_at : Window → ℕ → Tcp → Go Window
put_at w idx packet =
    let buffer = if idx == w.size then w.buffer else shift w.start idx (w.size - idx) w.buffer in
    if length w.buffer == 0
    then panic
    else ok (record w { size = w.size + 1; buffer = set buffer (index w idx) (some packet) })

-- The rest of `insert`.
unfoldable pub settle : Window → Tcp → Slot → Go Window
settle w packet duplicated = ok w
settle w packet (at idx) = put_at (if w.size == length w.buffer then expand w else w) idx packet

unfoldable pub insert : Window → Tcp → Go Window
insert w packet =
    if length packet.payload == 0
    then ok w
    else if not (w.expect_begin == 0)
        && not (is_neg (compare_tcp_seq w.expect_begin (add32 packet.seq (payload_len packet))))
    then ok w
    else find_slot w packet.seq w.size >>= settle w packet

-- One packet that `confirm` takes out: what goes into the channel, and the new `expectBegin`.
unfoldable pub deliver : ℕ → Tcp → Option Tcp × ℕ
deliver expect packet =
    let new_expect = add32 packet.seq (payload_len packet) in
    let duplicated_size = sub32 expect packet.seq in
    if not (expect == 0) && is_pos (compare_tcp_seq expect packet.seq)
    then if leb (payload_len packet) duplicated_size
      then (none, expect)
      else (some (record packet { payload = drop duplicated_size packet.payload }), new_expect)
    else (some packet, new_expect)

-- What is sent into the channel, oldest first.
abbrev pub sent : Option Tcp → List Tcp
sent none = []
sent (some p) = p ∷ []

-- The variables of the loop of `confirm`, and what it has sent.
pub record Confirming : Type 0 where
  pub idx : ℕ
  pub buf : Buffer
  pub expect : ℕ
  pub out : List Tcp

-- The loop of `confirm`, with `n` packets to go.
unfoldable pub confirm_from : Window → ℕ → ℕ → Confirming → Go Confirming
confirm_from w ack zero s = ok s
confirm_from w ack (suc n) s =
    let i = index w s.idx in
    deref (get_or s.buf i none) >>= λ packet.
    let (delivered, expect') = deliver s.expect packet in
    let rest = confirm_from w ack n (record {
      idx = s.idx + 1;
      buf = set s.buf i none;
      expect = expect';
      out = s.out ++ sent delivered;
    }) in
    if is_neg (compare_tcp_seq packet.seq ack) then rest else ok s

unfoldable pub confirm : Window → ℕ → Go (Window × List Tcp)
confirm w ack =
    confirm_from w ack w.size
      (record { idx = 0; buf = w.buffer; expect = w.expect_begin; out = [] })
    >>= λ s.
        if length s.buf == 0
        then panic
        else ok (
          record {
            size = w.size - s.idx;
            start = (w.start + s.idx) % length s.buf;
            buffer = s.buf;
            last_ack =
                (if is_neg (compare_tcp_seq w.last_ack ack) || (w.last_ack == 0)
                  then ack
                  else w.last_ack);
            expect_begin = s.expect;
          },
          s.out,
        )
