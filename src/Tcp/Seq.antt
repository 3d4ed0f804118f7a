-- ===== src/Tcp/Seq.antt =====
-- `compareTCPSeq` of handler/tcp_assembly.go: the order of sequence numbers near the wrap at 2^32.
pub mod Order
use httpdump.Base.{ℕ, ◌+◌, ◌-◌, ◌%◌, ◌^◌, ◌&&◌, ltb, if◌then◌else◌, ℤ, to_int32}

abbrev pub max_tcp_seq : ℕ
max_tcp_seq = 0xFFFFFFFF

abbrev pub tcp_seq_window : ℕ
tcp_seq_window = 0x0000FFFF

-- uint32 addition and subtraction
abbrev pub add32 : ℕ → ℕ → ℕ
add32 a b = (a + b) % 2 ^ 32

abbrev pub sub32 : ℕ → ℕ → ℕ
sub32 a b = (a + 2 ^ 32 - b) % 2 ^ 32

unfoldable pub compare_tcp_seq : ℕ → ℕ → ℤ
compare_tcp_seq seq1 seq2 =
    if ltb seq1 tcp_seq_window && ltb (max_tcp_seq - tcp_seq_window) seq2
    then to_int32 (sub32 (add32 seq1 max_tcp_seq) seq2)
    else if ltb seq2 tcp_seq_window && ltb (max_tcp_seq - tcp_seq_window) seq1
    then to_int32 (sub32 seq1 (add32 max_tcp_seq seq2))
    else to_int32 (sub32 seq1 seq2)
