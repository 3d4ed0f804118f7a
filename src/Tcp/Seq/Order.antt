-- ===== src/Tcp/Seq/Order.antt =====
-- The laws of `compareTCPSeq`.
use httpdump.Base.{ℕ, ◌^◌, ◌<◌, ◌≡◌, ◌≢◌, ◌↔◌, ◌⊎◌, true, arith, neg, is_neg, is_zero, is_pos}
use httpdump.Tcp.Seq.{compare_tcp_seq, max_tcp_seq, add32, sub32}

-- Exchanging two sequence numbers negates the result, unless they lie exactly 2^31 apart.
pub compare_tcp_seq_antisym :
    (a b : ℕ)
    → a < 2 ^ 32
    → b < 2 ^ 32
    → sub32 a b ≢ 2 ^ 31
    → compare_tcp_seq b a ≡ neg (compare_tcp_seq a b)
unfolding compare_tcp_seq
compare_tcp_seq_antisym a b ha hb h = ground arith

-- The result is 0 exactly at equal numbers, and at the last number before the wrap beside the first
-- one behind it, which the code takes for equal though one follows the other.
pub compare_tcp_seq_zero :
    (a b : ℕ)
    → a < 2 ^ 32
    → b < 2 ^ 32
    → (is_zero (compare_tcp_seq a b) ≡ true)
      ↔ ((a ≡ b) ⊎ ((a ≡ 0) × (b ≡ max_tcp_seq)) ⊎ ((a ≡ max_tcp_seq) × (b ≡ 0)))
unfolding compare_tcp_seq
compare_tcp_seq_zero a b ha hb = (λ h. ground arith, λ h. ground arith)

-- A number that follows another by less than 2^31, also across the wrap at 2^32, is later, but for
-- the step from the last number before the wrap to the first behind it.
pub compare_tcp_seq_later :
    (a k : ℕ)
    → a < 2 ^ 32
    → 0 < k
    → k < 2 ^ 31
    → ((a ≢ max_tcp_seq) ⊎ (k ≢ 1))
    → is_neg (compare_tcp_seq a (add32 a k)) ≡ true
unfolding compare_tcp_seq
compare_tcp_seq_later a k ha hk hk' h = ground arith

pub compare_tcp_seq_flip :
    (a b : ℕ)
    → a < 2 ^ 32
    → b < 2 ^ 32
    → is_pos (compare_tcp_seq a b) ≡ true
    → is_neg (compare_tcp_seq b a) ≡ true
unfolding compare_tcp_seq
compare_tcp_seq_flip a b ha hb h = ground arith
