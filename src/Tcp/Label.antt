-- ===== src/Tcp/Label.antt =====
-- `UUID`, `ip2int` and `DiscardAll` of handler/tcp_assembly.go. `net.ParseIP` is a parameter: the
-- number of the last four bytes of the address, with whether there is one. The parts of an
-- identifier lie in bits of their own, so that `|` is a sum.
use httpdump.Base.{
  ℕ, zero, suc, ◌+◌, ◌*◌, ◌/◌, ◌%◌, ◌^◌, ◌≡◌, refl, true, false, Option, none, some, List, [], ◌∷◌,
  ◌++◌, if◌then◌else◌, ltb, Bytes, codes, itoa,
}
use httpdump.Tcp.Packet.{Tcp}
use httpdump.Tcp.Stream.{NetworkStream}

-- `ip2int`
unfoldable pub ip2int : (Bytes → Option ℕ) → Bytes → ℕ
ip2int parse_ip v = elim (parse_ip v) [ none ↦ 0 | some n ↦ n ]

-- The twelve bytes of `id`, as a number: a port of 16 bits, the other one, the address, and the
-- number of the packet.
unfoldable pub label_id : (Bytes → Option ℕ) → NetworkStream → Tcp → ℕ
label_id parse_ip s p =
    s.src.port % 2 ^ 16 * 2 ^ 80
    + s.dst.port % 2 ^ 16 * 2 ^ 64
    + ip2int parse_ip s.src.ip % 2 ^ 32 * 2 ^ 32
    + (if s.is_request then p.ack_no else p.seq) % 2 ^ 32

-- A digit of `hex.Encode`.
unfoldable pub hex_digit : ℕ → ℕ
hex_digit d = if ltb d 10 then 48 + d else 87 + d

-- The last `width` digits of `n`, before `rest`.
unfoldable pub hex_digits : ℕ → ℕ → Bytes → Bytes
hex_digits zero n rest = rest
hex_digits (suc width) n rest = hex_digits width (n / 16) (hex_digit (n % 16) ∷ rest)

unfoldable pub uuid : (Bytes → Option ℕ) → NetworkStream → Tcp → Bytes
uuid parse_ip s p =
    codes "id:"
    ++ (hex_digits 24 (label_id parse_ip s p) []
        ++ (codes ",Seq:" ++ (itoa p.seq ++ (codes ",Ack:" ++ itoa p.ack_no))))

-- `DiscardAll`: the packets that the channel still gives are read and dropped.
unfoldable pub discard_all : List Tcp → List Tcp
discard_all [] = []
discard_all (p ∷ packets) = discard_all packets

-- A request and the response that begins where the request acknowledges have the same identifier,
-- whichever their streams, if these have the same two ends; the text behind it differs where their
-- numbers do.
pub uuid-pair :
    (parse_ip : Bytes → Option ℕ) (s t : NetworkStream) (p q : Tcp)
    → s.src ≡ t.src
    → s.dst ≡ t.dst
    → s.is_request ≡ true
    → t.is_request ≡ false
    → p.ack_no ≡ q.seq
    → (uuid parse_ip s p
        ≡ codes "id:"
          ++ (hex_digits 24 (label_id parse_ip t q) []
              ++ (codes ",Seq:" ++ (itoa p.seq ++ (codes ",Ack:" ++ itoa p.ack_no)))))
      × (label_id parse_ip s p ≡ label_id parse_ip t q)
unfolding uuid
uuid-pair parse_ip s t p q src dst asks answers meets =
    let same : label_id parse_ip s p ≡ label_id parse_ip t q =
      unfold label_id in simp (src, dst, asks, answers, meets) refl in
    (simp same refl, same)
