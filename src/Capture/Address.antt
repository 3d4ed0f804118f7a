-- ===== src/Capture/Address.antt =====
-- `FromNetIPv4` and `ToNetIP` of util/ip.go. An IPv4 address is its four bytes; the bits of the
-- bytes do not meet, so that `|` is a sum.
use httpdump.Base.{
  ℕ, ◌+◌, ◌*◌, ◌/◌, ◌%◌, ◌^◌, ◌<◌, ◌≡◌, ◌++◌, Option, none, some, Bytes, codes, itoa, Go, ok, panic,
  ap, arith,
}

pub record Ipv4 : Type 0 where
  pub b0 : ℕ
  pub b1 : ℕ
  pub b2 : ℕ
  pub b3 : ℕ

abbrev pub value : Ipv4 → ℕ
value ip = ip.b3 + ip.b2 * 2 ^ 8 + ip.b1 * 2 ^ 16 + ip.b0 * 2 ^ 24

-- `FromNetIPv4`, after `To4`, whose nil is `none`.
unfoldable pub from_net_ipv4 : Option Ipv4 → Go ℕ
from_net_ipv4 none = panic
from_net_ipv4 (some ip) = ok (value ip)

unfoldable pub octets : ℕ → Ipv4
octets val = record {
  b0 = val / 2 ^ 24 % 256;
  b1 = val / 2 ^ 16 % 256;
  b2 = val / 2 ^ 8 % 256;
  b3 = val % 256;
}

-- `net.IPv4(...).String()`
unfoldable pub ip_string : Ipv4 → Bytes
ip_string ip =
    itoa ip.b0
    ++ (codes "." ++ (itoa ip.b1 ++ (codes "." ++ (itoa ip.b2 ++ (codes "." ++ itoa ip.b3)))))

unfoldable pub to_net_ip : ℕ → Bytes
to_net_ip val = ip_string (octets val)

-- The bytes that `ToNetIP` prints of a uint32 are those whose number `FromNetIPv4` gives: it is the
-- same number again.
pub from_net_ipv4-octets : (val : ℕ) → val < 2 ^ 32 → from_net_ipv4 (some (octets val)) ≡ ok val
unfolding from_net_ipv4 octets
from_net_ipv4-octets val h = ap ok (omega arith)
