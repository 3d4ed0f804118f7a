-- ===== src/Tcp/Packet.antt =====
-- What handler/tcp_assembly.go reads of a packet: the fields of gopacket's `layers.TCP`. Sequence
-- numbers are uint32.
use httpdump.Base.{ℕ, Bool, Bytes}

pub record Tcp : Type 0 where
  pub seq : ℕ
  pub ack_no : ℕ
  pub syn : Bool
  pub ack : Bool
  pub fin : Bool
  pub rst : Bool
  pub payload : Bytes
