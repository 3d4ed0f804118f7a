-- ===== src/Capture/Tool.antt =====
-- cmd/pcap/main.go: the tool that prints the TCP packets of a capture file. A packet is what its
-- layers say.
pub mod Printed
use httpdump.Base.{
  ℕ, zero, suc, ◌+◌, ◌≤◌, ◌<◌, ◌≡◌, refl, sym, ap, ◌∙◌, Bool, true, false, not, ◌&&◌, ◌||◌, Option,
  none, some, List, [], ◌∷◌, ◌++◌, append-nil, append_assoc, if◌then◌else◌, ltb, length, Bytes,
  codes, itoa, bytes_eq, inl, inr, Bool-cases, arith,
}

pub record Flags : Type 0 where
  pub fin : Bool
  pub syn : Bool
  pub rst : Bool
  pub psh : Bool
  pub ack : Bool
  pub urg : Bool
  pub ece : Bool
  pub cwr : Bool
  pub ns : Bool

-- `If` at a text, and `Iff`.
unfoldable pub if_text : Bool → Bytes → Bytes
if_text b s = if b then s else []

unfoldable pub iff : {A : Type 0} → Bool → A → A → A
iff b s1 s2 = if b then s1 else s2

-- The loop of `Join`, with what it has joined.
unfoldable pub join_from : Bytes → List Bytes → Bytes → Bytes
join_from joined [] sep = joined
join_from joined (s ∷ strs) sep =
    join_from
      (if not (bytes_eq s [])
        then joined ++ (if_text (not (bytes_eq joined [])) sep ++ s)
        else joined)
      strs sep

unfoldable pub join : List Bytes → Bytes → Bytes
unfolding join_from
join strs sep = join_from [] strs sep

unfoldable pub flag_names : Flags → List Bytes
flag_names tcp =
    if_text tcp.fin (codes "FIN")
    ∷ if_text tcp.syn (codes "SYN")
    ∷ if_text tcp.rst (codes "RST")
    ∷ if_text tcp.psh (codes "PSH")
    ∷ if_text tcp.ack (codes "ACK")
    ∷ if_text tcp.urg (codes "URG")
    ∷ if_text tcp.ece (codes "ECE")
    ∷ if_text tcp.cwr (codes "CWR")
    ∷ if_text tcp.ns (codes "NS")
    ∷ []

unfoldable pub tcp_flags : Flags → Bytes
tcp_flags tcp = join (flag_names tcp) (codes " ")

-- A packet: the network layer's ends, the TCP layer, and the payload of its application layer, each
-- where it is there. A transport layer of another kind is none.
pub record Tcp : Type 0 where
  pub src_port : ℕ
  pub dst_port : ℕ
  pub seq : ℕ
  pub flags : Flags

pub record Packet : Type 0 where
  pub network : Option (Bytes × Bytes)
  pub transport : Option Tcp
  pub application : Option Bytes

-- `printPacket`: the counter `seq`, and what is printed.
unfoldable pub print_packet : ℕ → Bytes × Bytes → Tcp → Bytes → ℕ × Bytes
print_packet seq flow tcp payload = (
  suc seq,
  codes "\n\n-----#"
      ++ (itoa (suc seq)
          ++ (codes " DIR: "
              ++ (flow.0
                  ++ (codes ":"
                      ++ (itoa tcp.src_port
                          ++ (codes "->"
                              ++ (flow.1
                                  ++ (codes ":"
                                      ++ (itoa tcp.dst_port
                                          ++ (codes " Seq: "
                                              ++ (itoa tcp.seq
                                                  ++ (codes " Flags: "
                                                      ++ (tcp_flags tcp.flags
                                                          ++ (codes " Len: "
                                                            ++ (itoa (length payload)
                                                            ++ (codes " -----\n\n"
                                                            ++ payload)))))))))))))))),
)

unfoldable pub print_packet_info : ℕ → Packet → ℕ × Bytes
print_packet_info seq p = elim p.network [
  | none ↦ (seq, [])
  | some flow ↦ elim p.transport [
    | none ↦ (seq, [])
    | some tcp ↦
        print_packet seq flow tcp (elim p.application [ none ↦ [] | some payload ↦ payload ])
  ]
]

-- The loop of `main` over the packets of the file.
unfoldable pub print_packets : ℕ → List Packet → ℕ × Bytes
print_packets seq [] = (seq, [])
print_packets seq (p ∷ ps) =
    let r = print_packet_info seq p in let rest = print_packets r.0 ps in (rest.0, r.1 ++ rest.1)
