-- ===== src/Capture/Tests.antt =====
-- Ranges of addresses and merged channels at concrete values.
use httpdump.Base.{
  ℕ, ◌-◌, ◌^◌, ◌≡◌, refl, List, [], ◌∷◌, ◌++◌, length, get_or, codes, bytes_eq, itoa, digits, arith,
}
use httpdump.Capture.Merge.{
  Merging, hand_on, merge_channel, Merged, none_yet, one_more, forward, project, Merged-order,
}
use httpdump.Capture.Address.{octets, ip_string, to_net_ip}
use httpdump.Capture.Device.{text, endless, add_term, host_loop}
use httpdump.Capture.Ranges.{host_loop-endless}

two_hosts_test :
    host_loop 5 0x0A000001 0x0A000002 [] ≡ text (codes "host 10.0.0.1 or host 10.0.0.2")
unfolding host_loop add_term to_net_ip octets ip_string itoa digits bytes_eq
two_hosts_test = refl

host_loop-endless_example : host_loop 900 0xFFFFFF00 (2 ^ 32 - 1) [] ≡ endless
host_loop-endless_example = host_loop-endless 900 0xFFFFFF00 [] (omega arith)

abbrev packets : List (List ℕ)
packets = (1 ∷ 2 ∷ []) ∷ (3 ∷ []) ∷ []

abbrev two_out : Merging ℕ
two_out = hand_on 0 1 (2 ∷ []) (hand_on 1 3 [] (merge_channel packets))

two_out-Merged : Merged packets two_out
unfolding hand_on merge_channel
two_out-Merged = one_more (one_more none_yet (forward 1 3 [] refl)) (forward 0 1 (2 ∷ []) refl)

Merged-order_example :
    (project 0 two_out.out ++ get_or two_out.inputs 0 [] ≡ 1 ∷ 2 ∷ []) × (length two_out.inputs ≡ 2)
Merged-order_example = Merged-order packets two_out 0 (omega arith) two_out-Merged
