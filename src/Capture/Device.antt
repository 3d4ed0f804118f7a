-- ===== src/Capture/Device.antt =====
-- The expression that `setDeviceFilter` of util/pcap.go builds. `ss.Split` of the lists and the
-- ranges is applied already: an item is its parts. `net.ParseIP` with `To4`, and `ss.ParseInt`, are
-- parameters; a port is not negative, as the code demands, and 0 stands for all it refuses.
use httpdump.Base.{
  ℕ, zero, suc, ◌+◌, ◌-◌, ◌%◌, ◌^◌, Option, none, some, List, [], ◌∷◌, ◌++◌, ltb, leb, ◌==◌,
  if◌then◌else◌, Bytes, bytes_eq, codes, itoa,
}
use httpdump.Capture.Address.{Ipv4, value, ip_string, to_net_ip}

-- The text so far, `log.Fatalf`, or a loop that has not ended.
pub data Built : Type 0 where
  text : Bytes → Built
  fatal : Built
  endless : Built

-- `ipr += ss.If(ipr != "", " or ", "") + kind + x`
unfoldable pub add_term : Bytes → Bytes → Bytes → Bytes
add_term acc kind x = acc ++ ((if bytes_eq acc [] then [] else codes " or ") ++ (kind ++ x))

-- `for ; ip1v4 <= ip2v4; ip1v4++` on uint32, for at most `fuel` tests.
unfoldable pub host_loop : ℕ → ℕ → ℕ → Bytes → Built
host_loop zero ip stop acc = endless
host_loop (suc fuel) ip stop acc =
    let rest =
      host_loop fuel ((ip + 1) % 2 ^ 32) stop (add_term acc (codes "host ") (to_net_ip ip)) in
    if leb ip stop then rest else text acc

-- The terms of `n` ports from `p` on.
unfoldable pub port_terms : ℕ → ℕ → Bytes → Bytes
port_terms zero p acc = acc
port_terms (suc n) p acc = port_terms n (p + 1) (add_term acc (codes "port ") (itoa p))

unfoldable pub host_item : (Bytes → Option Ipv4) → ℕ → List Bytes → Bytes → Built
host_item parse_ip fuel [] ipr = text ipr
host_item parse_ip fuel (a ∷ []) ipr = elim (parse_ip a) [
  | none ↦ fatal
  | some ip ↦ text (add_term ipr (codes "host ") (ip_string ip))
]
host_item parse_ip fuel (a ∷ b ∷ []) ipr = elim (parse_ip a) [
  | none ↦ fatal
  | some ip1 ↦ elim (parse_ip b) [
    | none ↦ fatal
    | some ip2 ↦
        if ltb (value ip2) (value ip1) then fatal else host_loop fuel (value ip1) (value ip2) ipr
  ]
]
host_item parse_ip fuel (a ∷ b ∷ c ∷ more) ipr = fatal

unfoldable pub port_item : (Bytes → ℕ) → List Bytes → Bytes → Built
port_item parse_int [] portr = text portr
port_item parse_int (a ∷ []) portr =
    if parse_int a == 0 then fatal else text (add_term portr (codes "port ") (itoa (parse_int a)))
port_item parse_int (a ∷ b ∷ []) portr =
    if parse_int a == 0
    then fatal
    else if parse_int b == 0
    then fatal
    else if ltb (parse_int b) (parse_int a)
    then fatal
    else text (port_terms (parse_int b + 1 - parse_int a) (parse_int a) portr)
port_item parse_int (a ∷ b ∷ c ∷ more) portr = fatal

-- The loop over the items of a list.
unfoldable pub items : (List Bytes → Bytes → Built) → List (List Bytes) → Bytes → Built
items f [] acc = text acc
items f (i ∷ is) acc = elim (f i acc) [
  | text acc' ↦ items f is acc'
  | fatal ↦ fatal
  | endless ↦ endless
]

-- ` and (` and the terms and `)`, if there are any.
unfoldable pub add_clause : Bytes → Bytes → Bytes
add_clause bpf terms =
    if bytes_eq terms [] then bpf else bpf ++ (codes " and (" ++ (terms ++ codes ")"))

unfoldable pub set_device_filter :
    (Bytes → Option Ipv4) → (Bytes → ℕ) → ℕ → Bytes → List (List Bytes) → List (List Bytes) → Built
set_device_filter parse_ip parse_int fuel bpf ips ports =
    if bytes_eq bpf []
    then elim (items (host_item parse_ip fuel) ips []) [
      | fatal ↦ fatal
      | endless ↦ endless
      | text ipr ↦ elim (items (port_item parse_int) ports []) [
        | fatal ↦ fatal
        | endless ↦ endless
        | text portr ↦ text (add_clause (add_clause (codes "tcp") ipr) portr)
      ]
    ]
    else text bpf
