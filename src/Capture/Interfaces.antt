-- ===== src/Capture/Interfaces.antt =====
-- `ListInterfaces`, `cutMask`, `OpenSingleDevice` and `CreatePacketsChan` of util/pcap.go. What the
-- system and libpcap give is a parameter; a channel is the name of the device that it comes from,
-- and `none` is a nil channel.
use httpdump.Base.{
  suc, ◌≡◌, inl, inr, refl, sym, ap, ◌∙◌, Bool, true, false, not, ◌&&◌, ◌||◌, Option, none, some,
  List, [], ◌∷◌, ◌++◌, append-nil, append_assoc, replicate, if◌then◌else◌, ltb, ◌==◌, length, take,
  Bytes, codes, bytes_eq, bytes_eq_refl, index_byte, Bool-cases, Option-cases, arith,
}

-- `net.Interface`: its name, its flag `FlagUp`, and what `Addrs` gives, `none` for an error.
pub record Interface : Type 0 where
  pub name : Bytes
  pub up : Bool
  pub addrs : Option (List Bytes)

unfoldable pub cut_mask : Bytes → Bytes
cut_mask mask = elim (index_byte mask b'/') [ none ↦ mask | some i ↦ take i mask ]

unfoldable pub has_host : Bytes → List Bytes → Bool
has_host host [] = false
has_host host (addr ∷ addrs) = bytes_eq (cut_mask addr) host || has_host host addrs

-- The loop of `ListInterfaces`, with the interfaces that it has put together.
unfoldable pub scan_interfaces : Bytes → List Interface → List Interface → List Interface
scan_interfaces host [] acc = acc
scan_interfaces host (ifi ∷ ifis) acc =
    let skipped = scan_interfaces host ifis acc in
    if not ifi.up then skipped else elim ifi.addrs [
      | none ↦ skipped
      | some addrs ↦
          if has_host host addrs
          then ifi ∷ []
          else scan_interfaces host ifis (if ltb 0 (length addrs) then acc ++ ifi ∷ [] else acc)
    ]

-- `ListInterfaces`; the argument is what `net.Interfaces` gives.
unfoldable pub list_interfaces : Bytes → Option (List Interface) → Option (List Interface)
list_interfaces host none = none
list_interfaces host (some ifis) = some (scan_interfaces host ifis [])

-- What a call of `CreatePacketsChan` gives: whether the input is a capture file, its channels
-- (those that are merged, where there are several), or an error.
pub data Source : Type 0 where
  offline : Source
  merged : List (Option Bytes) → Source
  device : Option Bytes → Source
  failed : Source

-- `opens` is whether `OpenSingleDevice` opens a device and sets its filter.
unfoldable pub open_single_device : (Bytes → Bool) → Bytes → Option Bytes
open_single_device opens name = if opens name then some name else none

unfoldable pub open_all : (Bytes → Bool) → List Interface → List (Option Bytes)
open_all opens [] = []
open_all opens (itf ∷ itfs) =
    let rest = open_all opens itfs in if opens itf.name then some itf.name ∷ rest else rest

-- `packetsSlice`, which begins with a nil channel for each interface.
unfoldable pub packets_slice : (Bytes → Bool) → List Interface → List (Option Bytes)
packets_slice opens itfs = replicate (length itfs) none ++ open_all opens itfs

-- `is_file` is whether the input is a file, and `file_opens` whether that opens and takes its
-- filter.
unfoldable pub create_packets_chan :
    Bool → Bool → (Bytes → Bool) → Option (List Interface) → Bytes → Bytes → Bool × Source
create_packets_chan is_file file_opens opens ifis input host =
    if is_file
    then (if file_opens then (true, offline) else (false, failed))
    else if bytes_eq input (codes "any") && not (bytes_eq host [])
    then elim (list_interfaces host ifis) [
      | none ↦ (false, failed)
      | some itfs ↦
          let channels = packets_slice opens itfs in
          if length channels == 0 then (false, failed) else (false, merged channels)
    ]
    else (true, device (open_single_device opens input))

-- The interfaces that are up and give their addresses, with one at least.
abbrev usable : Interface → Bool
usable ifi = ifi.up && elim ifi.addrs [ none ↦ false | some addrs ↦ ltb 0 (length addrs) ]

-- One that is up and has the address.
abbrev bears : Bytes → Interface → Bool
bears host ifi = ifi.up && elim ifi.addrs [ none ↦ false | some addrs ↦ has_host host addrs ]

abbrev pub chosen : Bytes → List Interface → List Interface → List Interface
chosen host [] all = all
chosen host (ifi ∷ ifis) all = if bears host ifi then ifi ∷ [] else chosen host ifis all

abbrev pub usable_ones : List Interface → List Interface
usable_ones [] = []
usable_ones (ifi ∷ ifis) = if usable ifi then ifi ∷ usable_ones ifis else usable_ones ifis

scan-chosen :
    (host : Bytes) (ifis acc : List Interface)
    → scan_interfaces host ifis acc ≡ chosen host ifis (acc ++ usable_ones ifis)
unfolding scan_interfaces
scan-chosen host [] acc = sym (append-nil acc)
scan-chosen host (ifi ∷ ifis) acc = elim (Bool-cases ifi.up) [
  | inr down ↦ simp down (scan-chosen host ifis acc)
  | inl up ↦ elim (Option-cases ifi.addrs) [
    | inl nothing ↦ simp (scan_interfaces, up, nothing) (scan-chosen host ifis acc)
    | inr (addrs, given) ↦ elim (Bool-cases (has_host host addrs)) [
      | inl here ↦ simp (scan_interfaces, up, given, here) refl
      | inr away ↦ elim (Bool-cases (ltb 0 (length addrs))) [
        | inl some_addr ↦
            simp (scan_interfaces, up, given, away, some_addr)
              (scan-chosen host ifis (acc ++ ifi ∷ [])
                ∙ ap (chosen host ifis) (append_assoc acc (ifi ∷ []) (usable_ones ifis)))
        | inr no_addr ↦ simp (scan_interfaces, up, given, away, no_addr) (scan-chosen host ifis acc)
      ]
    ]
  ]
]

-- `ListInterfaces` gives the first interface that is up and has the host's address, alone, and if
-- there is none all that are up and have an address.
pub list_interfaces-chosen :
    (host : Bytes) (ifis : List Interface)
    → list_interfaces host (some ifis) ≡ some (chosen host ifis (usable_ones ifis))
unfolding list_interfaces
list_interfaces-chosen host ifis = ap some (scan-chosen host ifis [])

-- The capture of all devices reports that no device is available only if no interface was listed:
-- with an interface, its channels are never none, though each of them is nil where no device opens,
-- as many as there are interfaces.
pub create_packets_chan-nil :
    (opens : Bytes → Bool) (ifis : Option (List Interface)) (itf : Interface)
    (itfs : List Interface) (host : Bytes)
    → bytes_eq host [] ≡ false
    → list_interfaces host ifis ≡ some (itf ∷ itfs)
    → create_packets_chan false false opens ifis (codes "any") host
      ≡ (false, merged (replicate (suc (length itfs)) none ++ open_all opens (itf ∷ itfs)))
unfolding create_packets_chan packets_slice
create_packets_chan-nil opens ifis itf itfs host named listed =
    let any : bytes_eq (codes "any") (codes "any") ≡ true = bytes_eq_refl (codes "any") in
    simp (create_packets_chan, any, named, listed) (ground arith)
