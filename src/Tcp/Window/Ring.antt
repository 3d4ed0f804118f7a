-- ===== src/Tcp/Window/Ring.antt =====
-- The ring's arithmetic: slots by their distance from the start, and the copies of `expand`.
use httpdump.Base.{
  ℕ, zero, suc, ◌+◌, ◌-◌, ◌%◌, ◌≤◌, ◌<◌, ◌≡◌, ◌∙◌, refl, ap, Option, none, [], ◌∷◌, ◌&&◌, ltb, leb,
  ◌==◌, if◌then◌else◌, length, get_or, set, take, drop, length-set, get_or-set, length-append,
  length-take, length-drop, get_or-append, get_or-take, get_or-drop, arith,
}
use native.Mathlib.Nat.{mod-eq_of_lt, mod-eq-sub-mod}
use native.Mathlib.Decide.{dec_lt}
use httpdump.Tcp.Packet.{Tcp}
use httpdump.Tcp.Window.{Buffer, shift, copy, copy_to}

pub wrap : (x s n : ℕ) → x < n → s < n → (x + s) % n ≡ (if ltb (x + s) n then x + s else x + s - n)
wrap x s n hx hs = elim (dec_lt (x + s) n) [
  | yes h ↦ ground (arith, mod-eq_of_lt {n = x + s} {m = n} h)
  | no h ↦ ground (
    arith,
    mod-eq-sub-mod {n = x + s} {m = n} (omega arith),
    mod-eq_of_lt {n = x + s - n} {m = n} (omega arith),
  )
]

-- The slot `j` steps behind the start.
abbrev pub slot : ℕ → Buffer → ℕ → Option Tcp
slot s buf j = get_or buf ((j + s) % length buf) none

pub wrap_in : (x s n : ℕ) → x < n → s < n → (x + s) % n < n
wrap_in x s n hx hs = ground (arith, wrap x s n)

pub slot-set :
    (s : ℕ) (buf : Buffer) (i j : ℕ) (v : Option Tcp)
    → s < length buf
    → i < length buf
    → j < length buf
    → slot s (set buf ((i + s) % length buf) v) j ≡ (if i == j then v else slot s buf j)
slot-set s buf i j v hs hi hj = ground (
  arith,
  length-set buf ((i + s) % length buf) v,
  wrap i s (length buf),
  wrap j s (length buf),
  get_or-set buf ((i + s) % length buf) ((j + s) % length buf) v none,
)

pub length-shift : (s idx n : ℕ) (buf : Buffer) → length (shift s idx n buf) ≡ length buf
unfolding shift
length-shift s idx zero buf = refl
length-shift s idx (suc n) buf =
    length-shift s idx n _ ∙ length-set buf ((idx + n + s + 1) % length buf) _

-- One round of the loop of `insert` that makes room.
slot-move :
    (s : ℕ) (buf : Buffer) (i j : ℕ)
    → s < length buf
    → i + 1 < length buf
    → j < length buf
    → slot s (set buf ((i + s + 1) % length buf) (slot s buf i)) j
      ≡ (if i + 1 == j then slot s buf i else slot s buf j)
slot-move s buf i j hs hi hj =
    let e : i + s + 1 ≡ i + 1 + s = omega arith in
    rw e (slot-set s buf (i + 1) j (slot s buf i) hs hi hj)

-- The packets from `idx` on move up by one slot.
pub slot-shift :
    (s idx n : ℕ) (buf : Buffer) (j : ℕ)
    → s < length buf
    → idx + n < length buf
    → j < length buf
    → slot s (shift s idx n buf) j
      ≡ (if ltb idx j && leb j (idx + n) then slot s buf (j - 1) else slot s buf j)
unfolding shift
slot-shift s idx zero buf j hs hn hj = ground arith
slot-shift s idx (suc n) buf j hs hn hj =
    let moved : Buffer = set buf ((idx + n + s + 1) % length buf) (slot s buf (idx + n)) in
    let same : length moved ≡ length buf = length-set buf _ _ in
    ground (
      arith,
      same,
      slot-shift s idx n moved j,
      slot-move s buf (idx + n) j hs (omega arith) hj,
      slot-move s buf (idx + n) (j - 1) hs (omega arith) (omega arith),
    )

length-copy : (dst src : Buffer) → length (copy dst src) ≡ length dst
unfolding copy
length-copy [] src = refl
length-copy (d ∷ dst) [] = refl
length-copy (d ∷ dst) (x ∷ src) = ap suc (length-copy dst src)

get_or-copy :
    (dst src : Buffer) (i : ℕ)
    → length src ≤ length dst
    → get_or (copy dst src) i none
      ≡ (if ltb i (length src) then get_or src i none else get_or dst i none)
unfolding copy
get_or-copy [] [] i h = ground arith
get_or-copy [] (x ∷ src) i h = absurd (omega arith)
get_or-copy (d ∷ dst) [] i h = ground arith
get_or-copy (d ∷ dst) (x ∷ src) zero h = ground arith
get_or-copy (d ∷ dst) (x ∷ src) (suc i) h = ground (arith, get_or-copy dst src i)

pub length-copy_to :
    (off : ℕ) (dst src : Buffer) → off ≤ length dst → length (copy_to off dst src) ≡ length dst
unfolding copy_to
length-copy_to off dst src h = omega (
  arith,
  length-append (take off dst) (copy (drop off dst) src),
  length-take off dst h,
  length-copy (drop off dst) src,
  length-drop off dst,
)

-- `copy(dst[off:], src)` where `src` fits.
pub get_or-copy_to :
    (off : ℕ) (dst src : Buffer) (i : ℕ)
    → off + length src ≤ length dst
    → get_or (copy_to off dst src) i none ≡ (
        if leb off i && ltb i (off + length src)
        then get_or src (i - off) none
        else get_or dst i none)
unfolding copy_to
get_or-copy_to off dst src i h = ground (
  arith,
  get_or-append (take off dst) (copy (drop off dst) src) i none,
  length-take off dst,
  length-drop off dst,
  get_or-take off dst i none,
  get_or-copy (drop off dst) src (i - off),
  get_or-drop off dst (i - off) none,
)
