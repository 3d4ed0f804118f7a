-- ===== src/Base/Text.antt =====
-- Go's byte slices and strings as lists of bytes, with the functions of `bytes` and `strings` that
-- the program calls. An index that Go gives as -1 is `none`.
pub mod Search
use Prim.Native.Nat.{ℕ, zero, suc, ◌+◌, ◌-◌, ◌*◌, ◌/◌, ◌%◌, ◌≤◌, ◌<◌}
use Prim.Native.Char.{code}
use Prim.Native.String.{String}
use mathlib.Core.Path.{◌≡◌, refl, ap, ◌∙◌}
use mathlib.Core.Logic.{◌↔◌}
use mathlib.Core.Bool.{Bool, true, false, not, ◌&&◌, ◌||◌}
use mathlib.Core.Option.{Option, none, some}
use mathlib.Core.Option
use mathlib.Core.List.{List, [], ◌∷◌, ◌++◌, map, reverse}
use native.Mathlib.Omega.{arith}
use httpdump.Base.Tests.{ltb, leb, ◌==◌, if◌then◌else◌}
use httpdump.Base.Lists.{length, get_elem?, take, drop, length-drop, take_all}
use httpdump.Base.Run.{Go, ok, panic, ◌>>=◌}

abbrev pub Bytes : Type 0
Bytes = List ℕ

-- The code points of a text: its bytes, where it is ASCII.
abbrev pub codes : String → Bytes
codes String.[] = []
codes (String.◌∷◌ c s) = code c ∷ codes s

-- `a == b`
unfoldable pub bytes_eq : Bytes → Bytes → Bool
bytes_eq [] [] = true
bytes_eq [] (y ∷ ys) = false
bytes_eq (x ∷ xs) [] = false
bytes_eq (x ∷ xs) (y ∷ ys) = x == y && bytes_eq xs ys

-- `a < b`
unfoldable pub bytes_lt : Bytes → Bytes → Bool
bytes_lt [] [] = false
bytes_lt [] (y ∷ ys) = true
bytes_lt (x ∷ xs) [] = false
bytes_lt (x ∷ xs) (y ∷ ys) = ltb x y || (x == y && bytes_lt xs ys)

-- `bytes.IndexByte(s, c)`
unfoldable pub index_byte : Bytes → ℕ → Option ℕ
index_byte [] c = none
index_byte (x ∷ xs) c = if x == c then some 0 else Option.map suc (index_byte xs c)

-- `strings.HasPrefix(s, prefix)`
unfoldable pub has_prefix : Bytes → Bytes → Bool
has_prefix s [] = true
has_prefix [] (p ∷ ps) = false
has_prefix (x ∷ xs) (p ∷ ps) = x == p && has_prefix xs ps

-- `bytes.HasSuffix(s, suffix)`
unfoldable pub has_suffix : Bytes → Bytes → Bool
has_suffix s suffix =
    leb (length suffix) (length s) && bytes_eq (drop (length s - length suffix) s) suffix

-- `bytes.Index(s, sep)`
unfoldable pub index : Bytes → Bytes → Option ℕ
index [] sep = if has_prefix [] sep then some 0 else none
index (x ∷ xs) sep = if has_prefix (x ∷ xs) sep then some 0 else Option.map suc (index xs sep)

-- `strings.Count(s, string(c))`
unfoldable pub count_byte : Bytes → ℕ → ℕ
count_byte [] c = 0
count_byte (x ∷ xs) c = if x == c then suc (count_byte xs c) else count_byte xs c

-- `s[lo:hi]`
unfoldable pub slice : Bytes → ℕ → ℕ → Go Bytes
slice s lo hi = if leb lo hi && leb hi (length s) then ok (take (hi - lo) (drop lo s)) else panic

-- `s[i]`
unfoldable pub byte_at : Bytes → ℕ → Go ℕ
byte_at s i = elim (get_elem? s i) [ none ↦ panic | some c ↦ ok c ]

-- Whether a key is in a Go map whose values are all true.
unfoldable pub member : Bytes → List Bytes → Bool
member s [] = false
member s (k ∷ ks) = bytes_eq s k || member s ks

-- The decimal digits of `n` before `rest`, `fuel` of them at most.
unfoldable pub digits : ℕ → ℕ → Bytes → Bytes
digits zero n rest = rest
digits (suc fuel) n rest =
    let more = digits fuel (n / 10) ((48 + n % 10) ∷ rest) in
    if ltb n 10 then (48 + n) ∷ rest else more

-- `strconv.Itoa(n)` at a number that is not negative. A number has no more digits than `n + 1`.
unfoldable pub itoa : ℕ → Bytes
unfolding digits
itoa n = digits (suc n) n []

eq_of_bytes_eq : (a b : Bytes) → bytes_eq a b ≡ true → a ≡ b
unfolding bytes_eq
eq_of_bytes_eq [] [] h = refl
eq_of_bytes_eq [] (y ∷ ys) h = cc
eq_of_bytes_eq (x ∷ xs) [] h = cc
eq_of_bytes_eq (x ∷ xs) (y ∷ ys) h = ground (arith, eq_of_bytes_eq xs ys)

pub bytes_eq_refl : (a : Bytes) → bytes_eq a a ≡ true
unfolding bytes_eq
bytes_eq_refl [] = refl
bytes_eq_refl (x ∷ xs) = ground (arith, bytes_eq_refl xs)

pub bytes_eq_iff : (a b : Bytes) → (bytes_eq a b ≡ true) ↔ (a ≡ b)
bytes_eq_iff a b = (eq_of_bytes_eq a b, λ e. rw e (bytes_eq_refl b))

pub bytes_eq_sym : (a b : Bytes) → bytes_eq a b ≡ bytes_eq b a
unfolding bytes_eq
bytes_eq_sym [] [] = refl
bytes_eq_sym [] (y ∷ ys) = refl
bytes_eq_sym (x ∷ xs) [] = refl
bytes_eq_sym (x ∷ xs) (y ∷ ys) = ground (arith, bytes_eq_sym xs ys)

-- Of two texts one is smaller, or they are the same.
pub bytes_lt_asym : (a b : Bytes) → bytes_lt a b ≡ true → bytes_lt b a ≡ false
unfolding bytes_lt
bytes_lt_asym [] [] h = cc
bytes_lt_asym [] (y ∷ ys) h = refl
bytes_lt_asym (x ∷ xs) [] h = cc
bytes_lt_asym (x ∷ xs) (y ∷ ys) h = ground (arith, bytes_lt_asym xs ys)

pub eq_of_not_bytes_lt : (a b : Bytes) → bytes_lt a b ≡ false → bytes_lt b a ≡ false → a ≡ b
unfolding bytes_lt
eq_of_not_bytes_lt [] [] h k = refl
eq_of_not_bytes_lt [] (y ∷ ys) h k = cc
eq_of_not_bytes_lt (x ∷ xs) [] h k = cc k
eq_of_not_bytes_lt (x ∷ xs) (y ∷ ys) h k = ground (arith, eq_of_not_bytes_lt xs ys)

pub slice-returns :
    (s : Bytes) (lo hi : ℕ)
    → lo ≤ hi
    → hi ≤ length s
    → slice s lo hi ≡ ok (take (hi - lo) (drop lo s))
unfolding slice
slice-returns s lo hi h k = ground arith

pub slice-tail : (s : Bytes) (lo : ℕ) → lo ≤ length s → slice s lo (length s) ≡ ok (drop lo s)
slice-tail s lo h =
    slice-returns s lo (length s) h (omega arith)
    ∙ ap ok (take_all (length s - lo) (drop lo s) (omega (arith, length-drop lo s)))
