-- ===== src/Base/Text/Search.antt =====
-- What a search in a text finds.
use Prim.Native.Nat.{ℕ, zero, suc, ◌+◌, ◌-◌, ◌≤◌, ◌<◌}
use mathlib.Core.Path.{◌≡◌, refl, ap}
use mathlib.Core.Logic.{◌⊎◌, inl, inr}
use mathlib.Core.Bool.{true, false}
use mathlib.Core.Option.{none, some}
use mathlib.Core.List.{[], ◌∷◌, ◌++◌}
use native.Mathlib.Omega.{arith}
use httpdump.Base.Tests.{ltb, ◌==◌, if◌then◌else◌, Bool-cases, Option-cases}
use httpdump.Base.Lists.{length, take, drop}
use httpdump.Base.Text.{Bytes, index_byte, has_prefix, index, count_byte}

-- The first `c` stands at the front or behind it.
index_byte_cons :
    (x : ℕ) (xs : Bytes) (c i : ℕ)
    → index_byte (x ∷ xs) c ≡ some i
    → ((x ≡ c) × (i ≡ 0))
      ⊎ ((j : ℕ) × ((x == c) ≡ false) × (i ≡ suc j) × (index_byte xs c ≡ some j))
unfolding index_byte
index_byte_cons x xs c i h = elim (Bool-cases (x == c)) [
  | inl e ↦ inl (ground arith, ground arith)
  | inr ne ↦ elim (Option-cases (index_byte xs c)) [
    | inl nothing ↦ absurd (ground arith)
    | inr (j, found) ↦ inr (j, ne, ground arith, found)
  ]
]

-- The first `c` splits a text.
pub index_byte-split :
    (s : Bytes) (c i : ℕ)
    → index_byte s c ≡ some i
    → (s ≡ take i s ++ c ∷ drop (suc i) s) × (count_byte (take i s) c ≡ 0) × (i < length s)
unfolding count_byte
index_byte-split [] c i h = unfold index_byte in cc
index_byte-split (x ∷ xs) c i h = elim (index_byte_cons x xs c i h) [
  | inl (e, z) ↦ rw (z, e) (refl, refl, omega arith)
  | inr (j, ne, e, found) ↦
      let (split, none_before, lt) = index_byte-split xs c j found in
      rw (e, ne) (ap (λ l. x ∷ l) split, none_before, omega arith)
]

pub index_byte-append :
    (pre : Bytes) (c : ℕ) (post : Bytes)
    → count_byte pre c ≡ 0
    → index_byte (pre ++ c ∷ post) c ≡ some (length pre)
unfolding index_byte count_byte
index_byte-append [] c post h = ground arith
index_byte-append (x ∷ pre) c post h = ground (arith, index_byte-append pre c post)

pub index-single : (s : Bytes) (c : ℕ) → index s (c ∷ []) ≡ index_byte s c
unfolding index index_byte has_prefix
index-single [] c = refl
index-single (x ∷ xs) c = ground (arith, index-single xs c)

pub count_byte-append :
    (a b : Bytes) (c : ℕ) → count_byte (a ++ b) c ≡ count_byte a c + count_byte b c
unfolding count_byte
count_byte-append [] b c = omega arith
count_byte-append (x ∷ a) b c = ground (arith, count_byte-append a b c)

-- The spaces of a front of a text, counted from the first one on.
pub count_byte-take :
    (s : Bytes) (c n i : ℕ)
    → index_byte s c ≡ some i
    → count_byte (take n s) c
      ≡ (if ltb i n then suc (count_byte (take (n - i - 1) (drop (suc i) s)) c) else 0)
unfolding index_byte count_byte
count_byte-take [] c n i h = cc
count_byte-take (x ∷ xs) c zero i h = ground arith
count_byte-take (x ∷ xs) c (suc n) i h = elim (index_byte_cons x xs c i h) [
  | inl (e, z) ↦ let m : suc n - 0 - 1 ≡ n = omega arith in rw (z, e, m) (ground arith)
  | inr (j, ne, e, found) ↦ rw (e, ne) (ground (arith, count_byte-take xs c n j found))
]

pub count_byte-none : (s : Bytes) (c n : ℕ) → index_byte s c ≡ none → count_byte (take n s) c ≡ 0
unfolding index_byte count_byte
count_byte-none [] c zero h = refl
count_byte-none [] c (suc n) h = refl
count_byte-none (x ∷ xs) c zero h = refl
count_byte-none (x ∷ xs) c (suc n) h = ground (arith, count_byte-none xs c n)

length-has_prefix : (s p : Bytes) → has_prefix s p ≡ true → length p ≤ length s
unfolding has_prefix
length-has_prefix s [] h = omega arith
length-has_prefix [] (p ∷ ps) h = cc
length-has_prefix (x ∷ xs) (p ∷ ps) h = ground (arith, length-has_prefix xs ps)

-- What `Index` finds lies in the text.
pub index-bound : (s sep : Bytes) (i : ℕ) → index s sep ≡ some i → i + length sep ≤ length s
unfolding index
index-bound [] [] i h = unfold has_prefix in ground arith
index-bound [] (p ∷ ps) i h = unfold has_prefix in ground arith
index-bound (x ∷ xs) sep i h = elim (Bool-cases (has_prefix (x ∷ xs) sep)) [
  | inl here ↦ ground (arith, length-has_prefix (x ∷ xs) sep)
  | inr later ↦ elim (Option-cases (index xs sep)) [
    | inl nothing ↦ absurd (ground arith)
    | inr (j, found) ↦ ground (arith, index-bound xs sep j found)
  ]
]

-- A text up to its first part's end and the byte behind it, and what is left.
pub take-line :
    (a : Bytes) (c : ℕ) (rest : Bytes) → take (length a + 1) (a ++ c ∷ rest) ≡ a ++ c ∷ []
take-line [] c rest = refl
take-line (x ∷ a) c rest = ground (arith, take-line a c rest)

pub drop-line : (a : Bytes) (c : ℕ) (rest : Bytes) → drop (length a + 1) (a ++ c ∷ rest) ≡ rest
drop-line [] c rest = refl
drop-line (x ∷ a) c rest = ground (arith, drop-line a c rest)
