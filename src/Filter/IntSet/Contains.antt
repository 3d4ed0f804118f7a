-- ===== src/Filter/IntSet/Contains.antt =====
-- What the parser makes of printed sets and of ranges.
use httpdump.Base.{
  ℕ, zero, suc, ◌+◌, ◌/◌, ◌%◌, ◌≤◌, ◌<◌, ◌^◌, ◌≡◌, inl, inr, refl, ap, ◌∙◌, Bool, true, false, ◌&&◌,
  none, some, List, [], ◌∷◌, ◌++◌, ltb, leb, ◌==◌, if◌then◌else◌, Bytes, itoa, digits, ℤ, pos,
  arith, Bool-cases,
}
use httpdump.Filter.IntSet.{
  int_le, IntRange, split, int_string, range_string, set_string, item_numbers, ordered, parse_items,
  parse_int_set,
}

-- The byte is not in the text.
abbrev pub Avoids : ℕ → Bytes → Type 0
Avoids c [] = Unit
Avoids c (x ∷ xs) = ((x == c) ≡ false) × Avoids c xs

Avoids-append : (c : ℕ) (a b : Bytes) → Avoids c a → Avoids c b → Avoids c (a ++ b)
Avoids-append c [] b h k = k
Avoids-append c (x ∷ a) b (ne, h) k = (ne, Avoids-append c a b h k)

digits-Avoids :
    (c fuel n : ℕ) (rest : Bytes) → c < 48 → Avoids c rest → Avoids c (digits fuel n rest)
unfolding digits
digits-Avoids c zero n rest h k = k
digits-Avoids c (suc fuel) n rest h k = elim (Bool-cases (ltb n 10)) [
  | inl e ↦ rw e (ground arith, k)
  | inr e ↦ rw e (digits-Avoids c fuel (n / 10) ((48 + n % 10) ∷ rest) h (ground arith, k))
]

itoa-Avoids : (c n : ℕ) → c < 48 → Avoids c (itoa n)
unfolding itoa
itoa-Avoids c n h = digits-Avoids c (suc n) n [] h tt

-- A part that avoids the separator is taken off whole.
split-whole : (c : ℕ) (a : Bytes) → Avoids c a → split c a ≡ (a, [])
unfolding split
split-whole c [] h = refl
split-whole c (x ∷ a) (ne, h) = ground (arith, split-whole c a h)

split-append :
    (c : ℕ) (a b : Bytes) → Avoids c a → split c (a ++ (c ∷ b)) ≡ (a, (split c b).0 ∷ (split c b).1)
unfolding split
split-append c [] b h = ground arith
split-append c (x ∷ a) b (ne, h) = simp (ne, split-append c a b h) refl

-- A range of numbers that are not negative, in order.
abbrev pub IsRange : IntRange → Type 0
IsRange r = (m : ℕ) × (n : ℕ) × (r ≡ record { start = pos m; end = pos n }) × (m ≤ n) × (n < 2 ^ 63)

abbrev pub AreRanges : List IntRange → Type 0
AreRanges [] = Unit
AreRanges (r ∷ rs) = IsRange r × AreRanges rs

module _ (atoi : Bytes → ℤ × Bool)
    (reads : (n : ℕ) → n < 2 ^ 63 → atoi (itoa n) ≡ (pos n, true)) where
  range_string-Avoids : (r : IntRange) → IsRange r → Avoids b',' (range_string r)
  unfolding range_string int_string int_le
  range_string-Avoids r (m, n, e, le, _) = elim (Bool-cases (leb m n && leb n m)) [
    | inl same ↦ simp (e, same) (itoa-Avoids b',' m (omega arith))
    | inr other ↦
        simp (e, other)
          (Avoids-append b',' (itoa m) (b'-' ∷ itoa n) (itoa-Avoids b',' m (omega arith))
            (refl, itoa-Avoids b',' n (omega arith)))
  ]

  range_numbers :
      (r : IntRange)
      → IsRange r
      → item_numbers atoi (split b'-' (range_string r)) ≡ some (r.start, r.end)
  unfolding range_string int_string int_le item_numbers
  range_numbers r (m, n, e, le, bound) = elim (Bool-cases (leb m n && leb n m)) [
    | inl same ↦
        simp
          (
            e,
            same,
            split-whole b'-' (itoa m) (itoa-Avoids b'-' m (omega arith)),
            reads m (omega arith),
          )
          (ground arith)
    | inr other ↦
        simp
          (
            e,
            other,
            split-append b'-' (itoa m) (itoa n) (itoa-Avoids b'-' m (omega arith)),
            split-whole b'-' (itoa n) (itoa-Avoids b'-' n (omega arith)),
            reads n bound,
            reads m (omega arith),
          )
          refl
  ]

  range-ordered : (r : IntRange) → IsRange r → ordered (r.start, r.end) ≡ r
  unfolding ordered int_le
  range-ordered r (m, n, e, le, _) = simp e (ground arith)

  -- `ParseIntSet` reads back what `String` prints of a set that has at least one range, where
  -- `Atoi` reads back what `Itoa` prints of an int. The ranges are those that `ParseIntSet` itself
  -- can make: in order, of numbers without a sign.
  pub parse_int_set-set_string :
      (r : IntRange) (rs : List IntRange)
      → AreRanges (r ∷ rs)
      → parse_int_set atoi (set_string (r ∷ rs)) ≡ some (r ∷ rs)
  unfolding parse_int_set parse_items set_string
  parse_int_set-set_string r [] (i, _) =
      simp
        (
          split-whole b',' (range_string r) (range_string-Avoids r i),
          parse_items,
          range_numbers r i,
        )
        (ap (λ x. some (x ∷ [])) (range-ordered r i))
  parse_int_set-set_string r (s ∷ rs) (i, is) =
      let rest = parse_int_set-set_string s rs is in
      simp
        (
          split-append b',' (range_string r) (set_string (s ∷ rs)) (range_string-Avoids r i),
          parse_items,
          range_numbers r i,
          rest,
        )
        (ap (λ x. some (x ∷ s ∷ rs)) (range-ordered r i))

parse_int_set-whole :
    (atoi : Bytes → ℤ × Bool) (s : Bytes)
    → Avoids b',' s
    → parse_int_set atoi s ≡ parse_items atoi (s ∷ [])
unfolding parse_int_set
parse_int_set-whole atoi s h = rw (split-whole b',' s h) refl

-- `ParseIntSet` loses the error of the first number of a range: of two texts with a dash between
-- them it accepts every first one, whatever `Atoi` says of it, and goes by the second alone.
pub parse_int_set-second :
    (atoi : Bytes → ℤ × Bool) (first second : Bytes)
    → Avoids b',' first
    → Avoids b'-' first
    → Avoids b',' second
    → Avoids b'-' second
    → parse_int_set atoi (first ++ (b'-' ∷ second))
      ≡ (if (atoi second).1 then some (ordered ((atoi first).0, (atoi second).0) ∷ []) else none)
unfolding parse_items item_numbers
parse_int_set-second atoi first second c d c' d' =
    parse_int_set-whole atoi (first ++ (b'-' ∷ second))
      (Avoids-append b',' first (b'-' ∷ second) c (refl, c'))
    ∙ simp (parse_items, split-append b'-' first second d, item_numbers, split-whole b'-' second d')
        (ground arith)
