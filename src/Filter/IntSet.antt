-- ===== src/Filter/IntSet.antt =====
-- `IntSet` of util/intset.go. `strconv.Atoi` is a parameter of the parser: the number, and whether
-- there was no error.
pub mod Contains
use httpdump.Base.{
  ℕ, zero, suc, Bool, true, false, ◌&&◌, ◌||◌, Option, none, some, List, [], ◌∷◌, ◌++◌, ltb, leb,
  ◌==◌, if◌then◌else◌, Bytes, itoa, ℤ, pos, negsuc,
}

-- `a <= b` on int.
unfoldable pub int_le : ℤ → ℤ → Bool
int_le (pos m) (pos n) = leb m n
int_le (pos m) (negsuc n) = false
int_le (negsuc m) (pos n) = true
int_le (negsuc m) (negsuc n) = leb n m

pub record IntRange : Type 0 where
  pub start : ℤ
  pub end : ℤ

-- `IntRange.Contains`
unfoldable pub in_range : IntRange → ℤ → Bool
in_range r value = int_le r.start value && int_le value r.end

unfoldable pub in_some : List IntRange → ℤ → Bool
in_some [] value = false
in_some (r ∷ rs) value = if in_range r value then true else in_some rs value

-- `IntSet.Contains`
unfoldable pub contains : List IntRange → ℤ → Bool
contains [] value = true
contains (r ∷ rs) value = in_some (r ∷ rs) value

-- `strings.Split(s, string(c))`: a text has at least one part.
unfoldable pub split : ℕ → Bytes → Bytes × List Bytes
split c [] = ([], [])
split c (x ∷ xs) =
    let rest = split c xs in if x == c then ([], rest.0 ∷ rest.1) else (x ∷ rest.0, rest.1)

-- `strconv.Itoa`
unfoldable pub int_string : ℤ → Bytes
int_string (pos n) = itoa n
int_string (negsuc n) = b'-' ∷ itoa (suc n)

unfoldable pub range_string : IntRange → Bytes
range_string r =
    if int_le r.start r.end && int_le r.end r.start
    then int_string r.start
    else int_string r.start ++ (b'-' ∷ int_string r.end)

-- `IntSet.String`
unfoldable pub set_string : List IntRange → Bytes
set_string [] = []
set_string (r ∷ []) = range_string r
set_string (r ∷ s ∷ rs) = range_string r ++ (b',' ∷ set_string (s ∷ rs))

-- The two numbers of an item. The error of the first is replaced by that of the second, and the
-- number that `Atoi` gives with an error is used.
unfoldable pub item_numbers : (Bytes → ℤ × Bool) → Bytes × List Bytes → Option (ℤ × ℤ)
item_numbers atoi (first, []) =
    let start = atoi first in if start.1 then some (start.0, start.0) else none
item_numbers atoi (first, second ∷ []) =
    let end = atoi second in if end.1 then some ((atoi first).0, end.0) else none
item_numbers atoi (first, second ∷ third ∷ more) = none

unfoldable pub ordered : ℤ × ℤ → IntRange
ordered (start, end) =
    if int_le start end
    then record { start = start; end = end }
    else record { start = end; end = start }

unfoldable pub parse_items : (Bytes → ℤ × Bool) → List Bytes → Option (List IntRange)
parse_items atoi [] = some []
parse_items atoi (item ∷ items) = elim (item_numbers atoi (split b'-' item)) [
  | none ↦ none
  | some numbers ↦ elim (parse_items atoi items) [
    | none ↦ none
    | some ranges ↦ some (ordered numbers ∷ ranges)
  ]
]

unfoldable pub parse_int_set : (Bytes → ℤ × Bool) → Bytes → Option (List IntRange)
parse_int_set atoi str = let items = split b',' str in parse_items atoi (items.0 ∷ items.1)
