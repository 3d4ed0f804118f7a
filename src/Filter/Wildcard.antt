-- ===== src/Filter/Wildcard.antt =====
-- `wildcardMatch` of handler/text_utils.go. An index into the text or the pattern is what follows
-- it there: `i` is `text`, `j` is `pattern`, and `asterick` with `match` is what follows the last
-- asterisk in the pattern and the text that it was last tried at, `none` for -1.
pub mod Glob
pub mod Correct
use httpdump.Base.{
  ℕ, zero, suc, ◌+◌, ◌*◌, Bool, true, false, ◌||◌, Option, none, some, List, [], ◌∷◌, ◌==◌,
  if◌then◌else◌, length, drop, Bytes,
}

pub record Scan : Type 0 where
  pub text : Bytes
  pub pattern : Bytes
  pub star : Option (Bytes × Bytes)

-- A round of the loop: it goes on, or the function returns.
pub data Round : Type 0 where
  again : Scan → Round
  answer : Bool → Round

-- The branch that goes back to the last asterisk, and the one that returns false.
unfoldable pub backtrack : Option (Bytes × Bytes) → Round
backtrack none = answer false
backtrack (some (after, at)) =
    again (record { text = drop 1 at; pattern = after; star = some (after, drop 1 at) })

-- The body of the loop, at a text `x ∷ s`.
unfoldable pub round : ℕ → Bytes → Bytes → Option (Bytes × Bytes) → Round
round x s [] star = backtrack star
round x s (c ∷ p) star =
    if c == b'*'
    then again (record { text = x ∷ s; pattern = p; star = some (p, x ∷ s) })
    else if x == c || c == b'?'
    then again (record { text = s; pattern = p; star = star })
    else backtrack star

-- The loop after the text: what remains of the pattern is asterisks.
unfoldable pub all_stars : Bytes → Bool
all_stars [] = true
all_stars (c ∷ p) = if c == b'*' then all_stars p else false

unfoldable pub scan : ℕ → Scan → Option Bool
scan zero z = none
scan (suc fuel) z = elim z.text [
  | [] ↦ some (all_stars z.pattern)
  | x ∷ s ↦ elim (round x s z.pattern z.star) [ again z' ↦ scan fuel z' | answer b ↦ some b ]
]

-- Each text position may be tried once with the whole pattern.
unfoldable pub rounds : Bytes → Bytes → ℕ
rounds str pattern = (length str + 1) * (length pattern + 1) + length pattern + 1

unfoldable pub wildcard_match : Bytes → Bytes → Option Bool
wildcard_match str pattern =
    scan (rounds str pattern) (record { text = str; pattern = pattern; star = none })
