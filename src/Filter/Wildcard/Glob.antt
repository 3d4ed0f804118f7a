-- ===== src/Filter/Wildcard/Glob.antt =====
-- What a wildcard pattern means: `*` stands for any text, `?` for any byte, another byte for
-- itself.
use httpdump.Base.{
  ℕ, ◌+◌, ◌≤◌, ◌≡◌, ◌⊎◌, inl, inr, refl, subst, true, false, ◌||◌, [], ◌∷◌, ◌++◌, ◌==◌, length,
  drop, drop-nil, drop-drop, length-drop, Bytes, arith,
}
use httpdump.Filter.Wildcard.{all_stars}

abbrev pub Single : ℕ → ℕ → Type 0
Single c x = ((c == b'*') ≡ false) × ((x == c || c == b'?') ≡ true)

abbrev pub Glob : Bytes → Bytes → Type 0
Glob [] s = s ≡ []
Glob (c ∷ p) s =
    (((c == b'*') ≡ true) × (k : ℕ) × (k ≤ length s) × Glob p (drop k s))
    ⊎ ((x : ℕ) × (s' : Bytes) × (s ≡ x ∷ s') × Single c x × Glob p s')

-- No asterisk is in the pattern.
abbrev pub NoStar : Bytes → Type 0
NoStar [] = Unit
NoStar (c ∷ p) = ((c == b'*') ≡ false) × NoStar p

pub NoStar-append : (p q : Bytes) → NoStar p → NoStar q → NoStar (p ++ q)
NoStar-append [] q n m = m
NoStar-append (c ∷ p) q (ne, n) m = (ne, NoStar-append p q n m)

-- A part of the pattern without asterisks takes as many bytes as it has.
pub Glob-prefix :
    (g q t : Bytes)
    → NoStar g
    → Glob (g ++ q) t
    → (length g ≤ length t) × Glob q (drop (length g) t)
Glob-prefix [] q t n h = (omega arith, h)
Glob-prefix (c ∷ g) q t (ne, n) (inl (e, _, _, _)) = absurd (ground arith)
Glob-prefix (c ∷ g) q t (ne, n) (inr (x, s, e, _, h)) =
    let (le, h') = Glob-prefix g q s n h in rw e (omega arith, h')

-- An asterisk takes more of the text.
pub Glob-wider :
    (c : ℕ) (p t : Bytes) (k : ℕ)
    → (c == b'*') ≡ true
    → k ≤ length t
    → Glob (c ∷ p) (drop k t)
    → Glob (c ∷ p) t
Glob-wider c p t k e le (inl (_, j, lj, h)) =
    inl (e, k + j, omega (arith, length-drop k t), subst (Glob p) (drop-drop j k t) h)
Glob-wider c p t k e le (inr (x, s, _, (ne, _), _)) = absurd (ground arith)

-- Nothing but asterisks matches the empty text.
pub all_stars-Glob : (p : Bytes) → all_stars p ≡ true → Glob p []
unfolding all_stars
all_stars-Glob [] h = refl
all_stars-Glob (c ∷ p) h = inl (ground arith, 0, omega arith, all_stars-Glob p (ground arith))

pub Glob-all_stars : (p : Bytes) → Glob p [] → all_stars p ≡ true
unfolding all_stars
Glob-all_stars [] h = refl
Glob-all_stars (c ∷ p) (inl (e, k, le, h)) =
    ground (arith, Glob-all_stars p (subst (Glob p) (drop-nil ℕ k) h))
Glob-all_stars (c ∷ p) (inr (x, s, e, _, _)) = absurd (cc e)
