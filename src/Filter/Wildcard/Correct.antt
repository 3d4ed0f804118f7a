-- ===== src/Filter/Wildcard/Correct.antt =====
-- The loop and the meaning of its pattern.
mod Rounds
use httpdump.Base.{
  ℕ, zero, suc, ◌+◌, ◌*◌, ◌≤◌, ◌<◌, ◌≡◌, ◌↔◌, ◌⊎◌, inl, inr, refl, sym, subst, ap, ◌∙◌, Bool, true,
  false, ◌||◌, Option, none, some, [], ◌∷◌, ◌++◌, append_assoc, ◌==◌, length, drop, length-append,
  drop-nil, drop-drop, length-drop, Bytes, arith, Bool-cases,
}
use httpdump.Filter.Wildcard.{
  Scan, Round, again, answer, backtrack, round, all_stars, scan, rounds, wildcard_match,
}
use httpdump.Filter.Wildcard.Glob.{
  Single, Glob, NoStar, NoStar-append, Glob-prefix, Glob-wider, all_stars-Glob, Glob-all_stars,
}
use httpdump.Filter.Wildcard.Correct.Rounds.{
  Later, Found, Behind, BehindStar, places, Bounded, Good, measure, Kept, round-Kept,
}

module _ (n m : ℕ) where
  finished :
      (p : Bytes) (star : Option (Bytes × Bytes))
      → Good n m (record { text = []; pattern = p; star = star })
      → Later star
      → ⊥
  finished p none g l = l
  finished p (some (after, at)) g (k, less, le, h) =
      let b = g.behind in
      let (fits, _) =
        Glob-prefix b.seen p (drop k at) b.no_star
          (subst (λ q. Glob q (drop k at)) b.pattern_eq h) in
      omega (arith, b.fits, length-drop k at, ap length b.text_eq, length-drop (length b.seen) at)

  scan-Found :
      (fuel : ℕ) (t p : Bytes) (star : Option (Bytes × Bytes))
      → let z : Scan = record { text = t; pattern = p; star = star } in
        Good n m z
        → measure n m z < fuel
        → (b : Bool) × (scan fuel z ≡ some b) × ((b ≡ true) ↔ Found z)
  unfolding scan
  scan-Found zero t p star g h = absurd (omega arith)
  scan-Found (suc fuel) [] p star g h = (
    all_stars p,
    refl,
    (
      λ e. inl (all_stars-Glob p e),
      λ f. elim f [ inl now ↦ Glob-all_stars p now | inr l ↦ absurd (finished p star g l) ],
    ),
  )
  scan-Found (suc fuel) (x ∷ s) p star g h =
      next (round x s p star) refl (round-Kept n m x s p star g)
        (λ z. scan-Found fuel z.text z.pattern z.star)
    where
      next :
          (r : Round)
          → round x s p star ≡ r
          → Kept n m (record { text = x ∷ s; pattern = p; star = star }) r
          → ((z : Scan)
              → Good n m z
              → measure n m z < fuel
              → (b : Bool) × (scan fuel z ≡ some b) × ((b ≡ true) ↔ Found z))
          → (b : Bool) × (scan (suc fuel) (record { text = x ∷ s; pattern = p; star = star })
              ≡ some b)
            × ((b ≡ true) ↔ Found (record { text = x ∷ s; pattern = p; star = star }))
      next (answer b) e k rest = rw (scan, e) (b, refl, k)
      next (again z) e (g', less, (there, back)) rest =
          let (b, e', (to, from)) = rest z g' (omega arith) in
          rw (scan, e) (b, e', (λ t. back (to t), λ f. from (there f)))

-- `wildcardMatch` terminates on every text and pattern, and returns true exactly where the text
-- matches the pattern: `*` stands for any text, `?` for any byte, and any other byte for itself.
pub wildcard_match-Glob :
    (str pattern : Bytes)
    → (b : Bool) × (wildcard_match str pattern ≡ some b) × ((b ≡ true) ↔ Glob pattern str)
unfolding wildcard_match rounds
wildcard_match-Glob str pattern =
    let n = length str in
    let m = length pattern in
    let (b, e, (there, back)) =
      scan-Found n m (rounds str pattern) str pattern none
        (record { behind = tt; bounded = tt; pattern_in = omega arith; text_in = omega arith })
        (omega arith) in
    (b, e, (λ h. elim (there h) [ inl now ↦ now | inr l ↦ absurd l ], λ h. back (inl h)))
