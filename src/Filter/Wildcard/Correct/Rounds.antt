-- ===== src/Filter/Wildcard/Correct/Rounds.antt =====
-- A round of the loop keeps what may be found, and comes closer to its end.
use httpdump.Base.{
  ℕ, zero, suc, ◌+◌, ◌*◌, ◌≤◌, ◌<◌, ◌≡◌, ◌↔◌, ◌⊎◌, inl, inr, refl, sym, subst, ap, ◌∙◌, true, false,
  ◌||◌, Option, none, some, [], ◌∷◌, ◌++◌, append_assoc, ◌==◌, length, drop, length-append,
  drop-nil, drop-drop, length-drop, Bytes, arith, Bool-cases,
}
use httpdump.Filter.Wildcard.{Scan, Round, again, answer, backtrack, round}
use httpdump.Filter.Wildcard.Glob.{Single, Glob, NoStar, NoStar-append, Glob-prefix, Glob-wider}

-- What the loop may still find: a match from here, or one from a later place for the last asterisk.
abbrev pub Later : Option (Bytes × Bytes) → Type 0
Later none = ⊥
Later (some (after, at)) = (k : ℕ) × (1 ≤ k) × (k ≤ length at) × Glob after (drop k at)

abbrev pub Found : Scan → Type 0
Found z = Glob z.pattern z.text ⊎ Later z.star

-- The asterisk's part of the pattern, up to here, has no other and has matched the text up to here.
pub record Behind (z : Scan) (after at : Bytes) : Type 0 where
  pub seen : Bytes
  pub no_star : NoStar seen
  pub pattern_eq : after ≡ seen ++ z.pattern
  pub text_eq : z.text ≡ drop (length seen) at
  pub fits : length seen ≤ length at

abbrev pub BehindStar : Scan → Option (Bytes × Bytes) → Type 0
BehindStar z none = Unit
BehindStar z (some (after, at)) = Behind z after at

-- The texts that the last asterisk may still be tried at.
abbrev pub places : ℕ → Option (Bytes × Bytes) → ℕ
places n none = n + 1
places n (some (after, at)) = length at

-- The last asterisk is in the pattern, and is tried at the text.
abbrev pub Bounded : ℕ → ℕ → Option (Bytes × Bytes) → Type 0
Bounded n m none = Unit
Bounded n m (some (after, at)) = (length after ≤ m) × (length at ≤ n)

pub record Good (n m : ℕ) (z : Scan) : Type 0 where
  pub behind : BehindStar z z.star
  pub bounded : Bounded n m z.star
  pub pattern_in : length z.pattern ≤ m
  pub text_in : length z.text ≤ n

abbrev pub measure : ℕ → ℕ → Scan → ℕ
measure n m z = places n z.star * (m + 1) + length z.pattern

-- A round keeps what may be found, and comes closer to the end.
abbrev pub Kept : ℕ → ℕ → Scan → Round → Type 0
Kept n m z (again z') = Good n m z' × (measure n m z' < measure n m z) × (Found z ↔ Found z')
Kept n m z (answer b) = (b ≡ true) ↔ Found z

less_mul : (a b w : ℕ) → a ≤ b → a * w ≤ b * w
less_mul zero b w h = omega arith
less_mul (suc a) zero w h = absurd (omega arith)
less_mul (suc a) (suc b) w h = omega (arith, less_mul a b w (omega arith))

module _ (n m : ℕ) where
  backtrack-Kept :
      (x : ℕ) (s p : Bytes) (star : Option (Bytes × Bytes))
      → Good n m (record { text = x ∷ s; pattern = p; star = star })
      → (Glob p (x ∷ s) → ⊥)
      → Kept n m (record { text = x ∷ s; pattern = p; star = star }) (backtrack star)
  unfolding backtrack
  backtrack-Kept x s p none g fails =
      (λ h. cc h, λ h. elim h [ inl a ↦ absurd (fails a) | inr l ↦ absurd l ])
  backtrack-Kept x s p (some (after, [])) g fails =
      absurd (cc (g.behind.text_eq ∙ drop-nil ℕ (length g.behind.seen)))
  backtrack-Kept x s p (some (after, a ∷ t)) g fails = (
    record {
      behind = record {
        seen = [];
        no_star = tt;
        pattern_eq = refl;
        text_eq = refl;
        fits = omega arith;
      };
      bounded = (g.bounded.0, omega (arith, g.bounded.1));
      pattern_in = g.bounded.0;
      text_in = omega (arith, g.bounded.1);
    },
    omega (arith, g.bounded.0),
    (
      λ h. elim h [
        | inl now ↦ absurd (fails now)
        | inr (zero, le, _, _) ↦ absurd (omega arith)
        | inr (suc zero, _, _, h) ↦ inl h
        | inr (suc (suc k), _, le, h) ↦ inr (suc k, omega arith, omega arith, h)
      ],
      λ h. elim h [
        | inl now ↦ inr (1, omega arith, omega arith, now)
        | inr (k, _, le, h) ↦ inr (suc k, omega arith, omega arith, h)
      ],
    ),
  )

  -- Where a match before the asterisk `c` uses an earlier asterisk, one from here does too.
  nearer :
      (x : ℕ) (s : Bytes) (c : ℕ) (p : Bytes) (star : Option (Bytes × Bytes))
      → BehindStar (record { text = x ∷ s; pattern = c ∷ p; star = star }) star
      → (c == b'*') ≡ true
      → Later star
      → Glob (c ∷ p) (x ∷ s)
  nearer x s c p none b e l = absurd l
  nearer x s c p (some (after, at)) b e (k, _, le, h) =
      let (fits, rest) =
        Glob-prefix b.seen (c ∷ p) (drop k at) b.no_star
          (subst (λ q. Glob q (drop k at)) b.pattern_eq h) in
      let shift : drop (length b.seen) (drop k at) ≡ drop k (x ∷ s) =
        drop-drop (length b.seen) k at
        ∙ ap (λ i. drop i at) (omega arith)
        ∙ sym (drop-drop k (length b.seen) at)
        ∙ ap (drop k) (sym b.text_eq) in
      Glob-wider c p (x ∷ s) k e
        (omega (arith, length-drop k at, ap length b.text_eq, length-drop (length b.seen) at))
        (subst (Glob (c ∷ p)) shift rest)

  places-text :
      (x : ℕ) (s p : Bytes) (star : Option (Bytes × Bytes))
      → Good n m (record { text = x ∷ s; pattern = p; star = star })
      → length (x ∷ s) ≤ places n star
  places-text x s p none g = omega (arith, g.text_in)
  places-text x s p (some (after, at)) g =
      omega (arith, ap length g.behind.text_eq, length-drop (length g.behind.seen) at)

  star-Kept :
      (x : ℕ) (s : Bytes) (c : ℕ) (p : Bytes) (star : Option (Bytes × Bytes))
      → Good n m (record { text = x ∷ s; pattern = c ∷ p; star = star })
      → (c == b'*') ≡ true
      → Kept n m
          (record { text = x ∷ s; pattern = c ∷ p; star = star })
          (again (record { text = x ∷ s; pattern = p; star = some (p, x ∷ s) }))
  star-Kept x s c p star g e = (
    record {
      behind = record {
        seen = [];
        no_star = tt;
        pattern_eq = refl;
        text_eq = refl;
        fits = omega arith;
      };
      bounded = (omega (arith, g.pattern_in), g.text_in);
      pattern_in = omega (arith, g.pattern_in);
      text_in = g.text_in;
    },
    omega
        (arith, less_mul (length (x ∷ s)) (places n star) (m + 1) (places-text x s (c ∷ p) star g)),
    (
      λ h. elim h [ inl now ↦ ahead now | inr l ↦ ahead (nearer x s c p star g.behind e l) ],
      λ h. elim h [
        | inl now ↦ inl (inl (e, 0, omega arith, now))
        | inr (k, _, le, h) ↦ inl (inl (e, k, le, h))
      ],
    ),
  )
    where
      ahead :
          Glob (c ∷ p) (x ∷ s)
          → Found (record { text = x ∷ s; pattern = p; star = some (p, x ∷ s) })
      ahead (inl (_, zero, le, h)) = inl h
      ahead (inl (_, suc k, le, h)) = inr (suc k, omega arith, le, h)
      ahead (inr (_, _, _, (ne, _), _)) = absurd (ground arith)

  Single-Kept :
      (x : ℕ) (s : Bytes) (c : ℕ) (p : Bytes) (star : Option (Bytes × Bytes))
      → Good n m (record { text = x ∷ s; pattern = c ∷ p; star = star })
      → Single c x
      → Kept n m
          (record { text = x ∷ s; pattern = c ∷ p; star = star })
          (again (record { text = s; pattern = p; star = star }))
  Single-Kept x s c p star g single = (
    record {
      behind = further star g.behind;
      bounded = g.bounded;
      pattern_in = omega (arith, g.pattern_in);
      text_in = omega (arith, g.text_in);
    },
    omega arith,
    (
      λ h. elim h [ inl now ↦ inl (taken now) | inr l ↦ inr l ],
      λ h. elim h [ inl now ↦ inl (inr (x, s, refl, single, now)) | inr l ↦ inr l ],
    ),
  )
    where
      taken : Glob (c ∷ p) (x ∷ s) → Glob p s
      taken (inl (e, _, _, _)) = absurd (ground (arith, single.0))
      taken (inr (y, t, e, _, h)) = subst (Glob p) (cc e) h

      further :
          (star : Option (Bytes × Bytes))
          → BehindStar (record { text = x ∷ s; pattern = c ∷ p; star = star }) star
          → BehindStar (record { text = s; pattern = p; star = star }) star
      further none b = tt
      further (some (after, at)) b = record {
        seen = b.seen ++ c ∷ [];
        no_star = NoStar-append b.seen (c ∷ []) b.no_star (single.0, tt);
        pattern_eq = b.pattern_eq ∙ sym (append_assoc b.seen (c ∷ []) p);
        text_eq =
            ap (drop 1) b.text_eq
            ∙ drop-drop 1 (length b.seen) at
            ∙ ap (λ i. drop i at) (omega (arith, length-append b.seen (c ∷ [])));
        fits = omega (
          arith,
          length-append b.seen (c ∷ []),
          ap length b.text_eq,
          length-drop (length b.seen) at,
        );
      }

  pub round-Kept :
      (x : ℕ) (s p : Bytes) (star : Option (Bytes × Bytes))
      → Good n m (record { text = x ∷ s; pattern = p; star = star })
      → Kept n m (record { text = x ∷ s; pattern = p; star = star }) (round x s p star)
  unfolding round
  round-Kept x s [] star g = backtrack-Kept x s [] star g (λ h. absurd (cc h))
  round-Kept x s (c ∷ p) star g = elim (Bool-cases (c == b'*')) [
    | inl e ↦ rw e (star-Kept x s c p star g e)
    | inr ne ↦ elim (Bool-cases (x == c || c == b'?')) [
      | inl e ↦
          let goes : round x s (c ∷ p) star
              ≡ again (record { text = s; pattern = p; star = star }) =
            ground arith in
          subst (Kept n m (record { text = x ∷ s; pattern = c ∷ p; star = star })) (sym goes)
            (Single-Kept x s c p star g (ne, e))
      | inr other ↦
          let back : round x s (c ∷ p) star ≡ backtrack star = ground arith in
          subst (Kept n m (record { text = x ∷ s; pattern = c ∷ p; star = star })) (sym back)
            (backtrack-Kept x s (c ∷ p) star g (λ h. differs h ne other))
    ]
  ]
    where
      differs : Glob (c ∷ p) (x ∷ s) → (c == b'*') ≡ false → (x == c || c == b'?') ≡ false → ⊥
      differs (inl (e, _, _, _)) ne other = absurd (ground arith)
      differs (inr (y, t, e, (_, single), _)) ne other = absurd (ground arith)
