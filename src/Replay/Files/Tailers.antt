-- ===== src/Replay/Files/Tailers.antt =====
-- The tailers that `tailNewFiles` adds.
use httpdump.Base.{
  ◌≡◌, inl, inr, refl, sym, subst, ap, ◌∙◌, Bool, true, false, ◌||◌, ◌&&◌, Option, none, some, List,
  [], ◌∷◌, if◌then◌else◌, Bytes, bytes_eq, bytes_eq_iff, Bool-cases, Option-cases,
}
use httpdump.Replay.Files.{Seek, Tail, lookup, seek_of, tail_files}

abbrev pub is_some : Option Seek → Bool
is_some none = false
is_some (some seek) = true

abbrev pub is_tailed : Bytes → List (Bytes × Seek) → Bool
is_tailed name entries = is_some (lookup name entries)

-- No file is tailed twice.
abbrev pub AreDistinct : List (Bytes × Seek) → Type 0
AreDistinct [] = Unit
AreDistinct ((name, seek) ∷ entries) = (is_tailed name entries ≡ false) × AreDistinct entries

-- The files of `names` that open.
abbrev pub opened : (Bytes → Bool) → List Bytes → Bytes → Bool
opened tails [] name = false
opened tails (n ∷ names) name = bytes_eq name n && tails n || opened tails names name

module _ (tails : Bytes → Bool) where
  tailed-cons :
      (name n : Bytes) (seek : Seek) (entries : List (Bytes × Seek))
      → is_tailed name ((n, seek) ∷ entries) ≡ (bytes_eq name n || is_tailed name entries)
  unfolding lookup
  tailed-cons name n seek entries = chosen (bytes_eq name n)
    where
      chosen :
          (b : Bool)
          → is_some (if b then some seek else lookup name entries)
            ≡ (b || is_some (lookup name entries))
      chosen true = refl
      chosen false = refl

  or_false : (b : Bool) → b ≡ (b || false)
  or_false true = refl
  or_false false = refl

  unopened : (a b c : Bool) → (b || c) ≡ (b || (a && false || c))
  unopened true b c = refl
  unopened false b c = refl

  swap : (a b c : Bool) → ((a || b) || c) ≡ (b || (a && true || c))
  swap true true c = refl
  swap true false c = refl
  swap false true c = refl
  swap false false c = refl

  absorbed : (a b c d : Bool) → (a ≡ true → b ≡ true) → (b || d) ≡ (b || (a && c || d))
  absorbed a true c d h = refl
  absorbed true false c d h = cc (h refl)
  absorbed false false c d h = refl

  known :
      (name n : Bytes) (entries : List (Bytes × Seek)) (d : Bool) (seek : Seek)
      → lookup n entries ≡ some seek
      → (is_tailed name entries || d)
        ≡ (is_tailed name entries || (bytes_eq name n && tails n || d))
  known name n entries d seek e =
      absorbed (bytes_eq name n) (is_tailed name entries) (tails n) d
        (λ same. ap (λ k. is_tailed k entries) ((bytes_eq_iff name n).0 same) ∙ ap is_some e)

  -- `tailNewFiles` tails each of the files that the pattern finds and that opens, and leaves those
  -- that it tails already: afterwards a file is tailed exactly if it was before or if it is found
  -- and opens, and, where no file was tailed twice, none is.
  pub tail_files-tailed :
      (names : List Bytes) (t : Tail) (name : Bytes)
      → AreDistinct t.tailers
      → AreDistinct (tail_files tails names t).tailers
        × (is_tailed name (tail_files tails names t).tailers
            ≡ (is_tailed name t.tailers || opened tails names name))
  unfolding tail_files
  tail_files-tailed [] t name h = (h, or_false _)
  tail_files-tailed (n ∷ names) t name h = elim (Option-cases (lookup n t.tailers)) [
    | inr (seek, already) ↦
        let (distinct, same) = tail_files-tailed names t name h in
        let skips : tail_files tails (n ∷ names) t ≡ tail_files tails names t =
          simp (tail_files, already) refl in
        (
          subst (λ x. AreDistinct x.tailers) (sym skips) distinct,
          ap (λ x. is_tailed name x.tailers) skips ∙ same ∙ known name n t.tailers _ seek already,
        )
    | inl fresh ↦ elim (Bool-cases (tails n)) [
      | inr shut ↦
          let (distinct, same) = tail_files-tailed names t name h in
          let skips : tail_files tails (n ∷ names) t ≡ tail_files tails names t =
            simp (tail_files, fresh, shut) refl in
          (
            subst (λ x. AreDistinct x.tailers) (sym skips) distinct,
            ap (λ x. is_tailed name x.tailers) skips
                ∙ same
                ∙ simp shut (unopened (bytes_eq name n) _ _),
          )
      | inl opens ↦
          let t' = record t { tailers = (n, seek_of t n) ∷ t.tailers } in
          let new : is_tailed n t.tailers ≡ false = ap is_some fresh in
          let (distinct, same) = tail_files-tailed names t' name (new, h) in
          let adds : tail_files tails (n ∷ names) t ≡ tail_files tails names t' =
            simp (tail_files, fresh, opens) refl in
          (
            subst (λ x. AreDistinct x.tailers) (sym adds) distinct,
            ap (λ x. is_tailed name x.tailers) adds
                ∙ same
                ∙ ap (λ b. b || opened tails names name)
                    (tailed-cons name n (seek_of t n) t.tailers)
                ∙ simp opens (swap (bytes_eq name n) (is_tailed name t.tailers) _),
          )
    ]
  ]
