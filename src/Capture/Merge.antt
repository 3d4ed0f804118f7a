-- ===== src/Capture/Merge.antt =====
-- `mergeChannel` of util/pcap.go: one goroutine for each channel, which hands its packets on. What
-- has come out is paired with the number of its channel.
use httpdump.Base.{
  ℕ, zero, suc, ◌<◌, ◌≡◌, inl, inr, refl, sym, ap, ◌∙◌, some, List, [], ◌∷◌, ◌++◌, append-nil,
  append_assoc, if◌then◌else◌, ◌==◌, length, get_elem?, get_or, set, get_or-set, length-set, subst,
  ==_iff, Bool-cases, arith,
}

-- The packets that each channel has still to give, and what has come out.
pub record Merging (A : Type 0) : Type 0 where
  pub inputs : List (List A)
  pub out : List (ℕ × A)

-- A goroutine hands on the next packet of its channel.
unfoldable pub hand_on : {A : Type 0} → ℕ → A → List A → Merging A → Merging A
hand_on i p ps m = record { inputs = set m.inputs i ps; out = m.out ++ (i, p) ∷ [] }

pub data Forward {A : Type 0} : Merging A → Merging A → Type 0 where
  forward :
      {m : Merging A} (i : ℕ) (p : A) (ps : List A)
      → get_elem? m.inputs i ≡ some (p ∷ ps)
      → Forward m (hand_on i p ps m)

unfoldable pub merge_channel : {A : Type 0} → List (List A) → Merging A
merge_channel channels = record { inputs = channels; out = [] }

pub data Merged {A : Type 0} (start : List (List A)) : Merging A → Type 0 where
  none_yet : Merged start (merge_channel start)
  one_more : {m m' : Merging A} → Merged start m → Forward m m' → Merged start m'

-- What has come out of the channel `i`.
abbrev pub project : {A : Type 0} → ℕ → List (ℕ × A) → List A
project i [] = []
project i ((j, p) ∷ out) = if j == i then p ∷ project i out else project i out

module _ {A : Type 0} where
  project-append :
      (i : ℕ) (xs ys : List (ℕ × A)) → project i (xs ++ ys) ≡ project i xs ++ project i ys
  project-append i [] ys = refl
  project-append i ((j, p) ∷ xs) ys = elim (Bool-cases (j == i)) [
    | inl same ↦ simp same (ap (λ l. p ∷ l) (project-append i xs ys))
    | inr other ↦ simp other (project-append i xs ys)
  ]

  get_or-elem :
      (xs : List (List A)) (i : ℕ) (x : List A) → get_elem? xs i ≡ some x → get_or xs i [] ≡ x
  get_or-elem [] i x e = cc
  get_or-elem (y ∷ xs) zero x e = cc
  get_or-elem (y ∷ xs) (suc i) x e = get_or-elem xs i x e

  abbrev Holds : List (List A) → ℕ → Merging A → Type 0
  Holds start i m =
      (project i m.out ++ get_or m.inputs i [] ≡ get_or start i [])
      × (length m.inputs ≡ length start)

  hand_on-Holds :
      (start : List (List A)) (i : ℕ) (m : Merging A) (j : ℕ) (p : A) (ps : List A)
      → i < length start
      → get_elem? m.inputs j ≡ some (p ∷ ps)
      → Holds start i m
      → Holds start i (hand_on j p ps m)
  unfolding hand_on
  hand_on-Holds start i m j p ps inside e (whole, size) =
      let written = get_or-set m.inputs j i ps [] (omega arith) in
      let split = project-append i m.out ((j, p) ∷ []) in
      let size' : length (set m.inputs j ps) ≡ length start = length-set m.inputs j ps ∙ size in
      elim (Bool-cases (j == i)) [
        | inl same ↦
            let there : get_or m.inputs i [] ≡ p ∷ ps =
              subst (λ k. get_or m.inputs k [] ≡ p ∷ ps) ((==_iff j i).0 same)
                (get_or-elem m.inputs j (p ∷ ps) e) in
            (
              simp (split, written, same)
                  (append_assoc (project i m.out) (p ∷ []) ps
                    ∙ ap (λ l. project i m.out ++ l) (sym there)
                    ∙ whole),
              size',
            )
        | inr other ↦ (simp (split, written, other, append-nil (project i m.out)) whole, size')
      ]

  -- Whatever the order in which the goroutines run, the merged channel gives the packets of each
  -- channel in their order, each once, and none that no channel gave: what has come out of a
  -- channel and what it has still to give are together what it gives.
  pub Merged-order :
      (start : List (List A)) (m : Merging A) (i : ℕ)
      → i < length start
      → Merged start m
      → (project i m.out ++ get_or m.inputs i [] ≡ get_or start i [])
        × (length m.inputs ≡ length start)
  Merged-order start m i inside none_yet = unfold merge_channel in (refl, refl)
  Merged-order start m i inside (one_more r (forward j p ps e)) =
      hand_on-Holds start i _ j p ps inside e (Merged-order start _ i inside r)
