-- ===== src/Replay/Serve/Suffix.antt =====
-- The suffixes of a file, `:tail` and `:poll`.
use httpdump.Base.{
  ℕ, ◌≡◌, inl, inr, refl, sym, ap, ◌∙◌, Bool, true, false, not, [], ◌∷◌, ◌++◌, if◌then◌else◌, ◌==◌,
  Bytes, codes, count_byte, has_prefix, bytes_eq, bytes_eq_refl, append-nil, arith, Bool-cases,
}
use httpdump.Replay.Serve.{Config, process_tail, process_glob, replace_from, replace_all, plan}

-- A text without the first byte of `old` is kept.
replace_from-plain :
    (a b : Bytes) (c : ℕ) (old new : Bytes)
    → count_byte a c ≡ 0
    → replace_from 0 (a ++ b) (c ∷ old) new ≡ a ++ replace_from 0 b (c ∷ old) new
unfolding count_byte replace_from
replace_from-plain [] b c old new h = refl
replace_from-plain (x ∷ a) b c old new h = elim (Bool-cases (x == c)) [
  | inl same ↦ absurd (ground arith)
  | inr other ↦
      let unlike : has_prefix (x ∷ (a ++ b)) (c ∷ old) ≡ false =
        unfold has_prefix in rw other refl in
      simp (replace_from, unlike)
        (ap (λ l. x ∷ l) (replace_from-plain a b c old new (ground arith)))
]

abbrev tail : Bytes
tail = codes ":tail"

abbrev poll : Bytes
poll = codes ":poll"

-- What `replace_all` leaves of a text that is known behind a front without a colon.
cut :
    (a b : Bytes) (old left : Bytes)
    → count_byte a 58 ≡ 0
    → replace_from 0 b (58 ∷ old) [] ≡ left
    → replace_all (a ++ b) (58 ∷ old) [] ≡ a ++ left
unfolding replace_all
cut a b old left h e = replace_from-plain a b 58 old [] h ∙ ap (λ l. a ++ l) e

-- The two suffixes behind such a front.
module _ (a : Bytes) (plain : count_byte a 58 ≡ 0) where
  kept : (old : Bytes) → replace_all a (58 ∷ old) [] ≡ a
  unfolding replace_from
  kept old =
      ap (λ l. replace_all l (58 ∷ old) []) (sym (append-nil a))
      ∙ cut a [] old [] plain refl
      ∙ append-nil a

  untailed : replace_all (a ++ tail) tail [] ≡ a
  unfolding replace_from has_prefix
  untailed = cut a tail (codes "tail") [] plain refl ∙ append-nil a

  unpolled : replace_all (a ++ poll) poll [] ≡ a
  unfolding replace_from has_prefix
  unpolled = cut a poll (codes "poll") [] plain refl ∙ append-nil a

  poll_kept : replace_all (a ++ poll) tail [] ≡ a ++ poll
  unfolding replace_from has_prefix
  poll_kept = cut a poll (codes "tail") poll plain refl

  both : replace_all (a ++ (tail ++ poll)) tail [] ≡ a ++ poll
  unfolding replace_from has_prefix
  both = cut a (tail ++ poll) (codes "tail") poll plain refl

not-same : (a : Bytes) (x : ℕ) (b : Bytes) → bytes_eq a (a ++ x ∷ b) ≡ false
unfolding bytes_eq
not-same [] x b = refl
not-same (y ∷ a) x b = ground (arith, not-same a x b)

not-empty : (a : Bytes) (x : ℕ) (b : Bytes) → bytes_eq (a ++ x ∷ b) [] ≡ false
unfolding bytes_eq
not-empty [] x b = refl
not-empty (y ∷ a) x b = refl

shorter : (a : Bytes) → bytes_eq (a ++ poll) (a ++ (tail ++ poll)) ≡ false
unfolding bytes_eq
shorter [] = refl
shorter (y ∷ a) = ground (arith, shorter a)

module _ (is_dir : Bytes → Bool) (c : Config) (a : Bytes) where
  planned :
      (file untailed left : Bytes)
      → bytes_eq file [] ≡ false
      → replace_all file tail [] ≡ untailed
      → replace_all untailed poll [] ≡ left
      → is_dir left ≡ false
      → (plan is_dir (record c { file = file })).0 ≡ (
          if not (bytes_eq untailed file)
          then process_tail left (not (bytes_eq left untailed))
          else process_glob left)
  unfolding plan
  planned file untailed left some_file e e' here =
      elim (Bool-cases (not (bytes_eq untailed file))) [
        | inl tailed ↦ simp (plan, some_file, e, e', here, tailed) refl
        | inr same ↦ simp (plan, some_file, e, e', here, same) refl
      ]

  -- The suffixes of a file are taken off, and choose what is done with it: of a file with no colon
  -- in its name, which is no directory, `:tail` follows it, `:tail:poll` follows it by polling, and
  -- without `:tail` it is read as a pattern, whatever `:poll` says.
  pub plan-suffix :
      bytes_eq a [] ≡ false
      → count_byte a 58 ≡ 0
      → is_dir a ≡ false
      → ((plan is_dir (record c { file = a })).0 ≡ process_glob a)
        × ((plan is_dir (record c { file = a ++ tail })).0 ≡ process_tail a false)
        × ((plan is_dir (record c { file = a ++ poll })).0 ≡ process_glob a)
        × ((plan is_dir (record c { file = a ++ (tail ++ poll) })).0 ≡ process_tail a true)
  plan-suffix some_file plain here = (
    planned a a a some_file (kept a plain _) (kept a plain _) here ∙ simp (bytes_eq_refl a) refl,
    planned (a ++ tail) a a (not-empty a 58 _) (untailed a plain) (kept a plain _) here
        ∙ simp (not-same a 58 (codes "tail"), bytes_eq_refl a) refl,
    planned (a ++ poll) (a ++ poll) a (not-empty a 58 _) (poll_kept a plain) (unpolled a plain) here
        ∙ simp (bytes_eq_refl (a ++ poll)) refl,
    planned (a ++ (tail ++ poll)) (a ++ poll) a (not-empty a 58 _) (both a plain) (unpolled a plain)
          here
        ∙ simp (shorter a, not-same a 58 (codes "poll")) refl,
  )
