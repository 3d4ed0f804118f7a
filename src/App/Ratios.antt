-- ===== src/App/Ratios.antt =====
-- The ratios of the flags.
use httpdump.Base.{
  [], codes, index, bytes_eq, Option-cases, sym, ℕ, zero, suc, ◌+◌, ◌*◌, ◌/◌, ◌%◌, ◌≤◌, ◌<◌, ◌≡◌,
  inl, inr, refl, ap, ◌∙◌, false, ◌||◌, Option, some, ltb→le, Bytes, ℤ, pos, Bool-cases, arith,
}
use httpdump.App.{
  App, Ratio, not_positive, above_one, whole_part, fraction, process_dump_body, post_process,
}

-- A dump leaves the ratios.
process_dump_body-ratios :
    (atoi : Bytes → Option ℤ) (o : App)
    → ((process_dump_body atoi o).replay_n ≡ o.replay_n)
      × ((process_dump_body atoi o).replay_fraction ≡ o.replay_fraction)
unfolding process_dump_body
process_dump_body-ratios atoi o = elim (Bool-cases (bytes_eq o.dump_body [])) [
  | inl empty ↦ simp empty (refl, refl)
  | inr full ↦ elim (Option-cases (index o.dump_body (codes ":"))) [
    | inl nothing ↦ simp (process_dump_body, full, nothing) (refl, refl)
    | inr (p, found) ↦ simp (process_dump_body, full, found) (refl, refl)
  ]
]

divides : (r d : ℕ) → 0 < d → (r % d < d) × (r / d * d + r % d ≡ r)
divides r d h = (omega arith, grind arith)

-- The three ratios of a flag that is accepted.
bounded :
    (q : Ratio) (s : ℕ)
    → q.num ≡ pos s
    → (not_positive q || above_one q) ≡ false
    → (0 < s) × (s ≤ q.den)
unfolding not_positive above_one
bounded q zero e h = cc (simp e at h)
bounded q (suc s) e h = (omega arith, ltb→le _ _ (simp (above_one, e) at h))

above_zero : (q : Ratio) (r : ℕ) → q.num ≡ pos r → not_positive q ≡ false → 0 < r
unfolding not_positive
above_zero q zero e h = cc (simp e at h)
above_zero q (suc r) e h = omega arith

whole_of : (q : Ratio) (r : ℕ) → q.num ≡ pos r → whole_part q ≡ r / q.den
unfolding whole_part
whole_of q r e = simp (whole_part, e) refl

fraction_of :
    (q : Ratio) (r : ℕ) → q.num ≡ pos r → fraction q ≡ record { num = pos (r % q.den); den = q.den }
unfolding fraction
fraction_of q r e = simp (fraction, e) refl

-- What `PostProcess` accepts has a ratio in (0, 1] for the source and one above 0 for the replay,
-- which it takes apart without a loss: into a whole number of replays of every request, and a
-- fraction below 1 for one more.
pub post_process-ratios :
    (atoi : Bytes → Option ℤ) (o a : App) (s r : ℕ)
    → o.src_ratio.num ≡ pos s
    → o.replay_ratio.num ≡ pos r
    → 0 < o.replay_ratio.den
    → post_process atoi o ≡ some a
    → (0 < s)
      × (s ≤ o.src_ratio.den)
      × (0 < r)
      × (f : ℕ) × (a.replay_fraction ≡ record { num = pos f; den = o.replay_ratio.den })
      × (f < o.replay_ratio.den)
      × (a.replay_n * o.replay_ratio.den + f ≡ r)
unfolding post_process
post_process-ratios atoi o a s r hs hr h e =
    elim (Bool-cases (not_positive o.src_ratio || above_one o.src_ratio)) [
      | inl bad ↦ cc (simp bad at e)
      | inr good ↦ elim (Bool-cases (not_positive o.replay_ratio)) [
        | inl bad ↦ cc (simp (good, bad) at e)
        | inr positive ↦
            let o' = record o {
              replay_n = whole_part o.replay_ratio;
              replay_fraction = fraction o.replay_ratio;
            } in
            let same : process_dump_body atoi o' ≡ a = value_of (simp (good, positive) at e) in
            let (n_kept, f_kept) = process_dump_body-ratios atoi o' in
            let d = o.replay_ratio.den in
            let (small, exact) = divides r d h in
            let (s_low, s_high) = bounded o.src_ratio s hs good in
            let n_is : a.replay_n ≡ r / d =
              sym (ap (λ x. x.replay_n) same) ∙ n_kept ∙ whole_of o.replay_ratio r hr in
            (
              s_low,
              s_high,
              above_zero o.replay_ratio r hr positive,
              r % d,
              sym (ap (λ x. x.replay_fraction) same) ∙ f_kept ∙ fraction_of o.replay_ratio r hr,
              small,
              ap (λ n. n * d + r % d) n_is ∙ exact,
            )
      ]
    ]
  where
    value_of : {a b : App} → some a ≡ some b → a ≡ b
    value_of e = cc
