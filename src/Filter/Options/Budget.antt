-- ===== src/Filter/Options/Budget.antt =====
-- The budget `-n` of requests, and the filters by host and URI.
use httpdump.Base.{
  ℕ, zero, suc, ◌+◌, ◌-◌, ◌^◌, ◌≤◌, ◌<◌, ◌≡◌, ◌↔◌, ◌⊎◌, inl, inr, refl, sym, ap, ◌∙◌, min, true,
  not, ◌||◌, [], leb, if◌then◌else◌, Bytes, bytes_eq, bytes_eq_iff, ℤ, pos, negsuc, is_neg, is_pos,
  arith, Bool-cases,
}
use httpdump.Filter.Wildcard.Glob.{Glob}
use httpdump.Filter.Wildcard.Correct.{wildcard_match-Glob}
use httpdump.Filter.Options.{
  Options, matches, permits_uri, permits_host, pred32, reached_n, permit_n,
}

-- How many of `k` calls of `permitN` in turn permit, and the options afterwards.
unfoldable pub permitted : ℕ → Options → ℕ × Options
permitted zero o = (0, o)
permitted (suc k) o =
    let r = permit_n o in
    let rest = permitted k r.1 in ((if r.0 then suc rest.0 else rest.0), rest.1)

with_num : Options → ℤ → Options
with_num o z = record o { num = z }

permit_n_positive :
    (o : Options)
    → is_pos o.n ≡ true
    → permit_n o ≡ (not (is_neg (pred32 o.num)), with_num o (pred32 o.num))
unfolding permit_n with_num
permit_n_positive o p = rw p refl

-- `k` calls after the budget is used up.
exhausted :
    (k j : ℕ) (o : Options)
    → is_pos o.n ≡ true
    → j + k < 2 ^ 31
    → ((permitted k (with_num o (negsuc j))).0 ≡ 0)
      × ((permitted k (with_num o (negsuc j))).1 ≡ with_num o (negsuc (j + k)))
unfolding permitted with_num
exhausted zero j o p h = (refl, ap (λ z. with_num o (negsuc z)) (omega arith))
exhausted (suc k) j o p h =
    let (none_left, after) = exhausted k (suc j) o p (omega arith) in
    let down : pred32 (negsuc j) ≡ negsuc (suc j) = unfold pred32 in ground arith in
    simp (permitted, permit_n_positive (with_num o (negsuc j)) p, down)
      (none_left, after ∙ ap (λ z. with_num o (negsuc z)) (omega arith))

spent :
    (k b : ℕ) (o : Options)
    → is_pos o.n ≡ true
    → k < 2 ^ 31
    → ((permitted k (with_num o (pos b))).0 ≡ min b k)
      × ((permitted k (with_num o (pos b))).1
          ≡ with_num o (if leb k b then pos (b - k) else negsuc (k - b - 1)))
unfolding permitted with_num
spent zero b o p h = (ground arith, ap (with_num o) (ground arith))
spent (suc k) zero o p h =
    let (none_left, after) = exhausted k 0 o p (omega arith) in
    let down : pred32 (pos 0) ≡ negsuc 0 = unfold pred32 in refl in
    simp (permitted, permit_n_positive (with_num o (pos 0)) p, down)
      (none_left ∙ ground arith, after ∙ ap (with_num o) (ground arith))
spent (suc k) (suc b) o p h =
    let (some_left, after) = spent k b o p (omega arith) in
    let down : pred32 (pos (suc b)) ≡ pos b = unfold pred32 in refl in
    simp (permitted, permit_n_positive (with_num o (pos (suc b))) p, down)
      (ap suc some_left ∙ ground arith, after ∙ ap (with_num o) (ground arith))

-- With `-n N` for a positive N, of `k` requests in turn that reach `permitN` exactly the first N
-- are permitted, and `ReachedN` then holds exactly where `k` is at least N. The counter is int32:
-- `k` is below 2^31, so that it does not wrap round.
pub permit_n_budget :
    (k b : ℕ) (o : Options)
    → 1 ≤ b
    → k < 2 ^ 31
    → o.n ≡ pos b
    → o.num ≡ pos b
    → ((permitted k o).0 ≡ min b k) × ((reached_n (permitted k o).1).0 ≡ leb b k)
unfolding reached_n with_num
permit_n_budget k b o h less e e' =
    let same : with_num o (pos b) ≡ o = ap (λ z. record o { num = z }) (sym e') in
    let p : is_pos o.n ≡ true = ground arith in
    let (count, after) = spent k b o p less in
    (
      ap (λ x. (permitted k x).0) (sym same) ∙ count,
      ap (λ x. (reached_n (permitted k x).1).0) (sym same)
          ∙ ap (λ x. (reached_n x).0) after
          ∙ reached p,
    )
  where
    reached :
        is_pos o.n ≡ true
        → (reached_n (with_num o (if leb k b then pos (b - k) else negsuc (k - b - 1)))).0 ≡ leb b k
    reached p = elim (Bool-cases (leb k b)) [
      | inl le ↦ elim (Bool-cases (leb b k)) [
        | inl ge ↦
            let none_left : b - k ≡ 0 = ground arith in
            rw (le, ge, none_left, reached_n, with_num, p) refl
        | inr some_left ↦
            let more : b - k ≡ suc (b - k - 1) = ground arith in
            rw (le, some_left, more, reached_n, with_num, p) refl
      ]
      | inr gt ↦
          let all : leb b k ≡ true = ground arith in rw (gt, all, reached_n, with_num, p) refl
    ]

matches-Glob : (str pattern : Bytes) → (matches str pattern ≡ true) ↔ Glob pattern str
unfolding matches
matches-Glob str pattern = let (b, e, h) = wildcard_match-Glob str pattern in rw (matches, e) h

-- The filters by URI and by host permit everything where they are empty, and else exactly the texts
-- that match their pattern.
pub permits_uri-Glob :
    (o : Options) (uri host : Bytes)
    → ((permits_uri o uri ≡ true) ↔ ((o.uri ≡ []) ⊎ Glob o.uri uri))
      × ((permits_host o host ≡ true) ↔ ((o.host ≡ []) ⊎ Glob o.host host))
unfolding permits_uri permits_host
permits_uri-Glob o uri host = (either o.uri uri, either o.host host)
  where
    either : (p s : Bytes) → ((bytes_eq p [] || matches s p) ≡ true) ↔ ((p ≡ []) ⊎ Glob p s)
    either p s = elim (Bool-cases (bytes_eq p [])) [
      | inl e ↦ rw e ((λ h. inl ((bytes_eq_iff p []).0 e)), (λ h. refl))
      | inr ne ↦ rw ne (
        (λ h. inr ((matches-Glob s p).0 h)),
        (λ h. elim h [
          | inl empty ↦ absurd (ground (arith, bytes_eq_iff p []))
          | inr g ↦ (matches-Glob s p).1 g
        ]),
      )
    ]
