-- ===== src/Handler/Fast/Group.antt =====
-- The wait group of the fast handler.
use httpdump.Base.{
  ℕ, zero, suc, ◌-◌, ◌<◌, ◌≡◌, ◌≢◌, ◌↔◌, inl, inr, refl, ap, subst, true, List, [], ◌∷◌, length,
  ltb, leb, ok, ok_of, panic, Bool-cases, arith,
}
use httpdump.Handler.Fast.{Reader, Fast, new_fast, handle, drop_at, reader_done, finish_returns}

-- What happens to a handler: a connection is given to it, or one of its goroutines returns.
pub data Event (resp : ℕ) : Fast → Fast → Type 0 where
  given : {h : Fast} → Event resp h (handle resp h)
  stopped : {h h' : Fast} (i : ℕ) → i < length h.running → reader_done i h ≡ ok h' → Event resp h h'

pub data Reached (resp : ℕ) : Fast → Type 0 where
  start : Reached resp new_fast
  after : {h h' : Fast} → Reached resp h → Event resp h h' → Reached resp h'

length-drop_at : (i : ℕ) (rs : List Reader) → i < length rs → length (drop_at i rs) ≡ length rs - 1
unfolding drop_at
length-drop_at i [] h = absurd (omega arith)
length-drop_at zero (r ∷ rs) h = omega arith
length-drop_at (suc i) (r ∷ rs) h = omega (arith, length-drop_at i rs (omega arith))

abbrev Counts : Fast → Type 0
Counts h = h.wg ≡ length h.running

handle-Counts : (resp : ℕ) (h : Fast) → Counts h → Counts (handle resp h)
unfolding handle
handle-Counts resp h e = elim (Bool-cases (ltb 0 resp)) [
  | inl both ↦ simp both (omega arith)
  | inr one ↦ simp one (omega arith)
]

reader_done-Counts :
    (i : ℕ) (h h' : Fast) → i < length h.running → Counts h → reader_done i h ≡ ok h' → Counts h'
unfolding reader_done
reader_done-Counts i h h' inside e done = elim (Bool-cases (leb h.wg 0)) [
  | inl empty ↦ absurd (ground arith)
  | inr more ↦
      let same : record h { wg = h.wg - 1; running = drop_at i h.running } ≡ h' =
        ok_of (simp more at done) in
      subst Counts same (omega (arith, length-drop_at i h.running inside))
]

Reached-Counts : {resp : ℕ} {h : Fast} → Reached resp h → Counts h
Reached-Counts start = unfold new_fast in refl
Reached-Counts {resp} (after r given) = handle-Counts resp _ (Reached-Counts r)
Reached-Counts (after r (stopped i inside done)) =
    reader_done-Counts i _ _ inside (Reached-Counts r) done

-- In whatever order connections come and goroutines return, the wait group counts the goroutines
-- that run: no `Done` takes it below 0, and `finish` returns exactly if every goroutine has
-- returned.
pub Reached-finish :
    (resp : ℕ) (h : Fast)
    → Reached resp h
    → ((i : ℕ) → i < length h.running → reader_done i h ≢ panic)
      × ((finish_returns h ≡ true) ↔ (h.running ≡ []))
unfolding finish_returns reader_done
Reached-finish resp h r =
    let e = Reached-Counts r in
    (
      λ i inside p. elim (Bool-cases (leb h.wg 0)) [
        | inl empty ↦ absurd (ground arith)
        | inr more ↦ cc (simp more at p)
      ],
      (λ z. empty_of h.running (ground arith), λ z. let z' = ap length z in ground arith),
    )
  where
    empty_of : (rs : List Reader) → length rs ≡ 0 → rs ≡ []
    empty_of [] z = refl
    empty_of (r ∷ rs) z = absurd (omega arith)
