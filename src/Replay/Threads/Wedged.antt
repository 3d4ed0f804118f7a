-- ===== src/Replay/Threads/Wedged.antt =====
-- The call of `ReadPayloads` with a handler that may give an error: where it hangs.
use httpdump.Base.{
  ℕ, zero, suc, ◌≤◌, length, arith, ◌≡◌, ◌↔◌, inl, inr, refl, Bool, true, false, Option, none, some,
  List, [], ◌∷◌, Bytes, Option-cases,
}
use httpdump.Replay.Payload.{Msg, Options, Reading, consume_line, consume_lines}
use httpdump.Replay.Lines.{lines_of, unmoved, produce_payloads-small}
use httpdump.Replay.Threads.{
  receiving, returned, threads, hand, fail, shut, stop, Run, here, next, started, finished,
}

module _ {S : Type 0} (handler : S → Msg → Option S) (o : Options) where
  -- No line is left when a line makes the handler give an error.
  abbrev pub fails_late : List Bytes → Reading → S → Bool
  fails_late [] r s = true
  fails_late (x ∷ todo) r s = elim (consume_line handler o x r s) [
    | none ↦ (elim todo [ [] ↦ true | y ∷ ys ↦ false ])
    | some (r', s') ↦ fails_late todo r' s'
  ]

  -- Behind an error with lines left there is no step: the send of the next line waits for ever.
  wedged :
      (y : Bytes) (ys : List Bytes) (n : ℕ) (v : Option S)
      → Run handler o n (threads (y ∷ ys) false (returned none)) (finished handler o v)
      → ⊥
  unfolding finished
  wedged y ys zero v run = elim run [ ]
  wedged y ys (suc n) v (next st run) = elim st [ ]

  forth :
      (todo : List Bytes) (r : Reading) (s : S) (n : ℕ) (v : Option S)
      → Run handler o n (threads todo false (receiving r s)) (finished handler o v)
      → fails_late todo r s ≡ true
  unfolding finished
  forth [] r s n v run = refl
  forth (x ∷ todo) r s zero v run = elim run [ ]
  forth (x ∷ todo) r s (suc n) v (next (hand e) run) = simp (fails_late, e) (forth todo _ _ n v run)
  forth (x ∷ []) r s (suc n) v (next (fail e) run) = simp (fails_late, e) refl
  forth (x ∷ y ∷ todo) r s (suc n) v (next (fail e) run) = absurd (wedged y todo n v run)

  back :
      (todo : List Bytes) (r : Reading) (s : S)
      → fails_late todo r s ≡ true
      → (n : ℕ) × (v : Option S) × Run handler o n
          (threads todo false (receiving r s))
          (finished handler o v)
  unfolding finished
  back [] r s h = (2, consume_lines handler o [] r s, next shut (next stop here))
  back (x ∷ todo) r s h = elim (Option-cases (consume_line handler o x r s)) [
    | inl nothing ↦ last todo nothing (simp (fails_late, nothing) at h)
    | inr ((r', s'), e) ↦
        let (n, v, run) = back todo r' s' (simp (fails_late, e) at h) in
        (suc n, v, next (hand e) run)
  ]
    where
      last :
          (todo : List Bytes)
          → consume_line handler o x r s ≡ none
          → (elim todo [ [] ↦ true | y ∷ ys ↦ false ]) ≡ true
          → (n : ℕ) × (v : Option S) × Run handler o n
              (threads (x ∷ todo) false (receiving r s))
              (threads [] true (returned v))
      last [] e h = (2, none, next (fail e) (next shut here))
      last (y ∷ ys) e h = cc

  -- At a text of at most 2,048 bytes `ReadPayloads` can return exactly if no line is left to send
  -- when the handler gives an error: else no run of its goroutines, of any length, ends with both
  -- of them returned.
  pub read_payloads-returns :
      (text : Bytes) (s : S)
      → length text ≤ unmoved
      → ((n : ℕ) × (v : Option S) × Run handler o n
            (started handler o text s)
            (finished handler o v))
        ↔ (fails_late
              (lines_of text)
              (record { b = record { title = []; payload = [] }; started = false; last = [] })
              s
            ≡ true)
  unfolding started
  read_payloads-returns text s small =
      let sends = produce_payloads-small text (omega arith) in
      rw sends (λ (n, v, run). forth (lines_of text) _ s n v run, λ h. back (lines_of text) _ s h)
