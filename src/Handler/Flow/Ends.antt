-- ===== src/Handler/Flow/Ends.antt =====
-- The goroutine of a stream returns, with what the loop over all packets gives.
use httpdump.Base.{
  ℕ, suc, ◌+◌, ◌*◌, ◌≤◌, ◌<◌, ◌≡◌, ◌⊎◌, inl, inr, refl, sym, subst, ap, ◌∙◌, Bool, true, false,
  List, [], ◌∷◌, ◌++◌, append_assoc, length, length-append, Go, ok, panic, ◌>>=◌, arith,
}
use httpdump.Handler.Flow.{
  Worker, reading, returned, Flow, flow, Loop, Step, send, close, receive, leave, crash, stop, Run,
  here, next, drain,
}

module _ {P V B : Type 0} (capacity : ℕ) (loop : Loop P V B) where
  abbrev outcome : Flow P V B → Go B
  outcome (flow todo closed queue (reading v)) = drain loop (queue ++ todo) v
  outcome (flow todo closed queue (returned r)) = r

  abbrev gate : Bool → ℕ
  gate true = 0
  gate false = 1

  abbrev rounds : Worker V B → ℕ
  rounds (reading v) = 1
  rounds (returned r) = 0

  abbrev left : Flow P V B → ℕ
  left (flow todo closed queue w) = 2 * length todo + gate closed + length queue + rounds w

  Step-outcome : {t u : Flow P V B} → Step capacity loop t u → outcome t ≡ outcome u
  unfolding drain
  Step-outcome (send {p = p} {todo = todo} {queue = queue} {w = reading v} h) =
      ap (λ l. drain loop l v) (sym (append_assoc queue (p ∷ []) todo))
  Step-outcome (send {w = returned r} h) = refl
  Step-outcome (close {w = reading v}) = refl
  Step-outcome (close {w = returned r}) = refl
  Step-outcome (receive e) = simp (e, ◌>>=◌) refl
  Step-outcome (leave e) = simp (e, ◌>>=◌) refl
  Step-outcome (crash e) = simp (e, ◌>>=◌) refl
  Step-outcome stop = refl

  Step-left : {t u : Flow P V B} → Step capacity loop t u → left u < left t
  Step-left (send {p = p} {queue = queue} h) = omega (arith, length-append queue (p ∷ []))
  Step-left close = omega arith
  Step-left (receive e) = omega arith
  Step-left (leave e) = omega arith
  Step-left (crash e) = omega arith
  Step-left stop = omega arith

  Run-outcome : {n : ℕ} {t u : Flow P V B} → Run capacity loop n t u → outcome t ≡ outcome u
  Run-outcome here = refl
  Run-outcome (next st r) = Step-outcome st ∙ Run-outcome r

  Run-left : {n : ℕ} {t u : Flow P V B} → Run capacity loop n t u → n + left u ≤ left t
  Run-left here = omega arith
  Run-left (next st r) = omega (arith, Step-left st, Run-left r)

  -- A closed channel has nothing still to be sent.
  abbrev IsOpen : Flow P V B → Type 0
  IsOpen (flow todo true queue w) = todo ≡ []
  IsOpen (flow todo false queue w) = Unit

  Step-IsOpen : {t u : Flow P V B} → Step capacity loop t u → IsOpen t → IsOpen u
  Step-IsOpen (send h) o = tt
  Step-IsOpen close o = refl
  Step-IsOpen (receive {closed = true} e) o = o
  Step-IsOpen (receive {closed = false} e) o = tt
  Step-IsOpen (leave {closed = true} e) o = o
  Step-IsOpen (leave {closed = false} e) o = tt
  Step-IsOpen (crash {closed = true} e) o = o
  Step-IsOpen (crash {closed = false} e) o = tt
  Step-IsOpen stop o = refl

  Run-IsOpen : {n : ℕ} {t u : Flow P V B} → Run capacity loop n t u → IsOpen t → IsOpen u
  Run-IsOpen here o = o
  Run-IsOpen (next st r) o = Run-IsOpen r (Step-IsOpen st o)

  -- The goroutine has returned with `r`, whatever the channel holds.
  abbrev pub Comes : Flow P V B → Go B → Type 0
  Comes t r =
      (n : ℕ) × (todo : List P) × (closed : Bool) × (queue : List P) × Run capacity loop n t
        (flow todo closed queue (returned r))

  before : {t u : Flow P V B} {r : Go B} → Step capacity loop t u → Comes u r → Comes t r
  before st (n, todo, closed, queue, run) = (suc n, todo, closed, queue, next st run)

  -- A packet that the channel holds is received.
  received :
      (p : P) (todo queue : List P) (closed : Bool) (v : V)
      → ((v' : V) → Comes (flow todo closed queue (reading v')) (drain loop (queue ++ todo) v'))
      → Comes (flow todo closed (p ∷ queue) (reading v)) (drain loop (p ∷ (queue ++ todo)) v)
  unfolding drain
  received p todo queue closed v rest = go (loop.pass v p) refl
    where
      go :
          (m : Go (V ⊎ B))
          → loop.pass v p ≡ m
          → Comes (flow todo closed (p ∷ queue) (reading v)) (
              loop.pass v p >>= λ r. elim r [
                | inl v' ↦ drain loop (queue ++ todo) v'
                | inr b ↦ ok b
              ])
      go panic e = rw e (1, todo, closed, queue, next (crash e) here)
      go (ok (inr b)) e = rw e (1, todo, closed, queue, next (leave e) here)
      go (ok (inl v')) e = rw e (before (receive e) (rest v'))

  emptied :
      (todo : List P) (closed : Bool) (v : V)
      → 0 < capacity
      → IsOpen (flow todo closed [] (reading v))
      → Comes (flow todo closed [] (reading v)) (drain loop todo v)
  unfolding drain
  emptied [] true v h o = (1, [], true, [], next stop here)
  emptied [] false v h o = (2, [], true, [], next close (next stop here))
  emptied (p ∷ todo) true v h o = cc
  emptied (p ∷ todo) false v h o =
      before (send h) (received p todo [] false v (λ v'. emptied todo false v' h tt))

  comes :
      (queue todo : List P) (closed : Bool) (v : V)
      → 0 < capacity
      → IsOpen (flow todo closed queue (reading v))
      → Comes (flow todo closed queue (reading v)) (drain loop (queue ++ todo) v)
  comes [] todo closed v h o = emptied todo closed v h o
  comes (p ∷ queue) todo true v h o =
      received p todo queue true v (λ v'. comes queue todo true v' h o)
  comes (p ∷ queue) todo false v h o =
      received p todo queue false v (λ v'. comes queue todo false v' h o)

  pub Run-Comes :
      (packets : List P) (v : V) (n : ℕ) (t : Flow P V B)
      → 0 < capacity
      → Run capacity loop n (flow packets false [] (reading v)) t
      → (n ≤ 2 * length packets + 2) × Comes t (drain loop packets v)
  Run-Comes packets v n (flow todo closed queue (reading v')) h run = (
    omega (arith, Run-left run),
    subst (Comes (flow todo closed queue (reading v'))) (sym (Run-outcome run))
        (comes queue todo closed v' h (Run-IsOpen run tt)),
  )
  Run-Comes packets v n (flow todo closed queue (returned r)) h run = (
    omega (arith, Run-left run),
    subst (Comes (flow todo closed queue (returned r))) (sym (Run-outcome run))
        (0, todo, closed, queue, here),
  )
