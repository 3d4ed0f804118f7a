-- ===== src/Replay/Threads/Ends.antt =====
-- The call of `ReadPayloads` with a handler that gives no error: it ends.
use httpdump.Base.{
  ℕ, suc, ◌+◌, ◌≤◌, ◌≡◌, ◌≢◌, inl, inr, refl, sym, subst, ap, ◌∙◌, Bool, true, false, Option, none,
  some, List, [], ◌∷◌, length, Bytes, arith, Option-cases, Bool-cases, ltb, not, ◌&&◌, ◌||◌,
  if◌then◌else◌,
}
use httpdump.Replay.Payload.{
  Msg, Options, Reading, consume_line, consume_lines, consume_payload_lines, try_parse_payload,
  holds, is_nil,
}
use httpdump.Replay.Lines.{lines_of, unmoved, produce_payloads-small}
use httpdump.Replay.Threads.{
  Consumer, receiving, returned, Threads, threads, Step, hand, fail, shut, stop, Run, here, next,
  wait, started, finished, outcome, Run-outcome, Run-left,
}

-- The states that a handler without errors comes to: the consumer is in its loop until the channel
-- is closed, which it is when the lines are sent.
abbrev IsLive : {S : Type 0} → Threads S → Type 0
IsLive (threads todo true c) = todo ≡ []
IsLive (threads todo false (receiving r s)) = Unit
IsLive (threads todo false (returned v)) = ⊥

module _ {S : Type 0} (handler : S → Msg → Option S) (o : Options)
    (total : (s : S) (m : Msg) → (s' : S) × (handler s m ≡ some s')) where
  parsed : (b : Msg) (s : S) → (s' : S) × (try_parse_payload handler b s ≡ some s')
  unfolding try_parse_payload
  parsed b s = elim (Bool-cases (ltb 0 (length b.payload))) [
    | inl more ↦ let (s', e) = total s b in (s', simp (try_parse_payload, more, e) refl)
    | inr empty ↦ (s, simp (try_parse_payload, empty) refl)
  ]

  guarded :
      (test : Bool) (b : Msg) (s : S)
      → (s' : S) × ((if test then try_parse_payload handler b s else some s) ≡ some s')
  guarded true b s = parsed b s
  guarded false b s = (s, refl)

  consume_line-some : (x : Bytes) (r : Reading) (s : S) → consume_line handler o x r s ≢ none
  unfolding consume_line
  consume_line-some x r s h = elim (Bool-cases (holds o.starter x)) [
    | inl begins ↦
        let (s', e) = guarded (r.started && is_nil o.terminator) r.b s in
        cc (simp (consume_line, begins, e) at h)
    | inr goes ↦ elim (Bool-cases (holds o.terminator x)) [
      | inl ends ↦
          let (s', e) = guarded (is_nil o.starter || r.started) r.b s in
          cc (simp (consume_line, goes, ends, e) at h)
      | inr on ↦ elim (Bool-cases (r.started || not (is_nil o.terminator))) [
        | inl writes ↦ cc (simp (consume_line, goes, on, writes) at h)
        | inr skips ↦ cc (simp (consume_line, goes, on, skips) at h)
      ]
    ]
  ]

  consumed :
      (x : Bytes) (r : Reading) (s : S)
      → (q : Reading × S) × (consume_line handler o x r s ≡ some q)
  consumed x r s = elim (Option-cases (consume_line handler o x r s)) [
    | inl nothing ↦ absurd (consume_line-some x r s nothing)
    | inr found ↦ found
  ]

  Step-IsLive : {t u : Threads S} → Step handler o t u → IsLive t → IsLive u
  Step-IsLive (hand e) h = tt
  Step-IsLive (fail {x = x} {r = r} {s = s} e) h = let (q, e') = consumed x r s in cc
  Step-IsLive (shut {c = receiving r s}) h = refl
  Step-IsLive (shut {c = returned v}) h = refl
  Step-IsLive stop h = refl

  Run-IsLive : {n : ℕ} {t u : Threads S} → Run handler o n t u → IsLive t → IsLive u
  Run-IsLive here h = h
  Run-IsLive (next st r) h = Run-IsLive r (Step-IsLive st h)

  finishes :
      (todo : List Bytes) (closed : Bool) (c : Consumer S)
      → IsLive (threads todo closed c)
      → (m : ℕ) × Run handler o m
          (threads todo closed c)
          (finished handler o (outcome handler o todo c))
  unfolding finished consume_lines
  finishes [] true (receiving r s) h = (1, next stop here)
  finishes [] true (returned v) h = (0, here)
  finishes (x ∷ todo) true c h = cc
  finishes [] false (receiving r s) h = (2, next shut (next stop here))
  finishes todo false (returned v) h = absurd h
  finishes (x ∷ todo) false (receiving r s) h =
      let ((r', s'), e) = consumed x r s in
      let (m, run) = finishes todo false (receiving r' s') tt in
      let same : consume_lines handler o (x ∷ todo) r s ≡ consume_lines handler o todo r' s' =
        simp (consume_lines, e) refl in
      (
        suc m,
        next (hand e) (
            subst
              (λ v. Run handler o m (threads todo false (receiving r' s')) (finished handler o v))
              (sym same) run),
      )

  consume_lines-some :
      (lines : List Bytes) (r : Reading) (s : S)
      → (s' : S) × (consume_lines handler o lines r s ≡ some s')
  unfolding consume_lines
  consume_lines-some [] r s = guarded (r.started && is_nil o.terminator) r.b s
  consume_lines-some (x ∷ lines) r s =
      let ((r', s'), e) = consumed x r s in
      let (u, e') = consume_lines-some lines r' s' in (u, simp (consume_lines, e) e')

  -- With a handler that gives no error and a text of at most 2,048 bytes, `ReadPayloads` always
  -- comes to its end: from every state that its two goroutines reach, in whatever order they take
  -- their steps, a run leads to the state in which both have returned, with the result of
  -- `ConsumePayloadLines` on the lines of the text and without an error. No run is longer than two
  -- steps more than the text has lines.
  pub read_payloads-ends :
      (text : Bytes) (s : S) (n : ℕ) (t : Threads S)
      → length text ≤ unmoved
      → Run handler o n (started handler o text s) t
      → (n ≤ length (lines_of text) + 2)
        × (s' : S) × (m : ℕ) × (consume_payload_lines handler o (lines_of text) s ≡ some s')
        × Run handler o m t (finished handler o (some s'))
        × (wait text (finished handler o (some s')) ≡ some false)
  unfolding started consume_payload_lines wait finished
  read_payloads-ends text s n (threads todo closed c) small run =
      let sends = produce_payloads-small text (omega arith) in
      let run' = rw sends at run in
      let (m, on) = finishes todo closed c (Run-IsLive run' tt) in
      let (s', ends) = consume_lines-some (lines_of text) _ s in
      (
        omega (arith, Run-left handler o run'),
        s',
        m,
        ends,
        subst (λ v. Run handler o m (threads todo closed c) (finished handler o v))
            (sym (Run-outcome handler o run') ∙ ends) on,
        ap (λ x. some x.1) sends,
      )
