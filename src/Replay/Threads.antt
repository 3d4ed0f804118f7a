-- ===== src/Replay/Threads.antt =====
-- `ReadPayloads` of replay/payload.go: two goroutines, `ProducePayloads` and `ConsumePayloadLines`,
-- and the channel without a buffer between them. A step is a line handed over, the close of the
-- channel, or the end of the loop that reads it; `Wait` returns when both have returned.
pub mod Ends
pub mod Wedged
use httpdump.Base.{
  ℕ, suc, ◌+◌, ◌≤◌, ◌<◌, ◌≡◌, ◌≢◌, ◌↔◌, inl, inr, refl, sym, ap, ◌∙◌, subst, Bool, true, false,
  Option, none, some, List, [], ◌∷◌, ◌⊎◌, length, Bytes, arith, Option-cases, Bool-cases, ltb, not,
  ◌&&◌, ◌||◌, if◌then◌else◌,
}
use httpdump.Replay.Payload.{
  Msg, Options, Reading, consume_line, consume_lines, consume_payload_lines, try_parse_payload,
  holds, is_nil,
}
use httpdump.Replay.Lines.{produce_payloads}

-- `ConsumePayloadLines`: in its loop, or returned with its error (`none`) or without.
pub data Consumer (S : Type 0) : Type 0 where
  receiving : Reading → S → Consumer S
  returned : Option S → Consumer S

-- The lines that `ProducePayloads` has not sent, whether it has closed the channel, and the
-- consumer.
pub data Threads (S : Type 0) : Type 0 where
  threads : List Bytes → Bool → Consumer S → Threads S

-- What `Wait` gives: nothing while a goroutine runs, else whether one of them returned an error.
unfoldable pub wait : {S : Type 0} → Bytes → Threads S → Option Bool
wait text (threads [] true (returned none)) = some true
wait text (threads [] true (returned (some s))) = some (produce_payloads text).1
wait text t = none

module _ {S : Type 0} (handler : S → Msg → Option S) (o : Options) where
  pub data Step : Threads S → Threads S → Type 0 where
    hand :
        {x : Bytes} {todo : List Bytes} {r r' : Reading} {s s' : S}
        → consume_line handler o x r s ≡ some (r', s')
        → Step (threads (x ∷ todo) false (receiving r s)) (threads todo false (receiving r' s'))
    fail :
        {x : Bytes} {todo : List Bytes} {r : Reading} {s : S}
        → consume_line handler o x r s ≡ none
        → Step (threads (x ∷ todo) false (receiving r s)) (threads todo false (returned none))
    shut : {c : Consumer S} → Step (threads [] false c) (threads [] true c)
    stop :
        {r : Reading} {s : S}
        → Step
            (threads [] true (receiving r s))
            (threads [] true (returned (consume_lines handler o [] r s)))

  pub data Run : ℕ → Threads S → Threads S → Type 0 where
    here : {t : Threads S} → Run 0 t t
    next : {n : ℕ} {t u v : Threads S} → Step t u → Run n u v → Run (suc n) t v

  -- The state at the start of the call.
  unfoldable pub started : Bytes → S → Threads S
  started text s =
      threads (produce_payloads text).0 false (
        receiving (record { b = record { title = []; payload = [] }; started = false; last = [] })
          s)

  -- Both goroutines have returned, the consumer with `v`.
  unfoldable pub finished : Option S → Threads S
  finished v = threads [] true (returned v)

  -- What the consumer comes to from here, if it is given the lines that are left.
  abbrev pub outcome : List Bytes → Consumer S → Option S
  outcome todo (receiving r s) = consume_lines handler o todo r s
  outcome todo (returned v) = v

  abbrev pub outcome_of : Threads S → Option S
  outcome_of (threads todo closed c) = outcome todo c

  abbrev pub rounds : Consumer S → ℕ
  rounds (receiving r s) = 1
  rounds (returned v) = 0

  abbrev pub gate : Bool → ℕ
  gate true = 0
  gate false = 1

  -- How many steps a state has left at most.
  abbrev pub left : Threads S → ℕ
  left (threads todo closed c) = length todo + gate closed + rounds c

  pub Step-outcome : {t u : Threads S} → Step t u → outcome_of t ≡ outcome_of u
  unfolding consume_lines
  Step-outcome (hand e) = simp (consume_lines, e) refl
  Step-outcome (fail e) = simp (consume_lines, e) refl
  Step-outcome shut = refl
  Step-outcome stop = refl

  pub Step-left : {t u : Threads S} → Step t u → left u < left t
  Step-left (hand e) = omega arith
  Step-left (fail e) = omega arith
  Step-left shut = omega arith
  Step-left stop = omega arith

  pub Run-outcome : {n : ℕ} {t u : Threads S} → Run n t u → outcome_of t ≡ outcome_of u
  Run-outcome here = refl
  Run-outcome (next st r) = Step-outcome st ∙ Run-outcome r

  pub Run-left : {n : ℕ} {t u : Threads S} → Run n t u → n + left u ≤ left t
  Run-left here = omega arith
  Run-left (next st r) = omega (arith, Step-left st, Run-left r)
