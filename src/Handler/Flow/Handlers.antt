-- ===== src/Handler/Flow/Handlers.antt =====
-- handleRequest and handleResponse return, whatever the order of the steps on their channels.
use httpdump.Base.{
  ℕ, ◌+◌, ◌*◌, ◌≤◌, ◌<◌, ◌≡◌, inl, inr, refl, sym, subst, false, List, [], ◌∷◌, if◌then◌else◌,
  length, Bytes, Go, ok, panic, ◌>>=◌, Bool-cases,
}
use httpdump.Filter.Options.{reached_n}
use httpdump.Handler.Base.{Env, Base}
use httpdump.Handler.Loop.{
  Requests, Responses, take_request, take_response, handle_requests, handle_request,
  handle_responses, handle_response,
}
use httpdump.Handler.Flow.{
  reading, Flow, flow, Run, drain, request_next, request_loop, response_next, response_loop,
}
use httpdump.Handler.Flow.Ends.{Comes, Run-Comes}

-- The loops of the handler are loops over a channel.
handle_requests-drain :
    (env : Env) (t : ℕ) (packets : List Bytes) (v : Requests)
    → handle_requests env t packets v ≡ drain (request_loop env t) packets v
unfolding handle_requests drain request_loop request_next
handle_requests-drain env t [] v = refl
handle_requests-drain env t (p ∷ packets) v =
    go (take_request env t v p) (λ w. handle_requests-drain env t packets w)
  where
    go :
        (m : Go Requests)
        → ((w : Requests) → handle_requests env t packets w ≡ drain (request_loop env t) packets w)
        → (m >>= λ w.
            (let reached = reached_n w.base.option in
              let h = record w.base { option = reached.1 } in
              if reached.0 then ok h else handle_requests env t packets (record w { base = h })))
          ≡ (m >>= request_next >>= λ r. elim r [
            | inl v' ↦ drain (request_loop env t) packets v'
            | inr b ↦ ok b
          ])
    go panic ih = refl
    go (ok w) ih = elim (Bool-cases (reached_n w.base.option).0) [
      | inl full ↦ simp full refl
      | inr more ↦ simp more (ih _)
    ]

handle_responses-drain :
    (env : Env) (t : ℕ) (packets : List Bytes) (v : Responses)
    → handle_responses env t packets v ≡ drain (response_loop env t) packets v
unfolding handle_responses drain response_loop response_next
handle_responses-drain env t [] v = refl
handle_responses-drain env t (p ∷ packets) v =
    go (take_response env t v p) (λ w. handle_responses-drain env t packets w)
  where
    go :
        (m : Go Responses)
        → ((w : Responses)
            → handle_responses env t packets w ≡ drain (response_loop env t) packets w)
        → (m >>= λ w.
            (let reached = reached_n w.base.option in
              let h = record w.base { option = reached.1 } in
              if reached.0 then ok h else handle_responses env t packets (record w { base = h })))
          ≡ (m >>= response_next >>= λ r. elim r [
            | inl v' ↦ drain (response_loop env t) packets v'
            | inr b ↦ ok b
          ])
    go panic ih = refl
    go (ok w) ih = elim (Bool-cases (reached_n w.base.option).0) [
      | inl full ↦ simp full refl
      | inr more ↦ simp more (ih _)
    ]

-- The goroutine of a stream always comes to its end: from every state that the assembler and it
-- reach with a channel that holds a packet at least, whatever the order of their steps, a run leads
-- to its return, with what `handleRequest` gives for the list of all packets of the stream, or with
-- its panic. No run has more than two steps for each packet and two more.
pub handle_request-Comes :
    (env : Env) (t capacity : ℕ) (packets : List Bytes) (h : Base) (n : ℕ)
    (s : Flow Bytes Requests Base)
    → 0 < capacity
    → Run capacity
        (request_loop env t)
        n
        (flow packets false [] (reading (record { base = h; rb = []; method = [] })))
        s
    → (n ≤ 2 * length packets + 2)
      × Comes capacity (request_loop env t) s (handle_request env t packets h)
unfolding handle_request
handle_request-Comes env t capacity packets h n s room run =
    let v : Requests = record { base = h; rb = []; method = [] } in
    subst (λ r. (n ≤ 2 * length packets + 2) × Comes capacity (request_loop env t) s r)
      (sym (handle_requests-drain env t packets v))
      (Run-Comes capacity (request_loop env t) packets v n s room run)

pub handle_response-Comes :
    (env : Env) (t capacity : ℕ) (packets : List Bytes) (h : Base) (n : ℕ)
    (s : Flow Bytes Responses Base)
    → 0 < capacity
    → Run capacity
        (response_loop env t)
        n
        (flow packets false [] (reading (record { base = h; rb = []; last_code = 0 })))
        s
    → (n ≤ 2 * length packets + 2)
      × Comes capacity (response_loop env t) s (handle_response env t packets h)
unfolding handle_response
handle_response-Comes env t capacity packets h n s room run =
    let v : Responses = record { base = h; rb = []; last_code = 0 } in
    subst (λ r. (n ≤ 2 * length packets + 2) × Comes capacity (response_loop env t) s r)
      (sym (handle_responses-drain env t packets v))
      (Run-Comes capacity (response_loop env t) packets v n s room run)
