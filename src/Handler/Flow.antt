-- ===== src/Handler/Flow.antt =====
-- The channel of a stream between the assembler, whose confirm sends into it and whose finish
-- closes it, and the goroutine that reads it in handleRequest or handleResponse
-- (handler/handler_base.go, handler/tcp_assembly.go). It holds as many packets as the flag `-chan`
-- says: a send waits where it is full, and a receive where it is empty. A channel without a place,
-- where a send hands its packet over to a receive, is left out: no step of this relation sends into
-- it.
pub mod Ends
pub mod Handlers
mod Tests
use httpdump.Base.{
  ℕ, zero, suc, ◌+◌, ◌*◌, ◌≤◌, ◌<◌, ◌≡◌, ◌⊎◌, inl, inr, refl, sym, subst, ap, ◌∙◌, Bool, true,
  false, List, [], ◌∷◌, ◌++◌, append-nil, append_assoc, if◌then◌else◌, length, length-append, Bytes,
  Go, ok, panic, ◌>>=◌, arith,
}
use httpdump.Filter.Options.{reached_n}
use httpdump.Handler.Base.{Env, Base}
use httpdump.Handler.Loop.{
  Requests, Responses, take_request, end_requests, take_response, end_responses,
}

-- The goroutine: in its loop, or returned, with a panic or without one.
pub data Worker (V B : Type 0) : Type 0 where
  reading : V → Worker V B
  returned : Go B → Worker V B

-- The packets that are still to be sent, whether the channel is closed, what it holds, and the
-- goroutine.
pub data Flow (P V B : Type 0) : Type 0 where
  flow : List P → Bool → List P → Worker V B → Flow P V B

-- A loop over a channel: a round goes on with its variables, or returns.
pub record Loop (P V B : Type 0) : Type 0 where
  pub pass : V → P → Go (V ⊎ B)
  pub finish : V → Go B

module _ {P V B : Type 0} (capacity : ℕ) (loop : Loop P V B) where
  pub data Step : Flow P V B → Flow P V B → Type 0 where
    send :
        {p : P} {todo queue : List P} {w : Worker V B}
        → length queue < capacity
        → Step (flow (p ∷ todo) false queue w) (flow todo false (queue ++ p ∷ []) w)
    close : {queue : List P} {w : Worker V B} → Step (flow [] false queue w) (flow [] true queue w)
    receive :
        {p : P} {todo queue : List P} {closed : Bool} {v v' : V}
        → loop.pass v p ≡ ok (inl v')
        → Step (flow todo closed (p ∷ queue) (reading v)) (flow todo closed queue (reading v'))
    leave :
        {p : P} {todo queue : List P} {closed : Bool} {v : V} {b : B}
        → loop.pass v p ≡ ok (inr b)
        → Step (flow todo closed (p ∷ queue) (reading v)) (flow todo closed queue (returned (ok b)))
    crash :
        {p : P} {todo queue : List P} {closed : Bool} {v : V}
        → loop.pass v p ≡ panic
        → Step (flow todo closed (p ∷ queue) (reading v)) (flow todo closed queue (returned panic))
    stop : {v : V} → Step (flow [] true [] (reading v)) (flow [] true [] (returned (loop.finish v)))

  pub data Run : ℕ → Flow P V B → Flow P V B → Type 0 where
    here : {t : Flow P V B} → Run 0 t t
    next : {n : ℕ} {t u v : Flow P V B} → Step t u → Run n u v → Run (suc n) t v

-- The loop over all packets in turn.
unfoldable pub drain : {P V B : Type 0} → Loop P V B → List P → V → Go B
drain loop [] v = loop.finish v
drain loop (p ∷ ps) v = loop.pass v p >>= λ r. elim r [ inl v' ↦ drain loop ps v' | inr b ↦ ok b ]

-- The test of `ReachedN` at the end of a round of `handleRequest`.
unfoldable pub request_next : Requests → Go (Requests ⊎ Base)
request_next w =
    let reached = reached_n w.base.option in
    let h = record w.base { option = reached.1 } in
    if reached.0 then ok (inr h) else ok (inl (record w { base = h }))

-- The loop of `handleRequest`.
unfoldable pub request_loop : Env → ℕ → Loop Bytes Requests Base
request_loop env t = record {
  pass = λ v p. take_request env t v p >>= request_next;
  finish = end_requests env t;
}

-- The test of `ReachedN` at the end of a round of `handleResponse`.
unfoldable pub response_next : Responses → Go (Responses ⊎ Base)
response_next w =
    let reached = reached_n w.base.option in
    let h = record w.base { option = reached.1 } in
    if reached.0 then ok (inr h) else ok (inl (record w { base = h }))

-- The loop of `handleResponse`.
unfoldable pub response_loop : Env → ℕ → Loop Bytes Responses Base
response_loop env t = record {
  pass = λ v p. take_response env t v p >>= response_next;
  finish = end_responses env t;
}
