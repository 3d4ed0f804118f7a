-- ===== src/Handler/Loop.antt =====
-- `handleRequest` and `handleResponse`, over the payloads of the packets that the channel gives
-- before it is closed. The times of the connection are those of a later moment, as arguments. The
-- deferred Close of the stream, which makes it ignore what follows, is that of Tcp/Stream.
pub mod Segments
use httpdump.Base.{
  ℕ, Bool, true, false, not, ◌&&◌, List, [], ◌∷◌, ◌++◌, ltb, if◌then◌else◌, length, Bytes, Go, ok,
  ◌>>=◌, ℤ, pos,
}
use httpdump.Http.Title.{parse_request_title, parse_response_title}
use httpdump.Http.Payload.{http1_end_hint}
use httpdump.Filter.Options.{permits_method, permits_code, reached_n}
use httpdump.Handler.Base.{
  Env, Base, limit_allow, handle_error, deal_request, deal_response, tag_request, tag_response,
}

-- The variables of the loop of `handleRequest`.
pub record Requests : Type 0 where
  pub base : Base
  pub rb : Bytes
  pub method : Bytes

-- The test before `dealRequest`, up to the limiter: it asks the limiter only where the rest holds.
unfoldable pub ready_request : Requests → Bool → Bool × Base
ready_request v complete =
    if ltb 0 (length v.rb) && permits_method v.base.option v.method && complete
    then limit_allow v.base
    else (false, v.base)

-- The hint is asked only where the method is permitted, so that it may panic only there.
unfoldable pub hint_request : Requests → Go Bool
hint_request v =
    if ltb 0 (length v.rb) && permits_method v.base.option v.method
    then http1_end_hint v.rb
    else ok false

-- What a payload does to the buffer.
unfoldable pub receive_request : Requests → Bytes → Bytes × Bool → Requests
receive_request v payload title =
    if title.1
    then record v { rb = payload; method = title.0 }
    else record v { rb = v.rb ++ payload }

-- The test of the hint and of the limiter, and the call that they guard.
unfoldable pub deal_if_ready_request : Env → ℕ → Requests → Go Requests
deal_if_ready_request env t v = hint_request v >>= λ complete.
    (let ready = ready_request v complete in
      if ready.0
      then (deal_request env ready.1 v.rb t >>= λ h. ok (record v { base = h; rb = [] }))
      else ok (record v { base = ready.1 }))

unfoldable pub take_request : Env → ℕ → Requests → Bytes → Go Requests
take_request env t v payload = parse_request_title payload >>= λ title.
    deal_if_ready_request env t (receive_request v payload title)

-- The end of `handleRequest` behind the loop.
unfoldable pub end_requests : Env → ℕ → Requests → Go Base
end_requests env t v =
    let ready = ready_request v true in
    (if ready.0 then deal_request env ready.1 v.rb t else ok ready.1) >>= λ h.
    ok (handle_error env h true [] t tag_request)

unfoldable pub handle_requests : Env → ℕ → List Bytes → Requests → Go Base
handle_requests env t [] v = end_requests env t v
handle_requests env t (p ∷ packets) v = take_request env t v p >>= λ w.
    (let reached = reached_n w.base.option in
      let h = record w.base { option = reached.1 } in
      if reached.0 then ok h else handle_requests env t packets (record w { base = h }))

unfoldable pub handle_request : Env → ℕ → List Bytes → Base → Go Base
handle_request env t packets h =
    handle_requests env t packets (record { base = h; rb = []; method = [] })

-- The variables of the loop of `handleResponse`.
pub record Responses : Type 0 where
  pub base : Base
  pub rb : Bytes
  pub last_code : ℕ

unfoldable pub ready_response : Responses → Bool → Bool × Base
ready_response v complete =
    if ltb 0 (length v.rb) && permits_code v.base.option (pos v.last_code) && complete
    then limit_allow v.base
    else (false, v.base)

unfoldable pub hint_response : Responses → Go Bool
hint_response v =
    if ltb 0 (length v.rb) && permits_code v.base.option (pos v.last_code)
    then http1_end_hint v.rb
    else ok false

unfoldable pub receive_response : Responses → Bytes → ℕ × Bool → Responses
receive_response v payload title =
    if title.1
    then record v { rb = payload; last_code = title.0 }
    else record v { rb = v.rb ++ payload }

-- The test of the hint and of the limiter, and the call that they guard.
unfoldable pub deal_if_ready_response : Env → ℕ → Responses → Go Responses
deal_if_ready_response env t v = hint_response v >>= λ complete.
    (let ready = ready_response v complete in
      if ready.0
      then (deal_response env ready.1 v.rb t >>= λ h. ok (record v { base = h; rb = [] }))
      else ok (record v { base = ready.1 }))

unfoldable pub take_response : Env → ℕ → Responses → Bytes → Go Responses
take_response env t v payload = parse_response_title payload >>= λ title.
    deal_if_ready_response env t (receive_response v payload title)

unfoldable pub end_responses : Env → ℕ → Responses → Go Base
end_responses env t v =
    let ready = ready_response v true in
    (if ready.0 then deal_response env ready.1 v.rb t else ok ready.1) >>= λ h.
    ok (handle_error env h true [] t tag_response)

unfoldable pub handle_responses : Env → ℕ → List Bytes → Responses → Go Base
handle_responses env t [] v = end_responses env t v
handle_responses env t (p ∷ packets) v = take_response env t v p >>= λ w.
    (let reached = reached_n w.base.option in
      let h = record w.base { option = reached.1 } in
      if reached.0 then ok h else handle_responses env t packets (record w { base = h }))

unfoldable pub handle_response : Env → ℕ → List Bytes → Base → Go Base
handle_response env t packets h =
    handle_responses env t packets (record { base = h; rb = []; last_code = 0 })
