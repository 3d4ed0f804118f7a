-- ===== src/Handler/Loop/Segments.antt =====
-- A message that arrives in pieces.
use httpdump.Base.{
  ℕ, ◌≡◌, inl, inr, refl, true, false, ◌&&◌, List, ◌∷◌, ◌++◌, ltb, length, Bytes, ok, ◌>>=◌, pos,
  Bool-cases, arith,
}
use httpdump.Http.Title.{parse_request_title, parse_response_title}
use httpdump.Http.Payload.{http1_end_hint}
use httpdump.Filter.Options.{permits_method, permits_code, reached_n}
use httpdump.Handler.Base.{Env}
use httpdump.Handler.Loop.{
  Requests, Responses, ready_request, hint_request, receive_request, deal_if_ready_request,
  take_request, handle_requests, ready_response, hint_response, receive_response,
  deal_if_ready_response, take_response, handle_responses,
}

module _ (env : Env) (t : ℕ) where
  incomplete_request :
      (v : Requests) → http1_end_hint v.rb ≡ ok false → deal_if_ready_request env t v ≡ ok v
  unfolding deal_if_ready_request
  incomplete_request v hint =
      let no_hint : hint_request v ≡ ok false = refuses in
      let no_call : ready_request v false ≡ (false, v.base) = held in
      simp (deal_if_ready_request, no_hint, ◌>>=◌, no_call) refl
    where
      refuses : hint_request v ≡ ok false
      refuses = elim (Bool-cases (ltb 0 (length v.rb) && permits_method v.base.option v.method)) [
        | inl asked ↦ unfold hint_request in rw asked hint
        | inr refused ↦ unfold hint_request in rw refused refl
      ]

      held : ready_request v false ≡ (false, v.base)
      held = unfold ready_request in ground arith

  -- A request that comes in two pieces is dealt with like one that comes whole: where the first
  -- piece has a title and is not taken for complete, the second has none, and the whole has the
  -- title of the first, the loop gives the same on the two packets as on one with both payloads,
  -- whatever packets follow, unless the budget of requests is used up before.
  pub handle_requests-pieces :
      (v : Requests) (a b : Bytes) (m : Bytes) (other : Bytes) (packets : List Bytes)
      → parse_request_title a ≡ ok (m, true)
      → parse_request_title (a ++ b) ≡ ok (m, true)
      → parse_request_title b ≡ ok (other, false)
      → http1_end_hint a ≡ ok false
      → reached_n v.base.option ≡ (false, v.base.option)
      → handle_requests env t (a ∷ b ∷ packets) v ≡ handle_requests env t ((a ++ b) ∷ packets) v
  unfolding handle_requests take_request
  handle_requests-pieces v a b m other packets title whole rest hint going =
      let kept : Requests = record v { rb = a; method = m } in
      let first : take_request env t v a ≡ ok kept =
        unfold take_request in unfold receive_request in rw title (incomplete_request kept hint) in
      let joined : take_request env t kept b ≡ take_request env t v (a ++ b) =
        unfold take_request in unfold receive_request in rw (rest, whole) refl in
      simp (handle_requests, first, ◌>>=◌, going, joined) refl

  incomplete_response :
      (v : Responses) → http1_end_hint v.rb ≡ ok false → deal_if_ready_response env t v ≡ ok v
  unfolding deal_if_ready_response
  incomplete_response v hint =
      let no_hint : hint_response v ≡ ok false = refuses in
      let no_call : ready_response v false ≡ (false, v.base) = held in
      simp (deal_if_ready_response, no_hint, ◌>>=◌, no_call) refl
    where
      refuses : hint_response v ≡ ok false
      refuses =
          elim (Bool-cases (ltb 0 (length v.rb) && permits_code v.base.option (pos v.last_code))) [
            | inl asked ↦ unfold hint_response in rw asked hint
            | inr refused ↦ unfold hint_response in rw refused refl
          ]

      held : ready_response v false ≡ (false, v.base)
      held = unfold ready_response in ground arith

  -- A response that comes in two pieces is dealt with like one that comes whole: where the first
  -- piece has a title and is not taken for complete, the second has none, and the whole has the
  -- title of the first, the loop gives the same on the two packets as on one with both payloads,
  -- whatever packets follow, unless the budget of requests is used up before.
  pub handle_responses-pieces :
      (v : Responses) (a b : Bytes) (code : ℕ) (other : ℕ) (packets : List Bytes)
      → parse_response_title a ≡ ok (code, true)
      → parse_response_title (a ++ b) ≡ ok (code, true)
      → parse_response_title b ≡ ok (other, false)
      → http1_end_hint a ≡ ok false
      → reached_n v.base.option ≡ (false, v.base.option)
      → handle_responses env t (a ∷ b ∷ packets) v ≡ handle_responses env t ((a ++ b) ∷ packets) v
  unfolding handle_responses take_response
  handle_responses-pieces v a b code other packets title whole rest hint going =
      let kept : Responses = record v { rb = a; last_code = code } in
      let first : take_response env t v a ≡ ok kept =
        unfold take_response in
        unfold receive_response in rw title (incomplete_response kept hint) in
      let joined : take_response env t kept b ≡ take_response env t v (a ++ b) =
        unfold take_response in unfold receive_response in rw (rest, whole) refl in
      simp (handle_responses, first, ◌>>=◌, going, joined) refl
