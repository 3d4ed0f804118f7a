-- ===== src/Handler/Std/Ends.antt =====
-- The loops of the standard readers end.
use httpdump.Base.{
  ℕ, zero, suc, ◌<◌, ◌≡◌, ◌⊎◌, Bool, inl, inr, refl, some, length, Bytes, Go, ok, panic, codes,
  has_prefix, take, ltb, Bool-cases, arith,
}
use httpdump.Tcp.Connection.{is_http_request_data}
use httpdump.Handler.Base.{handle_error, tag_request, tag_response}
use httpdump.Handler.Std.{
  StdEnv, Std, Read, got, ended, process_request_on, process_response_on, run_requests,
  run_responses, run,
}

pub Read-cases :
    {A : Type 0} (m : Read A)
    → ((is_eof : Bool) × (text : Bytes) × (m ≡ ended is_eof text))
      ⊎ ((a : A) × (rest : Bytes) × (m ≡ got a rest))
Read-cases (ended is_eof text) = inl (is_eof, text, refl)
Read-cases (got a rest) = inr (a, rest, refl)

pub Go-cases : {A : Type 0} (m : Go A) → (m ≡ panic) ⊎ ((a : A) × (m ≡ ok a))
Go-cases panic = inl refl
Go-cases (ok a) = inr (a, refl)

-- A message takes at least a byte of its reader.
abbrev pub Takes : {A : Type 0} → (Bytes → Read A) → Type 0
Takes {A} read =
    (buf : Bytes) (a : A) (rest : Bytes) → read buf ≡ got a rest → length rest < length buf

run_requests-ends :
    (e : StdEnv) (now : ℕ → ℕ) (fuel : ℕ) (s : Std) (buf : Bytes)
    → Takes e.read_request
    → length buf < fuel
    → (m : Go Std) × (run_requests e now fuel s buf ≡ some m)
unfolding run_requests
run_requests-ends e now zero s buf takes h = absurd (omega arith)
run_requests-ends e now (suc fuel) s buf takes h = elim (Read-cases (e.read_request buf)) [
  | inl (is_eof, text, over) ↦ (
    ok (record s { base = handle_error e.env s.base is_eof text (now fuel) tag_request }),
    simp (run_requests, over) refl,
  )
  | inr (r, rest, more) ↦
      elim (Go-cases (process_request_on e.env s.req_buffer s.base r (now fuel))) [
        | inl panics ↦ (panic, simp (run_requests, more, panics) refl)
        | inr ((buffer, h'), does) ↦
            let (m, ends) =
              run_requests-ends e now fuel (record s { base = h'; req_buffer = buffer }) rest takes
                (omega (arith, takes buf r rest more)) in
            (m, simp (run_requests, more, does) ends)
      ]
]

run_responses-ends :
    (e : StdEnv) (now : ℕ → ℕ) (fuel : ℕ) (s : Std) (buf : Bytes)
    → Takes e.read_response
    → length buf < fuel
    → (m : Go Std) × (run_responses e now fuel s buf ≡ some m)
unfolding run_responses
run_responses-ends e now zero s buf takes h = absurd (omega arith)
run_responses-ends e now (suc fuel) s buf takes h = elim (Read-cases (e.read_response buf)) [
  | inl (is_eof, text, over) ↦ (
    ok (record s { base = handle_error e.env s.base is_eof text (now fuel) tag_response }),
    simp (run_responses, over) refl,
  )
  | inr (r, rest, more) ↦
      elim (Go-cases (process_response_on e.env s.rsp_buffer s.base r (now fuel))) [
        | inl panics ↦ (panic, simp (run_responses, more, panics) refl)
        | inr ((buffer, h'), does) ↦
            let (m, ends) =
              run_responses-ends e now fuel (record s { base = h'; rsp_buffer = buffer }) rest takes
                (omega (arith, takes buf r rest more)) in
            (m, simp (run_responses, more, does) ends)
      ]
]

-- The reader of a stream of the standard assembler always comes to its end, with a panic or without
-- one: its loops end on every stream, where a message that a parser gives takes at least a byte of
-- its reader.
pub run-ends :
    (e : StdEnv) (now : ℕ → ℕ) (resp : ℕ) (s : Std) (stream : Bytes)
    → Takes e.read_request
    → Takes e.read_response
    → (m : Go Std) × (run e now resp s stream ≡ some m)
unfolding run
run-ends e now resp s stream takes takes' = elim (Bool-cases (has_prefix stream (codes "HTTP/"))) [
  | inl response ↦ elim (Bool-cases (ltb 0 resp)) [
    | inl prints ↦
        let (m, ends) =
          run_responses-ends e now (suc (length stream)) s stream takes' (omega arith) in
        (m, simp (run, response, prints) ends)
    | inr skips ↦ (ok s, simp (run, response, skips) refl)
  ]
  | inr other ↦ elim (Bool-cases (is_http_request_data (take 8 stream))) [
    | inl request ↦
        let (m, ends) =
          run_requests-ends e now (suc (length stream)) s stream takes (omega arith) in
        (m, simp (run, other, request) ends)
    | inr unknown ↦ (ok s, simp (run, other, unknown) refl)
  ]
]
