-- ===== src/Handler/Std/Repeats.antt =====
-- What the standard readers send.
use httpdump.Base.{
  ℕ, zero, suc, ◌≤◌, ◌≡◌, ◌⊎◌, inl, inr, refl, sym, ap, ap₂, ◌∙◌, ◌<◌, Bool, true, false, not,
  Option, none, some, List, [], ◌∷◌, ◌++◌, append-nil, append_assoc, if◌then◌else◌, length, Bytes,
  Go, ok, panic, ◌>>=◌, arith,
}
use httpdump.Filter.Options
use httpdump.Filter.Options.{permits_req}
use httpdump.Handler.Pairs.{Sent}
use httpdump.Handler.Format.{Req}
use httpdump.Handler.Base.{
  Env, Base, incr, send_on, handle_error, process_request, tag_request, counted,
}
use httpdump.Handler.Std.Ends.{Takes, Read-cases}
use httpdump.Handler.Std.{StdEnv, Std, got, ended, print_on, process_request_on, run_requests}

-- From an empty buffer this is what the fast handler does, which empties its buffer before each
-- request.
pub process_request_on-empty :
    (env : Env) (h : Base) (r : Req) (t : ℕ)
    → (process_request_on env [] h r t >>= λ x. ok x.1) ≡ process_request env h r t
unfolding process_request_on process_request
process_request_on-empty env h r t =
    let seq = incr h.req_counter in
    let permit = permits_req h.option r.host r.request_uri (env.ratio seq) in
    let h' = record h { req_counter = seq; option = permit.1 } in
    branch (not permit.0) [] h' _ _ (branch h.using_json [] _ _ _ (printed h' seq _))
  where
    branch :
        (b : Bool) (buffer : Bytes) (h' : Base) (m : Go (Bytes × Base)) (m' : Go Base)
        → (m >>= λ x. ok x.1) ≡ m'
        → ((if b then ok (buffer, h') else m) >>= λ x. ok x.1) ≡ (if b then ok h' else m')
    branch true buffer h' m m' e = refl
    branch false buffer h' m m' e = e

    printed :
        (h' : Base) (seq : ℕ) (m : Go (Bytes × Options.Options))
        → (print_on env [] h' seq true m >>= λ x. ok x.1)
          ≡ (m >>= λ text. ok (send_on env (record h' { option = text.1 }) seq true text.0))
    printed h' seq (ok text) = unfold print_on in refl
    printed h' seq panic = unfold print_on in refl

-- A handler that pairs nothing and sends texts.
abbrev pub IsPlain : Base → Type 0
IsPlain h = (h.cache ≡ none) × (h.using_json ≡ false)

-- The messages of texts that are put behind each other in one buffer.
abbrev pub growing : Bytes → List Bytes → List Sent
growing buffer [] = []
growing buffer (text ∷ texts) =
    record { msg = buffer ++ text; count_discards = true } ∷ growing (buffer ++ text) texts

-- The messages of texts, each for itself.
abbrev pub alone : List Bytes → List Sent
alone [] = []
alone (text ∷ texts) = record { msg = text; count_discards = true } ∷ alone texts

abbrev joined : List Bytes → Bytes
joined [] = []
joined (text ∷ texts) = text ++ joined texts

alone-append : (xs ys : List Bytes) → alone (xs ++ ys) ≡ alone xs ++ alone ys
alone-append [] ys = refl
alone-append (x ∷ xs) ys =
    ap (λ l. record { msg = x; count_discards = true } ∷ l) (alone-append xs ys)

growing-append :
    (buffer : Bytes) (xs ys : List Bytes)
    → growing buffer (xs ++ ys) ≡ growing buffer xs ++ growing (buffer ++ joined xs) ys
growing-append buffer [] ys = ap (λ b. growing b ys) (sym (append-nil buffer))
growing-append buffer (x ∷ xs) ys =
    ap (λ l. record { msg = buffer ++ x; count_discards = true } ∷ l)
      (growing-append (buffer ++ x) xs ys
        ∙ ap (λ b. growing (buffer ++ x) xs ++ growing b ys) (append_assoc buffer x (joined xs)))

-- `runRequests` as it would be if the buffer were emptied before each request, which is what
-- `dealRequest` of the fast handler does.
unfoldable pub fresh_requests : StdEnv → (ℕ → ℕ) → ℕ → Base → Bytes → Option (Go Base)
fresh_requests e now zero h buf = none
fresh_requests e now (suc fuel) h buf = elim (e.read_request buf) [
  | ended is_eof text ↦ some (ok (handle_error e.env h is_eof text (now fuel) tag_request))
  | got r rest ↦ elim (process_request e.env h r (now fuel)) [
    | panic ↦ some panic
    | ok h' ↦ fresh_requests e now fuel h' rest
  ]
]

send_on-plain :
    (env : Env) (h : Base) (seq : ℕ) (req : Bool) (msg : Bytes)
    → h.cache ≡ none
    → send_on env h seq req msg
      ≡ record h { sent = h.sent ++ record { msg = msg; count_discards = true } ∷ [] }
unfolding send_on
send_on-plain env h seq req msg e = simp (send_on, e) refl

-- A request with an emptied buffer and one with what `buffer` holds, at handlers that have sent
-- different messages: both panic, or the same texts are sent.
abbrev Twin : List Sent → List Sent → Bytes → Go Base → Go (Bytes × Base) → Type 0
Twin before a buffer m m' =
    ((m ≡ panic) × (m' ≡ panic))
    ⊎ ((h' : Base) × (texts : List Bytes) × IsPlain h'
        × (m ≡ ok (record h' { sent = before ++ alone texts }))
        × (m' ≡ ok (buffer ++ joined texts, record h' { sent = a ++ growing buffer texts })))

process_request-Twin :
    (env : Env) (h : Base) (a : List Sent) (buffer : Bytes) (r : Req) (t : ℕ)
    → IsPlain h
    → Twin h.sent a buffer
        (process_request env h r t)
        (process_request_on env buffer (record h { sent = a }) r t)
unfolding process_request process_request_on
process_request-Twin env h a buffer r t (no_cache, no_json) =
    let seq = incr h.req_counter in
    let permit = permits_req h.option r.host r.request_uri (env.ratio seq) in
    go (not permit.0) h.using_json seq (record h { req_counter = seq; option = permit.1 }) _ _ _
      (no_cache, no_json) no_json
  where
    go :
        (refused json : Bool) (seq : ℕ) (h' x : Base) (y : Bytes × Base)
        (printed : Go (Bytes × Options.Options))
        → IsPlain h'
        → json ≡ false
        → Twin h'.sent a buffer
            (if refused
              then ok h'
              else if json
              then ok x
              else (printed >>= λ text.
                  ok (send_on env (record h' { option = text.1 }) seq true text.0)))
            (if refused
              then ok (buffer, record h' { sent = a })
              else if json
              then ok y
              else print_on env buffer (record h' { sent = a }) seq true printed)
    go true json seq h' x y printed plain h = inr (
      h',
      [],
      plain,
      ap (λ l. ok (record h' { sent = l })) (sym (append-nil h'.sent)),
      ap₂ (λ b l. ok (b, record h' { sent = l })) (sym (append-nil buffer)) (sym (append-nil a)),
    )
    go false true seq h' x y printed plain h = cc
    go false false seq h' x y panic plain h = inl (refl, unfold print_on in refl)
    go false false seq h' x y (ok text) plain h =
        let one = send_on-plain env (record h' { option = text.1 }) seq true text.0 plain.0 in
        let all =
          send_on-plain env (record h' { option = text.1; sent = a }) seq true (buffer ++ text.0)
            plain.0 in
        inr (
          record h' { option = text.1 },
          text.0 ∷ [],
          plain,
          ap ok one,
          unfold print_on in
              ap₂ (λ b u. ok (b, u)) (ap (λ l. buffer ++ l) (sym (append-nil text.0))) all,
        )

-- The last message, where the reader ends, does not depend on what was sent.
handle_error-sent :
    (env : Env) (h : Base) (a : List Sent) (is_eof : Bool) (text : Bytes) (t : ℕ)
    → (last : List Sent) × ((handle_error env h is_eof text t tag_request).sent ≡ h.sent ++ last)
      × ((handle_error env (record h { sent = a }) is_eof text t tag_request).sent ≡ a ++ last)
      × (length last ≤ 1)
unfolding handle_error counted
handle_error-sent env h a is_eof text t = choose h.using_json is_eof h.eof _ _
  where
    choose :
        (json ends tells : Bool) (m m' : Sent)
        → let add = λ (k : Base) (x : Sent). record k { sent = k.sent ++ x ∷ [] } in
          let tell = λ (k : Base).
            if json then k else if ends then (if tells then add k m else k) else add k m' in
          (last : List Sent) × ((tell h).sent ≡ h.sent ++ last)
          × ((tell (record h { sent = a })).sent ≡ a ++ last)
          × (length last ≤ 1)
    choose true ends tells m m' = ([], sym (append-nil h.sent), sym (append-nil a), omega arith)
    choose false true true m m' = (m ∷ [], refl, refl, omega arith)
    choose false true false m m' = ([], sym (append-nil h.sent), sym (append-nil a), omega arith)
    choose false false tells m m' = (m' ∷ [], refl, refl, omega arith)

-- What the two readers come to, from handlers that have sent `before` and `a`.
abbrev pub Compared : List Sent → List Sent → Bytes → Option (Go Base) → Option (Go Std) → Type 0
Compared before a buffer m m' =
    ((m ≡ some panic) × (m' ≡ some panic))
    ⊎ ((v : Base) × (u : Std) × (texts : List Bytes) × (last : List Sent) × (m ≡ some (ok v))
        × (m' ≡ some (ok u))
        × (v.sent ≡ before ++ (alone texts ++ last))
        × (u.base.sent ≡ a ++ (growing buffer texts ++ last))
        × (length last ≤ 1))

module _ (e : StdEnv) (now : ℕ → ℕ) (takes : Takes e.read_request) where
  run_requests-Compared :
      (fuel : ℕ) (h : Base) (a : List Sent) (req_buffer rsp_buffer buf : Bytes)
      → IsPlain h
      → length buf < fuel
      → Compared h.sent a req_buffer (fresh_requests e now fuel h buf) (
          run_requests e now fuel
            (record {
              base = record h { sent = a };
              req_buffer = req_buffer;
              rsp_buffer = rsp_buffer;
            })
            buf)
  unfolding run_requests fresh_requests
  run_requests-Compared zero h a req_buffer rsp_buffer buf plain enough = absurd (omega arith)
  run_requests-Compared (suc fuel) h a req_buffer rsp_buffer buf plain enough =
      elim (Read-cases (e.read_request buf)) [
        | inl (is_eof, text, over) ↦
            let (last, one, all, short) = handle_error-sent e.env h a is_eof text (now fuel) in
            inr (
              handle_error e.env h is_eof text (now fuel) tag_request,
              record {
                base =
                    handle_error e.env (record h { sent = a }) is_eof text (now fuel) tag_request;
                req_buffer = req_buffer;
                rsp_buffer = rsp_buffer;
              },
              [],
              last,
              simp (fresh_requests, over) refl,
              simp (run_requests, over) refl,
              one,
              all,
              short,
            )
        | inr (r, rest, more) ↦
            elim (process_request-Twin e.env h a req_buffer r (now fuel) plain) [
              | inl (one, all) ↦
                  inl (simp (fresh_requests, more, one) refl, simp (run_requests, more, all) refl)
              | inr (h', texts, plain', one, all) ↦
                  simp (fresh_requests, run_requests, more, one, all)
                    (onward texts h.sent a req_buffer _ _ (
                      run_requests-Compared fuel (record h' { sent = h.sent ++ alone texts })
                        (a ++ growing req_buffer texts) (req_buffer ++ joined texts) rsp_buffer rest
                        plain' (omega (arith, takes buf r rest more))))
            ]
      ]
    where
      onward :
          (texts : List Bytes) (before a : List Sent) (buffer : Bytes) (m : Option (Go Base))
          (m' : Option (Go Std))
          → Compared
              (before ++ alone texts)
              (a ++ growing buffer texts)
              (buffer ++ joined texts)
              m
              m'
          → Compared before a buffer m m'
      onward texts before a buffer m m' (inl both) = inl both
      onward texts before a buffer m m' (inr (v, u, texts', last, one, all, sent, sent', short)) =
          inr (
            v,
            u,
            texts ++ texts',
            last,
            one,
            all,
            sent
                ∙ append_assoc before (alone texts) _
                ∙ ap (λ l. before ++ l)
                    (sym (append_assoc (alone texts) (alone texts') last)
                      ∙ ap (λ l. l ++ last) (sym (alone-append texts texts'))),
            sent'
                ∙ append_assoc a (growing buffer texts) _
                ∙ ap (λ l. a ++ l)
                    (sym (append_assoc (growing buffer texts) _ last)
                      ∙ ap (λ l. l ++ last) (sym (growing-append buffer texts texts'))),
            short,
          )

  -- The standard assembler's reader of requests never empties its buffer. It ends on every stream,
  -- and set beside a reader that empties its buffer before each request it panics where that one
  -- does, and else sends a message for each message of that one: the k-th is what the buffer held
  -- at first, with the first k messages of the other reader behind each other. (A request that the
  -- filters refuse gives no message and leaves the buffer.) Behind them both send the same at most
  -- one message, of the error or the end. The handler pairs nothing and sends texts, and a message
  -- that the parser gives takes at least a byte of its reader.
  pub run_requests-repeats :
      (s : Std) (buf : Bytes)
      → IsPlain s.base
      → Compared s.base.sent s.base.sent s.req_buffer
          (fresh_requests e now (suc (length buf)) s.base buf)
          (run_requests e now (suc (length buf)) s buf)
  run_requests-repeats s buf plain =
      run_requests-Compared (suc (length buf)) s.base s.base.sent s.req_buffer s.rsp_buffer buf
        plain (omega arith)
