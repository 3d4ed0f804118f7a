-- ===== src/Handler/Pairs.antt =====
-- `rrSender`, which sends a response behind its request, and the senders behind it. What was sent
-- is a list; a sender that is given no discards drops a message that does not count them.
use httpdump.Base.{
  ℕ, ◌-◌, ◌+◌, ◌≤◌, ◌≡◌, inl, inr, Bool-cases, Option-cases, refl, sym, subst, ap, ◌∙◌,
  bytes_eq_iff, arith, Bool, true, false, Option, none, some, List, [], ◌∷◌, ltb, if◌then◌else◌,
  Bytes, bytes_eq,
}

-- A call of `Send`.
pub record Sent : Type 0 where
  pub msg : Bytes
  pub count_discards : Bool

-- `SendArgs`, with its key in the cache. A time is a number of nanoseconds.
pub record SendArgs : Type 0 where
  pub key : Bytes
  pub msg : Bytes
  pub count_discards : Bool
  pub req : Bool
  pub time : ℕ

unfoldable pub cached : Bytes → List SendArgs → Option SendArgs
cached key [] = none
cached key (c ∷ cs) = if bytes_eq c.key key then some c else cached key cs

unfoldable pub uncache : Bytes → List SendArgs → List SendArgs
uncache key [] = []
uncache key (c ∷ cs) = if bytes_eq c.key key then uncache key cs else c ∷ uncache key cs

-- The entries that are no older than three seconds at the time `t`.
unfoldable pub expire : ℕ → List SendArgs → List SendArgs
expire t [] = []
expire t (c ∷ cs) = if ltb 3000000000 (t - c.time) then expire t cs else c ∷ expire t cs

abbrev pub sent_args : SendArgs → Sent
sent_args c = record { msg = c.msg; count_discards = c.count_discards }

-- `rrSender.Send` at the time `t`: the cache afterwards, and the calls of the origin's `Send`.
unfoldable pub send : SendArgs → List SendArgs → List SendArgs × List Sent
send a cache = elim (cached a.key cache) [
  | some c ↦ (
    expire a.time (uncache a.key cache),
    (if a.req then sent_args a ∷ sent_args c ∷ [] else sent_args c ∷ sent_args a ∷ []),
  )
  | none ↦ (expire a.time (a ∷ cache), [])
]

waits :
    (a b : SendArgs) (cache : List SendArgs)
    → cached a.key cache ≡ none
    → a.key ≡ b.key
    → ((send a cache).1 ≡ []) × (cached b.key (send a cache).0 ≡ some a)
unfolding send
waits a b cache fresh same =
    let young : ltb 3000000000 (a.time - a.time) ≡ false = ground arith in
    let found : bytes_eq a.key b.key ≡ true = (bytes_eq_iff a.key b.key).1 same in
    simp (send, fresh) (refl, unfold expire in unfold cached in simp (young, found) refl)

-- The cache behind a sequence of calls of `Send`.
abbrev pub after : List SendArgs → List SendArgs → List SendArgs
after [] cache = cache
after (b ∷ between) cache = after between (send b cache).0

-- Calls for other keys, none more than three seconds after that of `a`.
abbrev pub Meanwhile : SendArgs → List SendArgs → Type 0
Meanwhile a [] = Unit
Meanwhile a (b ∷ between) =
    (bytes_eq a.key b.key ≡ false) × (b.time ≤ a.time + 3000000000) × Meanwhile a between

cached-uncache :
    (key other : Bytes) (cs : List SendArgs)
    → bytes_eq key other ≡ false
    → cached key (uncache other cs) ≡ cached key cs
unfolding cached uncache
cached-uncache key other [] ne = refl
cached-uncache key other (c ∷ cs) ne = ground (
  arith,
  cached-uncache key other cs ne,
  bytes_eq_iff c.key key,
  bytes_eq_iff c.key other,
  bytes_eq_iff key other,
)

cached-expire :
    (t : ℕ) (key : Bytes) (a : SendArgs) (cs : List SendArgs)
    → t ≤ a.time + 3000000000
    → cached key cs ≡ some a
    → cached key (expire t cs) ≡ some a
unfolding cached expire
cached-expire t key a [] h e = cc
cached-expire t key a (c ∷ cs) h e = elim (Bool-cases (bytes_eq c.key key)) [
  | inl here ↦
      let found : some c ≡ some a = simp (cached, here) at e in
      let same : c ≡ a = cc in
      let young : ltb 3000000000 (t - c.time) ≡ false = ground (arith, ap (λ x. x.time) same) in
      simp (expire, young, cached, here) found
  | inr other ↦
      let rest = cached-expire t key a cs h (simp (cached, other) at e) in
      elim (Bool-cases (ltb 3000000000 (t - c.time))) [
        | inl old ↦ simp (expire, old) rest
        | inr young ↦ simp (expire, young, cached, other) rest
      ]
]

stays :
    (a b : SendArgs) (cs : List SendArgs)
    → bytes_eq a.key b.key ≡ false
    → b.time ≤ a.time + 3000000000
    → cached a.key cs ≡ some a
    → cached a.key (send b cs).0 ≡ some a
unfolding send
stays a b cs ne soon e = elim (Option-cases (cached b.key cs)) [
  | inr (c, there) ↦
      simp (send, there)
        (cached-expire b.time a.key a _ soon (cached-uncache a.key b.key cs ne ∙ e))
  | inl fresh ↦
      let other : bytes_eq b.key a.key ≡ false =
        ground (arith, bytes_eq_iff a.key b.key, bytes_eq_iff b.key a.key) in
      simp (send, fresh) (cached-expire b.time a.key a _ soon (unfold cached in simp other e))
]

stays_after :
    (a : SendArgs) (between cs : List SendArgs)
    → Meanwhile a between
    → cached a.key cs ≡ some a
    → cached a.key (after between cs) ≡ some a
stays_after a [] cs h e = e
stays_after a (b ∷ between) cs (ne, soon, h) e = stays_after a between _ h (stays a b cs ne soon e)

-- A message whose key is not in the cache waits, and the next message of that key takes it along,
-- whatever comes for other keys meanwhile, if none of that comes more than three seconds after it.
pairs :
    (a b : SendArgs) (asks : Bool) (between cache : List SendArgs)
    → b.req ≡ asks
    → a.key ≡ b.key
    → cached a.key cache ≡ none
    → Meanwhile a between
    → ((send a cache).1 ≡ [])
      × ((send b (after between (send a cache).0)).1
          ≡ (if asks then sent_args b ∷ sent_args a ∷ [] else sent_args a ∷ sent_args b ∷ []))
pairs a b asks between cache kind same fresh meanwhile =
    let (held, there) = waits a a cache fresh refl in
    let there' : cached b.key (after between (send a cache).0) ≡ some a =
      subst (λ k. cached k (after between (send a cache).0) ≡ some a) same
        (stays_after a between _ meanwhile there) in
    (held, unfold send in simp (send, there', kind) refl)

-- A request and its response leave together, the request first, whichever of them comes first: the
-- first of them is held, if no message of their key is, and leaves with the second. Any calls for
-- other keys may come between them, none more than three seconds after the first, since such a
-- call throws out what is older.
pub send-pair :
    (request response : SendArgs) (between cache : List SendArgs)
    → request.key ≡ response.key
    → request.req ≡ true
    → response.req ≡ false
    → cached request.key cache ≡ none
    → Meanwhile request between
    → Meanwhile response between
    → let pair = sent_args request ∷ sent_args response ∷ [] in
      ((send request cache).1 ≡ [])
      × ((send response (after between (send request cache).0)).1 ≡ pair)
      × ((send response cache).1 ≡ [])
      × ((send request (after between (send response cache).0)).1 ≡ pair)
send-pair request response between cache same is_request is_response fresh meanwhile meanwhile' =
    let fresh' : cached response.key cache ≡ none = subst (λ k. cached k cache ≡ none) same fresh in
    let (held, leaves) =
      pairs request response false between cache is_response same fresh meanwhile in
    let (held', leaves') =
      pairs response request true between cache is_request (sym same) fresh' meanwhile' in
    (held, leaves, held', leaves')
