-- ===== src/Replay/Serve/Sends.antt =====
-- What a replay sends of the texts that it is given.
use httpdump.Base.{
  ℕ, ◌+◌, ◌≡◌, refl, sym, ◌∙◌, Bool, Option, List, [], ◌∷◌, ◌++◌, replicate, Bytes, Go, ok, panic,
  ◌>>=◌,
}
use mathlib.Core.Option
use httpdump.Http.Title.Request.{parse_request_title_sound}
use httpdump.Replay.Title.{RequestTitle, parse_title, parse_title-same, of_title}
use httpdump.Replay.Client.{Calls, Client, Outcome, client_send}
use httpdump.Replay.Payload.{Msg, Options, Reading}
use httpdump.Replay.Serve.{Log, replay_times}

-- A title is parsed without a panic.
pub parse_title-returns : (line : Bytes) → (t : RequestTitle) × (parse_title line ≡ ok t)
parse_title-returns line =
    let (r, e, _) = parse_request_title_sound line in
    returned (parse_title line) (sym (parse_title-same line) ∙ e)
  where
    returned :
        (m : Go RequestTitle) {r : Bytes × Bool}
        → (m >>= λ t. ok (of_title t)) ≡ ok r
        → (t : RequestTitle) × (m ≡ ok t)
    returned (ok t) e = (t, refl)
    returned panic e = cc

-- A handler that does to a state what another does to its image reads the same payloads.
module _ {S T : Type 0} (image : S → T) (handler : S → Msg → Option S)
    (handler' : T → Msg → Option T)
    (same : (s : S) (m : Msg) → handler' (image s) m ≡ Option.map image (handler s m))
    (o : Options) where
  abbrev pair : Reading × S → Reading × T
  pair q = (q.0, image q.1)

-- What the handler sends of payloads that come in turn, the k-th on.
abbrev pub sends : Calls → (ℕ → ℕ) → ℕ → Client → ℕ → List Bytes → List Outcome
sends calls extra replay_n client k [] = []
sends calls extra replay_n client k (p ∷ ps) =
    replicate (replay_n + extra k) (client_send calls client p)
    ++ sends calls extra replay_n client (k + 1) ps

-- The log after these payloads.
abbrev logged : Calls → (ℕ → ℕ) → ℕ → Client → Log → List Bytes → Log
logged calls extra replay_n client s [] = s
logged calls extra replay_n client s (p ∷ ps) =
    logged calls extra replay_n client
      (replay_times calls client p (replay_n + extra s.handled)
        (record s { handled = s.handled + 1 }))
      ps
