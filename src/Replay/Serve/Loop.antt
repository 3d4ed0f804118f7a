-- ===== src/Replay/Serve/Loop.antt =====
-- The loop of `StartReplay` over its channel, and the channel's end.
use httpdump.Base.{
  ℕ, zero, suc, ◌≡◌, refl, ap, ◌∙◌, Bool, true, false, List, [], ◌∷◌, ◌++◌, replicate,
}
use httpdump.Replay.Payload.{consume_payload_lines, consume_lines}
use httpdump.Replay.Lines.{produce_payloads, scan_tokens}
use httpdump.Replay.Client.{Calls}
use httpdump.Replay.Serve.{Config, Log, read_payload, Event, done, arrives, serve}

-- Whether the loop finds the context done.
abbrev pub finds_done : List Event → Bool
finds_done [] = false
finds_done (done ∷ events) = true
finds_done (arrives text ∷ events) = finds_done events

module _ (calls : Calls) (extra : ℕ → ℕ) (c : Config) where
  read_payload-empty : (s : Log) → read_payload calls extra c [] s ≡ s
  unfolding read_payload consume_payload_lines consume_lines produce_payloads scan_tokens
  read_payload-empty s = refl

  closed_rounds : (k : ℕ) (s : Log) → serve calls extra c (replicate k (arrives [])) s ≡ (false, s)
  unfolding serve
  closed_rounds zero s = refl
  closed_rounds (suc k) s =
      ap (λ t. serve calls extra c (replicate k (arrives [])) t) (read_payload-empty s)
      ∙ closed_rounds k s

  -- Only the context ends the loop of `StartReplay`: while that is not done, the loop runs on,
  -- whatever texts come, and once the channel is closed and gives the empty text for ever, each
  -- round of it leaves all as it is, and no number of rounds ends it.
  pub serve-closed :
      (events : List Event) (k : ℕ) (s : Log)
      → finds_done events ≡ false
      → serve calls extra c (events ++ replicate k (arrives [])) s
        ≡ (false, (serve calls extra c events s).1)
  unfolding serve
  serve-closed [] k s h = closed_rounds k s
  serve-closed (done ∷ events) k s h = cc
  serve-closed (arrives text ∷ events) k s h =
      serve-closed events k (read_payload calls extra c text s) h
