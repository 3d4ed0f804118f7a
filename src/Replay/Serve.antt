-- ===== src/Replay/Serve.antt =====
-- `StartReplay`, the handler of `createParseOptions` and `Sender` of replay/replay.go and
-- replay/sender.go. The files are read by Replay/Threads; what is sent to the server is the list of
-- the outcomes of `Send`.
pub mod Sends
pub mod Loop
pub mod Suffix
use httpdump.Base.{
  ℕ, zero, suc, ◌+◌, ◌-◌, ◌≡◌, ◌↔◌, inl, inr, refl, ap, ◌∙◌, Bool, true, false, not, ◌&&◌, ◌||◌,
  Option, none, some, List, [], ◌∷◌, ◌++◌, if◌then◌else◌, Bytes, codes, bytes_eq, length,
  has_prefix, Bool-cases, Option-cases, Go, ok, panic, ◌>>=◌,
}
use httpdump.Replay.Client.{Calls, Client, Outcome, client_send}
use httpdump.Replay.Payload.{Msg, Options, consume_payload_lines}
use httpdump.Replay.Lines.{produce_payloads}
use httpdump.Replay.Whole.{replay_options}
use httpdump.Replay.Title.{parse_title}

-- `strings.ReplaceAll(s, old, new)` at an `old` that is not empty: `skip` bytes of an occurrence
-- are left.
unfoldable pub replace_from : ℕ → Bytes → Bytes → Bytes → Bytes
replace_from skip [] old new = []
replace_from (suc skip) (x ∷ s) old new = replace_from skip s old new
replace_from zero (x ∷ s) old new =
    let inside = replace_from (length old - 1) s old new in
    let behind = replace_from 0 s old new in
    if has_prefix (x ∷ s) old then new ++ inside else x ∷ behind

unfoldable pub replace_all : Bytes → Bytes → Bytes → Bytes
unfolding replace_from
replace_all s old new = replace_from 0 s old new

-- `Config`, the fields that are read: the client is that of `Replay`, `none` where it is empty.
pub record Config : Type 0 where
  pub file : Bytes
  pub poll : Bool
  pub client : Option Client
  pub replay_n : ℕ

-- What `StartReplay` does with its file, or that it reads its channel.
pub data Plan : Type 0 where
  process_dir : Bytes → Plan
  process_tail : Bytes → Bool → Plan
  process_glob : Bytes → Plan
  read_channel : Plan

-- The choice of `StartReplay`, with the file and `Poll` as it leaves them. `is_dir` is what
-- `os.Stat` says.
unfoldable pub plan : (Bytes → Bool) → Config → Plan × Config
plan is_dir c =
    if bytes_eq c.file []
    then (read_channel, c)
    else let untailed = replace_all c.file (codes ":tail") [] in
      let file = replace_all untailed (codes ":poll") [] in
      let c' = record c { file = file; poll = not (bytes_eq file untailed) } in
      if is_dir file
      then (process_dir file, c')
      else if not (bytes_eq untailed c.file)
      then (process_tail file c'.poll, c')
      else (process_glob file, c')

-- The calls of `Send` so far, and how many payloads were handled.
pub record Log : Type 0 where
  pub handled : ℕ
  pub outcomes : List Outcome

unfoldable pub replay_times : Calls → Client → Bytes → ℕ → Log → Log
replay_times calls c payload zero s = s
replay_times calls c payload (suc n) s =
    replay_times calls c payload n
      (record s { outcomes = s.outcomes ++ client_send calls c payload ∷ [] })

-- The starter of `createParseOptions`: whether `ParseRequestTitle` accepts the line, which it never
-- panics on.
unfoldable pub starter : Bytes → Bool
starter line = elim (parse_title line) [ ok t ↦ t.is_title | panic ↦ false ]

-- What the `select` of the loop finds: the context is done, or the channel gives a payload. A
-- closed channel gives the empty one.
pub data Event : Type 0 where
  done : Event
  arrives : Bytes → Event

module _ (calls : Calls) (extra : ℕ → ℕ) where
  -- `payloadHandler`; `extra k` is what `Ifi` gives for the random number of the k-th payload. An
  -- error of `Send` is logged, so that the handler gives none.
  unfoldable pub payload_handler : Config → Log → Msg → Option Log
  payload_handler c s m = elim c.client [
    | none ↦ some s
    | some client ↦ some (
        replay_times calls client m.payload (c.replay_n + extra s.handled)
          (record s { handled = s.handled + 1 }))
  ]

  -- `ReadPayloads` with these options, whose error is logged.
  unfoldable pub read_payload : Config → Bytes → Log → Log
  read_payload c payload s =
      elim (consume_payload_lines (payload_handler c) (replay_options starter)
        (produce_payloads payload).0 s) [ none ↦ s | some s' ↦ s' ]

  -- The loop of `StartReplay`: whether it has returned, and the log.
  unfoldable pub serve : Config → List Event → Log → Bool × Log
  serve c [] s = (false, s)
  serve c (done ∷ events) s = (true, s)
  serve c (arrives text ∷ events) s = serve c events (read_payload c text s)

-- `Sender`: the channel holds what was sent, and is closed or not.
pub record Sender : Type 0 where
  pub ch : List Bytes
  pub closed : Bool

unfoldable pub sender_send : Sender → Bytes → Bool → Go Sender
sender_send s msg count_discards =
    if not count_discards
    then ok s
    else if s.closed
    then panic
    else ok (record s { ch = s.ch ++ msg ∷ [] })

unfoldable pub sender_close : Sender → Go Sender
sender_close s = if s.closed then panic else ok (record s { closed = true })
