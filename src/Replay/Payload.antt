-- ===== src/Replay/Payload.antt =====
-- `ConsumePayloadLines` and `ScanLines` of replay/payload.go. A handler is a function of its state;
-- `none` is its error, which ends the loop. A line is taken as it was sent: Replay/Lines says when
-- that is so.
use httpdump.Base.{
  ℕ, ◌+◌, Bool, true, false, not, ◌&&◌, ◌||◌, Option, none, some, List, [], ◌∷◌, ◌++◌, ltb,
  if◌then◌else◌, length, take, Bytes, index_byte,
}

-- `Msg`; the field `Data` is `payload`.
pub record Msg : Type 0 where
  pub title : Bytes
  pub payload : Bytes

-- `Options`, where the functions may be nil; the handler is an argument of its own.
pub record Options : Type 0 where
  pub starter : Option (Bytes → Bool)
  pub terminator : Option (Bytes → Bool)
  pub including_start : Bool
  pub including_end : Bool

-- The variables of the loop: `b`, `started` and `last`.
pub record Reading : Type 0 where
  pub b : Msg
  pub started : Bool
  pub last : Bytes

unfoldable pub holds : Option (Bytes → Bool) → Bytes → Bool
holds none pack = false
holds (some f) pack = f pack

unfoldable pub is_nil : Option (Bytes → Bool) → Bool
is_nil none = true
is_nil (some f) = false

module _ {S : Type 0} (handler : S → Msg → Option S) where
  -- `tryParsePayload`
  unfoldable pub try_parse_payload : Msg → S → Option S
  try_parse_payload b s = if ltb 0 (length b.payload) then handler s b else some s

  -- A round of the loop of `ConsumePayloadLines`.
  unfoldable pub consume_line : Options → Bytes → Reading → S → Option (Reading × S)
  consume_line o pack r s =
      if holds o.starter pack
      then elim (if r.started && is_nil o.terminator then try_parse_payload r.b s else some s) [
        | none ↦ none
        | some s' ↦ some (
          record {
            b = record { title = r.last; payload = (if o.including_start then pack else []) };
            started = true;
            last = pack;
          },
          s',
        )
      ]
      else if holds o.terminator pack
      then elim (if is_nil o.starter || r.started then try_parse_payload r.b s else some s) [
        | none ↦ none
        | some s' ↦ some (
          record {
            b = record { title = []; payload = (if o.including_end then pack else []) };
            started = false;
            last = pack;
          },
          s',
        )
      ]
      else if r.started || not (is_nil o.terminator)
      then some (
        record r { b = record { title = r.b.title; payload = r.b.payload ++ pack }; last = pack },
        s,
      )
      else some (record r { last = pack }, s)

  unfoldable pub consume_lines : Options → List Bytes → Reading → S → Option S
  consume_lines o [] r s =
      if r.started && is_nil o.terminator then try_parse_payload r.b s else some s
  consume_lines o (pack ∷ packs) r s = elim (consume_line o pack r s) [
    | none ↦ none
    | some (r', s') ↦ consume_lines o packs r' s'
  ]

  unfoldable pub consume_payload_lines : Options → List Bytes → S → Option S
  consume_payload_lines o packs s =
      consume_lines o packs
        (record { b = record { title = []; payload = [] }; started = false; last = [] }) s

-- `ScanLines`: how far the scanner advances, and the token.
unfoldable pub scan_lines : Bytes → Bool → ℕ × Option Bytes
scan_lines text at_eof =
    if at_eof && not (ltb 0 (length text)) then (0, none) else elim (index_byte text 10) [
      | some i ↦ (i + 1, some (take (i + 1) text))
      | none ↦ if at_eof then (length text, some text) else (0, none)
    ]
