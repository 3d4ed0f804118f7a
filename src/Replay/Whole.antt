-- ===== src/Replay/Whole.antt =====
-- What a replay hands on of the lines that it reads.
use httpdump.Base.{
  ◌<◌, ◌≡◌, inl, inr, refl, sym, ap, ◌∙◌, Bool, true, false, Option, none, some, List, [], ◌∷◌,
  ◌++◌, append-nil, append_assoc, if◌then◌else◌, length, length-append, Bytes, arith, Bool-cases,
}
use httpdump.Replay.Payload.{
  Msg, Options, Reading, holds, is_nil, try_parse_payload, consume_line, consume_lines,
  consume_payload_lines,
}
use httpdump.Replay.Lines.{lines_of, lines_of-concat, concat, AreFull}

-- The options of `createParseOptions`: a request begins at each line that `starter` takes for a
-- title.
abbrev pub replay_options : (Bytes → Bool) → Options
replay_options starter = record {
  starter = some starter;
  terminator = none;
  including_start = true;
  including_end = false;
}

-- A handler that keeps the payloads it is given.
abbrev pub keep : List Bytes → Msg → Option (List Bytes)
keep s b = some (s ++ b.payload ∷ [])

-- The lines from the first title on.
abbrev pub from_title : (Bytes → Bool) → List Bytes → List Bytes
from_title starter [] = []
from_title starter (x ∷ xs) = if starter x then x ∷ xs else from_title starter xs

concat-append : (xs ys : List Bytes) → concat (xs ++ ys) ≡ concat xs ++ concat ys
concat-append [] ys = refl
concat-append (x ∷ xs) ys =
    ap (λ r. x ++ r) (concat-append xs ys) ∙ sym (append_assoc x (concat xs) (concat ys))

abbrev reading : Bytes → Bytes → Bytes → Reading
reading title payload last = record {
  b = record { title = title; payload = payload };
  started = true;
  last = last;
}

abbrev waiting : Bytes → Reading
waiting last = record { b = record { title = []; payload = [] }; started = false; last = last }

module _ (starter : Bytes → Bool) where
  handed :
      (title payload : Bytes) (s : List Bytes)
      → 0 < length payload
      → try_parse_payload keep (record { title = title; payload = payload }) s
        ≡ some (s ++ payload ∷ [])
  unfolding try_parse_payload
  handed title payload s h = ground arith

  running :
      (lines : List Bytes) (title payload last : Bytes) (s : List Bytes)
      → AreFull lines
      → 0 < length payload
      → (out : List Bytes) × (consume_lines keep
            (replay_options starter)
            lines
            (reading title payload last)
            s
          ≡ some out)
        × (concat out ≡ concat s ++ (payload ++ concat lines))
  unfolding consume_lines
  running [] title payload last s full h =
      (s ++ payload ∷ [], unfold is_nil in handed title payload s h, concat-append s (payload ∷ []))
  running (x ∷ lines) title payload last s (more, full) h = elim (Bool-cases (starter x)) [
    | inl begins ↦
        let (out, e, whole) = running lines last x x (s ++ payload ∷ []) full more in
        let step : consume_line keep (replay_options starter) x (reading title payload last) s
            ≡ some (reading last x x, s ++ payload ∷ []) =
          unfold consume_line in
          unfold holds in unfold is_nil in simp (begins, handed title payload s h) refl in
        (
          out,
          rw (consume_lines, step) e,
          whole
              ∙ ap (λ r. r ++ (x ++ concat lines)) (concat-append s (payload ∷ []))
              ∙ simp (append-nil payload, append_assoc),
        )
    | inr goes ↦
        let (out, e, whole) =
          running lines title (payload ++ x) x s full (omega (arith, length-append payload x)) in
        let step : consume_line keep (replay_options starter) x (reading title payload last) s
            ≡ some (reading title (payload ++ x) x, s) =
          unfold consume_line in unfold holds in unfold is_nil in simp goes refl in
        (
          out,
          rw (consume_lines, step) e,
          whole ∙ ap (λ r. concat s ++ r) (append_assoc payload x (concat lines)),
        )
  ]

  before :
      (lines : List Bytes) (last : Bytes)
      → AreFull lines
      → (out : List Bytes) × (consume_lines keep (replay_options starter) lines (waiting last) []
          ≡ some out)
        × (concat out ≡ concat (from_title starter lines))
  unfolding consume_lines
  before [] last full = ([], refl, refl)
  before (x ∷ lines) last (more, full) = elim (Bool-cases (starter x)) [
    | inl begins ↦
        let (out, e, whole) = running lines last x x [] full more in
        let step : consume_line keep (replay_options starter) x (waiting last) []
            ≡ some (reading last x x, []) =
          unfold consume_line in unfold holds in unfold is_nil in simp begins refl in
        (out, rw (consume_lines, step) e, whole ∙ rw begins refl)
    | inr goes ↦
        let (out, e, whole) = before lines x full in
        let step : consume_line keep (replay_options starter) x (waiting last) []
            ≡ some (waiting x, []) =
          unfold consume_line in unfold holds in unfold is_nil in simp goes refl in
        (out, rw (consume_lines, step) e, whole ∙ rw goes refl)
  ]

-- With the options of a replay, the payloads that reach the handler, put together, are exactly the
-- bytes of the file from its first title line on, each once and in order; the lines before that
-- line are dropped.
pub replay-whole :
    (starter : Bytes → Bool) (text : Bytes)
    → (out : List Bytes) × (consume_payload_lines keep (replay_options starter) (lines_of text) []
        ≡ some out)
      × (concat out ≡ concat (from_title starter (lines_of text)))
unfolding consume_payload_lines
replay-whole starter text = before starter (lines_of text) [] (lines_of-concat text).1
