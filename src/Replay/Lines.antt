-- ===== src/Replay/Lines.antt =====
-- `ProducePayloads` of replay/payload.go: the tokens of a `bufio.Scanner` with `ScanLines`, and its
-- error. A line is a part of the scanner's own buffer, which no code copies; the scanner moves what
-- is in its buffer of 4,096 bytes or more only behind half of it, so that the lines of a text of at
-- most 2,048 bytes stay as they were sent. Those of a longer text are taken here as they were sent,
-- too.
use httpdump.Base.{
  ℕ, zero, suc, ◌+◌, ◌≤◌, ◌<◌, ◌≡◌, subst, inl, inr, refl, sym, ap, ◌∙◌, true, none, some, List, [],
  ◌∷◌, ◌++◌, Bool, false, not, ltb, length, take, drop, take-append-drop, take_all, length-drop,
  Bytes, index_byte, arith, Option-cases,
}
use httpdump.Base.Text.Search.{index_byte-split}
use httpdump.Replay.Payload.{scan_lines}

-- The lines of a text, on as many rounds as it has bytes.
unfoldable pub lines_from : ℕ → Bytes → List Bytes
lines_from zero text = []
lines_from (suc fuel) text =
    let r = scan_lines text true in
    let rest = lines_from fuel (drop r.0 text) in elim r.1 [ none ↦ [] | some token ↦ token ∷ rest ]

unfoldable pub lines_of : Bytes → List Bytes
lines_of text = lines_from (length text) text

-- `MaxScanTokenSize`
abbrev pub max_token : ℕ
max_token = 65536

-- The lines that a text of at most so many bytes sends are never moved in the scanner's buffer.
abbrev pub unmoved : ℕ
unmoved = 2048

-- The tokens of the scanner and whether it ends with `ErrTooLong`: its buffer is full, the end of
-- the text not read, and no token in it. A round gives a token or is the last.
unfoldable pub scan_tokens : ℕ → Bytes → List Bytes × Bool
scan_tokens zero text = ([], false)
scan_tokens (suc fuel) text =
    let whole = ltb (length text) max_token in
    let r = scan_lines (take max_token text) whole in
    let rest = scan_tokens fuel (drop r.0 text) in
    elim r.1 [ none ↦ ([], not whole) | some token ↦ (token ∷ rest.0, rest.1) ]

-- What `ProducePayloads` sends, and whether it returns an error.
unfoldable pub produce_payloads : Bytes → List Bytes × Bool
produce_payloads text = scan_tokens (length text) text

scan_tokens-small :
    (fuel : ℕ) (text : Bytes)
    → length text < max_token
    → scan_tokens fuel text ≡ (lines_from fuel text, false)
unfolding scan_tokens lines_from
scan_tokens-small zero text h = refl
scan_tokens-small (suc fuel) text h =
    let whole : ltb (length text) max_token ≡ true = ground arith in
    let all : take max_token text ≡ text = take_all max_token text (omega arith) in
    let rest =
      scan_tokens-small fuel (drop (scan_lines text true).0 text)
        (omega (arith, length-drop (scan_lines text true).0 text)) in
    elim (Option-cases (scan_lines text true).1) [
      | inl nothing ↦ simp (scan_tokens, lines_from, whole, all, nothing) refl
      | inr (token, found) ↦ simp (scan_tokens, lines_from, whole, all, found, rest) refl
    ]

-- A text that the scanner's buffer holds is sent line by line, without an error.
pub produce_payloads-small :
    (text : Bytes) → length text < max_token → produce_payloads text ≡ (lines_of text, false)
unfolding produce_payloads lines_of
produce_payloads-small text h = scan_tokens-small (length text) text h

abbrev pub concat : List Bytes → Bytes
concat [] = []
concat (x ∷ xs) = x ++ concat xs

-- A line: a newline ends it, or it is the last, and none of it is empty.
abbrev pub AreFull : List Bytes → Type 0
AreFull [] = Unit
AreFull (x ∷ xs) = (0 < length x) × AreFull xs

-- A token takes at least a byte.
pub scan_lines-full :
    (x : ℕ) (text : Bytes)
    → (i : ℕ) × (i ≤ length text) × (scan_lines (x ∷ text) true ≡ (suc i, some (x ∷ take i text)))
unfolding scan_lines
scan_lines-full x text = elim (Option-cases (index_byte (x ∷ text) 10)) [
  | inl nothing ↦
      let all : take (length text) text ≡ text = take_all (length text) text (omega arith) in
      (length text, omega arith, ground (arith, nothing, all))
  | inr (i, found) ↦
      let (_, _, inside) = index_byte-split (x ∷ text) 10 i found in
      let next : i + 1 ≡ suc i = omega arith in
      (i, omega (arith, inside), simp (scan_lines, found, next) (ground arith))
]

lines_from-concat :
    (fuel : ℕ) (text : Bytes)
    → length text ≤ fuel
    → (concat (lines_from fuel text) ≡ text) × AreFull (lines_from fuel text)
unfolding lines_from
lines_from-concat zero [] h = (refl, tt)
lines_from-concat zero (x ∷ text) h = absurd (omega arith)
lines_from-concat (suc fuel) [] h = (unfold scan_lines in refl, unfold scan_lines in tt)
lines_from-concat (suc fuel) (x ∷ text) h =
    let (i, inside, e) = scan_lines-full x text in
    let (joined, full) = lines_from-concat fuel (drop i text) (omega (arith, length-drop i text)) in
    let step : lines_from (suc fuel) (x ∷ text)
        ≡ (x ∷ take i text) ∷ lines_from fuel (drop i text) =
      simp (lines_from, e) refl in
    let whole : concat ((x ∷ take i text) ∷ lines_from fuel (drop i text)) ≡ x ∷ text =
      ap (λ r. x ∷ (take i text ++ r)) joined ∙ ap (λ r. x ∷ r) (take-append-drop i text) in
    (ap concat step ∙ whole, subst AreFull (sym step) (omega arith, full))

-- The lines of a text, put together, are the text, and none of them is empty.
pub lines_of-concat : (text : Bytes) → (concat (lines_of text) ≡ text) × AreFull (lines_of text)
unfolding lines_of
lines_of-concat text = lines_from-concat (length text) text (omega arith)
