-- ===== src/Web/Event/Fields.antt =====
-- The fields of a line, and the lines of a text.
use httpdump.Base.{
  ℕ, zero, suc, ◌+◌, ◌≤◌, ◌≡◌, ◌/◌, ◌%◌, inl, inr, refl, sym, ap, ◌∙◌, Bool, true, false, not, ◌&&◌,
  ◌||◌, ◌==◌, if◌then◌else◌, some, [], ◌∷◌, ◌++◌, append-nil, append_assoc, length, length-append,
  length-drop, take, drop, Bytes, digits, itoa, ltb, count_byte, arith, Bool-cases,
}
use httpdump.Base.Text.Search.{index_byte-append, take-line, drop-line}
use httpdump.Filter.Mime.{is_space, is_space_2, is_space_3, space_width}
use httpdump.Replay.Payload.{scan_lines}
use httpdump.Replay.Lines.{lines_from, lines_of, scan_lines-full}
use httpdump.Web.Event.{keep_word, fields_at, fields_from, fields}

-- A byte that a space outside ASCII begins with, in UTF-8.
abbrev pub begins_space : ℕ → Bool
begins_space c = c == 0xC2 || (c == 0xE1 || (c == 0xE2 || c == 0xE3))

-- A text without spaces, and without the bytes that a space outside ASCII begins with.
abbrev pub is_word : Bytes → Bool
is_word [] = true
is_word (c ∷ s) = not (is_space c) && (not (begins_space c) && is_word s)

pub space_width-plain :
    (c : ℕ) (s : Bytes) → begins_space c ≡ false → space_width c s ≡ (if is_space c then 1 else 0)
unfolding space_width is_space_2 is_space_3
space_width-plain c [] h = refl
space_width-plain c (d ∷ []) h = ground arith
space_width-plain c (d ∷ e ∷ s) h = ground arith

pub space_width-gap : (s : Bytes) → space_width 32 s ≡ 1
unfolding is_space
space_width-gap s = space_width-plain 32 s refl

pub is_word-append : (a b : Bytes) → is_word (a ++ b) ≡ (is_word a && is_word b)
is_word-append [] b = refl
is_word-append (c ∷ a) b = ground (arith, is_word-append a b)

-- A word goes on over bytes without spaces.
pub fields_from-word :
    (word a rest : Bytes)
    → is_word a ≡ true
    → fields_from word (a ++ rest) ≡ fields_from (word ++ a) rest
unfolding fields_at
fields_from-word word [] rest h = ap (λ w. fields_from w rest) (sym (append-nil word))
fields_from-word word (c ∷ a) rest h = elim (Bool-cases (is_space c)) [
  | inl gap ↦ absurd (ground arith)
  | inr on ↦
      let narrow : space_width c (a ++ rest) ≡ 0 =
        space_width-plain c (a ++ rest) (ground arith) ∙ rw on refl in
      rw (fields_at, narrow)
        (fields_from-word (word ++ c ∷ []) a rest (ground arith)
          ∙ ap (λ w. fields_from w rest) (append_assoc word (c ∷ []) a))
]

-- The first field of a text that begins with a word and a space.
pub fields-word :
    (c : ℕ) (a : Bytes) (rest : Bytes)
    → is_word (c ∷ a) ≡ true
    → fields ((c ∷ a) ++ 32 ∷ rest) ≡ (c ∷ a) ∷ fields rest
unfolding fields_at keep_word is_space
fields-word c a rest h =
    fields_from-word [] (c ∷ a) (32 ∷ rest) h ∙ simp (fields_at, space_width-gap rest) refl

pub digits-word :
    (fuel n : ℕ) (rest : Bytes) → is_word rest ≡ true → is_word (digits fuel n rest) ≡ true
unfolding digits is_space
digits-word zero n rest h = h
digits-word (suc fuel) n rest h = elim (Bool-cases (ltb n 10)) [
  | inl small ↦ simp (digits, small) (ground arith)
  | inr big ↦ simp (digits, big) (digits-word fuel (n / 10) ((48 + n % 10) ∷ rest) (ground arith))
]

pub itoa-word : (n : ℕ) → is_word (itoa n) ≡ true
unfolding itoa
itoa-word n = digits-word (suc n) n [] refl

-- A word has no newline.
pub word-line : (a : Bytes) → is_word a ≡ true → count_byte a 10 ≡ 0
unfolding count_byte is_space
word-line [] h = refl
word-line (c ∷ a) h = ground (arith, word-line a (ground arith))

-- More fuel than bytes changes nothing.
lines_from-same :
    (f g : ℕ) (text : Bytes)
    → length text ≤ f
    → length text ≤ g
    → lines_from f text ≡ lines_from g text
unfolding lines_from
lines_from-same zero zero text h k = refl
lines_from-same zero (suc g) [] h k = unfold scan_lines in refl
lines_from-same (suc f) zero [] h k = unfold scan_lines in refl
lines_from-same (suc f) (suc g) [] h k = unfold scan_lines in refl
lines_from-same zero g (x ∷ text) h k = absurd (omega arith)
lines_from-same (suc f) zero (x ∷ text) h k = absurd (omega arith)
lines_from-same (suc f) (suc g) (x ∷ text) h k =
    let (i, inside, e) = scan_lines-full x text in
    let small = length-drop i text in
    simp (lines_from, e)
      (ap (λ l. (x ∷ take i text) ∷ l)
        (lines_from-same f g (drop i text) (omega arith) (omega arith)))

-- The first line of a text.
pub lines_of-line :
    (a rest : Bytes)
    → count_byte a 10 ≡ 0
    → lines_of (a ++ 10 ∷ rest) ≡ (a ++ 10 ∷ []) ∷ lines_of rest
unfolding lines_of
lines_of-line a rest h =
    let text = a ++ 10 ∷ rest in
    let size : length text ≡ suc (length a + length rest) =
      omega (arith, length-append a (10 ∷ rest)) in
    let some_text : ltb 0 (length text) ≡ true = ground arith in
    let scanned : scan_lines text true ≡ (length a + 1, some (a ++ 10 ∷ [])) =
      unfold scan_lines in
      simp (some_text, index_byte-append a 10 rest h, take-line a 10 rest) refl in
    ap (λ n. lines_from n text) size
    ∙ unfold lines_from in
      simp (lines_from, scanned, drop-line a 10 rest)
        (ap (λ l. (a ++ 10 ∷ []) ∷ l)
          (lines_from-same (length a + length rest) (length rest) rest (omega arith) (omega arith)))
