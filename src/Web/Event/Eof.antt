-- ===== src/Web/Event/Eof.antt =====
-- The message of a closed direction, as `ParseHTTPEvent` reads it.
use httpdump.Base.{
  ℕ, zero, suc, drop, index_byte, some, none, ◌≡◌, refl, ap, ◌∙◌, true, false, [], ◌∷◌, ◌++◌,
  append-nil, append_assoc, length, Bytes, codes, count_byte, has_prefix, ok, ◌>>=◌, arith,
}
use httpdump.Replay.Payload.{scan_lines}
use httpdump.Replay.Lines.{lines_from, lines_of}
use httpdump.Handler.Base.{Env, Base, Tag, tag_text, counted, handle_error}
use httpdump.Web.Event.{
  Calls, any_line, no_line, fields_at, head_line, scan_event, new_event, parse_http_event,
}
use httpdump.Filter.Mime.{is_space}
use httpdump.Web.Event.Fields.{lines_of-line}
use httpdump.Web.Event.Place.{AreWords, place, keep_word-full}
use httpdump.Web.Event.Title.{headed, head_line-eof, behind_blank, title_plain}

no_newline : (a : Bytes) → count_byte a 10 ≡ 0 → index_byte a 10 ≡ none
unfolding count_byte index_byte
no_newline [] h = refl
no_newline (c ∷ a) h = ground (arith, no_newline a (ground arith))

-- The last line, without a newline.
lines_of-last : (c : ℕ) (a : Bytes) → count_byte (c ∷ a) 10 ≡ 0 → lines_of (c ∷ a) ≡ (c ∷ a) ∷ []
unfolding lines_of lines_from
lines_of-last c a h =
    let scanned : scan_lines (c ∷ a) true ≡ (length (c ∷ a), some (c ∷ a)) =
      unfold scan_lines in simp (no_newline (c ∷ a) h) (ground arith) in
    let all : drop (length a) a ≡ [] = drop_all a in
    let step : lines_from (suc (length a)) (c ∷ a) ≡ (c ∷ a) ∷ lines_from (length a) [] =
      simp (lines_from, scanned, all) refl in
    step ∙ ap (λ l. (c ∷ a) ∷ l) (empty (length a))
  where
    drop_all : (a : Bytes) → drop (length a) a ≡ []
    drop_all [] = refl
    drop_all (x ∷ a) = drop_all a

    empty : (n : ℕ) → lines_from n [] ≡ []
    empty zero = unfold lines_from in refl
    empty (suc n) = unfold lines_from in unfold scan_lines in refl

-- The message of a closed direction is read back: of what `handleError` sends at the end of a
-- stream, the event is one of an end, with the number, the direction, the connection and the time
-- that the handler put in. The texts of the two ends and of the time have no spaces in them, and no
-- byte that a space outside ASCII begins with, and are no line of 64 KB.
pub parse_http_event-handle_error :
    (calls : Calls) (env : Env) (h : Base) (text : Bytes) (t : ℕ) (tag : Tag)
    → AreWords h.src h.dst (env.calls.format_time t)
    → h.using_json ≡ false
    → h.eof ≡ true
    → (msg : Bytes) × ((handle_error env h true text t tag).sent
        ≡ h.sent ++ record { msg = msg; count_discards = false } ∷ [])
      × (parse_http_event calls msg
          ≡ ok
              (record (headed calls
                (counted h tag)
                tag
                h.src
                h.dst
                (env.calls.format_time t)
                (new_event msg)) { eof = true }))
unfolding parse_http_event handle_error
parse_http_event-handle_error calls env h text t tag words no_json tells =
    let time = env.calls.format_time t in
    let line =
      codes "### " ++ place (codes "EOF#") (counted h tag) (tag_text tag) h.src h.dst time in
    let bare : time ++ [] ≡ time = append-nil time in
    let plain : count_byte line 10 ≡ 0 = simp bare at (
      title_plain (codes "EOF#") (counted h tag) tag h.src h.dst time [] (unfold is_space in refl)
        words (unfold count_byte in refl)) in
    let read : head_line calls (new_event (10 ∷ line)) line
        ≡ ok (
          record (headed calls (counted h tag) tag h.src h.dst time (new_event (10 ∷ line))) {
            eof = true;
          },
          no_line,
        ) =
      simp bare at (
        head_line-eof calls (counted h tag) tag h.src h.dst time words (new_event (10 ∷ line)) []
          (unfold fields_at in keep_word-full time words.time_full)) in
    (
      10 ∷ line,
      simp (no_json, tells, append_assoc) refl,
      ap (scan_event calls (new_event (10 ∷ line)) any_line) (
            lines_of-line [] line (unfold count_byte in refl)
            ∙ ap (λ l. (10 ∷ []) ∷ l) (lines_of-last 35 _ plain))
          ∙ behind_blank calls (new_event (10 ∷ line)) line [] refl (unfold has_prefix in refl)
          ∙ simp (read, ◌>>=◌) (unfold scan_event in refl),
    )
