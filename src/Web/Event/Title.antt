-- ===== src/Web/Event/Title.antt =====
-- The lines that the handler writes for the page, as `ParseHTTPEvent` reads them.
use httpdump.Base.{
  ℕ, ◌<◌, ◌≡◌, refl, true, false, List, [], ◌∷◌, ◌++◌, length, Bytes, codes, itoa, bytes_eq,
  has_prefix, slice, slice-tail, count_byte, ok, ◌>>=◌, arith,
}
use httpdump.Base.Text.Search.{count_byte-append}
use httpdump.Filter.Mime.{is_space}
use httpdump.Handler.Format
use httpdump.Handler.Base.{Tag, tag_request, tag_response, tag_text}
use httpdump.Web.Event.{
  Calls, HttpEvent, fields_from, fields, fields_n, head_event, head_line, Expect, any_line,
  request_title, response_title, no_line, scan_event, header_line,
}
use httpdump.Web.Event.Place.{place, AreWords, fields-place}
use httpdump.Web.Event.Fields.{is_word, itoa-word, word-line}

-- The line of `title_line`, without its newline.
abbrev title_text : ℕ → Bytes → Bytes → Bytes → Bytes → Bytes
title_text seq tag src dst time =
    codes "### " ++ place (codes "#") seq tag src dst (time ++ 13 ∷ [])

tag_word : (tag : Tag) → (is_word (tag_text tag) ≡ true) × (0 < length (tag_text tag))
unfolding tag_text is_space
tag_word tag_request = (refl, omega arith)
tag_word tag_response = (refl, omega arith)

abbrev pub expects : Tag → Expect
expects tag_request = request_title
expects tag_response = response_title

-- The event behind the line.
abbrev pub headed : Calls → ℕ → Tag → Bytes → Bytes → Bytes → HttpEvent → HttpEvent
headed calls seq tag src dst time e = record e {
  req = bytes_eq (tag_text tag) (codes "REQ");
  rsp = bytes_eq (tag_text tag) (codes "RSP");
  seq = calls.parse_int (itoa seq);
  connection = src ++ 45 ∷ dst;
  timestamp = time;
  size = calls.i_bytes (length e.payload);
}

module _ (calls : Calls) (seq : ℕ) (tag : Tag) (src dst time : Bytes)
    (words : AreWords src dst time) where
  line_fields :
      (mark : Bytes)
      → is_word mark ≡ true
      → 0 < length mark
      → (gap : Bytes) → fields_from time gap ≡ time ∷ []
      → fields (codes "### " ++ place mark seq (tag_text tag) src dst (time ++ gap))
        ≡ codes "###" ∷ (mark ++ itoa seq) ∷ tag_text tag ∷ (src ++ 45 ∷ dst) ∷ time ∷ []
  line_fields mark h k gap e =
      fields-place mark seq (tag_text tag) src dst time gap h k (tag_word tag).0 (tag_word tag).1
        words.src_word words.dst_word words.time_word words.time_full e

  pub head_line-eof :
      (e : HttpEvent) (gap : Bytes)
      → fields_from time gap ≡ time ∷ []
      → head_line calls e
          (codes "### " ++ place (codes "EOF#") seq (tag_text tag) src dst (time ++ gap))
        ≡ ok (record (headed calls seq tag src dst time e) { eof = true }, no_line)
  unfolding head_line fields_n head_event
  head_line-eof e gap ends =
      let split = line_fields (codes "EOF#") (unfold is_space in refl) (omega arith) gap ends in
      let digits : slice (codes "EOF#" ++ itoa seq) 4 (length (codes "EOF#" ++ itoa seq))
          ≡ ok (itoa seq) =
        slice-tail (codes "EOF#" ++ itoa seq) 4 (omega arith) in
      simp (split, ◌>>=◌, digits) (unfold has_prefix in refl)

pub title_plain :
    (mark : Bytes) (seq : ℕ) (tag : Tag) (src dst time gap : Bytes)
    → is_word mark ≡ true
    → AreWords src dst time
    → count_byte gap 10 ≡ 0
    → count_byte (codes "### " ++ place mark seq (tag_text tag) src dst (time ++ gap)) 10 ≡ 0
unfolding count_byte
title_plain mark seq tag src dst time gap mark_word words plain = ground (
  arith,
  count_byte-append (mark ++ itoa seq)
      (32 ∷ (tag_text tag ++ 32 ∷ ((src ++ 45 ∷ dst) ++ 32 ∷ (time ++ gap)))) 10,
  count_byte-append mark (itoa seq) 10,
  count_byte-append (tag_text tag) (32 ∷ ((src ++ 45 ∷ dst) ++ 32 ∷ (time ++ gap))) 10,
  count_byte-append (src ++ 45 ∷ dst) (32 ∷ (time ++ gap)) 10,
  count_byte-append src (45 ∷ dst) 10,
  count_byte-append time gap 10,
  word-line mark mark_word,
  word-line (itoa seq) (itoa-word seq),
  word-line (tag_text tag) (tag_word tag).0,
  word-line src words.src_word,
  word-line dst words.dst_word,
  word-line time words.time_word,
  plain,
)

-- A blank line says nothing, and a line `###` is read behind it.
pub behind_blank :
    (calls : Calls) (e : HttpEvent) (line : Bytes) (lines : List Bytes)
    → e.rsp ≡ false
    → has_prefix line (codes "###") ≡ true
    → scan_event calls e any_line ((10 ∷ []) ∷ line ∷ lines)
      ≡ (head_line calls e line >>= λ r. scan_event calls r.0 r.1 lines)
unfolding scan_event header_line has_prefix
behind_blank calls e line lines no_rsp h = simp (no_rsp, ◌>>=◌, h) refl
