-- ===== src/Web/Tests.antt =====
-- Runs of the event parser at concrete messages.
use httpdump.Base.{◌≡◌, ◌↔◌, refl, true, false, [], ◌∷◌, ◌++◌, Bytes, codes, ok, panic, pos, arith}
use httpdump.Filter.Mime.{is_space, is_space_2, is_space_3, space_width}
use httpdump.Handler.Sample
use httpdump.Handler.Format.{title_line}
use httpdump.Handler.Base.{tag_request, tag_text, counted, handle_error}
use httpdump.Web.Event.{Calls, new_event, parse_http_event, fields, fields_at, keep_word, head_line}
use httpdump.Web.Event.Place.{AreWords}
use httpdump.Web.Event.Title.{headed}
use httpdump.Web.Event.Eof.{parse_http_event-handle_error}
use httpdump.Web.Event.Panics.{lacks, head_line-panic}

abbrev calls : Calls
calls = record {
  parse_int = λ s. pos 7;
  ss_fields_n = λ s n. s ∷ s ∷ [];
  i_bytes = λ n. codes "1KB";
}

ends-AreWords : AreWords (codes "a") (codes "b") (codes "2022-04-17")
unfolding is_space
ends-AreWords = record {
  src_word = refl;
  dst_word = refl;
  time_word = refl;
  time_full = omega arith;
}

abbrev message : Bytes
message =
    title_line Sample.calls 7 (tag_text tag_request) (codes "a") (codes "b") 0
    ++ codes "GET / HTTP/1.1"

parse_http_event-handle_error_example :
    (msg : Bytes) × ((handle_error Sample.env Sample.base true [] 0 tag_request).sent
      ≡ Sample.base.sent ++ record { msg = msg; count_discards = false } ∷ [])
    × (parse_http_event calls msg
        ≡ ok
            (record (headed calls
              (counted Sample.base tag_request)
              tag_request
              Sample.base.src
              Sample.base.dst
              (codes "2022-04-17")
              (new_event msg)) { eof = true }))
parse_http_event-handle_error_example =
    parse_http_event-handle_error calls Sample.env Sample.base [] 0 tag_request ends-AreWords refl
      refl

short_test : lacks (fields (codes "### #1 REQ a-b")) ≡ true
unfolding fields_at keep_word is_space is_space_2 is_space_3 space_width
short_test = refl

-- U+00A0 is between the last two fields.
wide_test :
    fields (codes "### a b c" ++ 0xC2 ∷ 0xA0 ∷ codes "d")
    ≡ codes "###" ∷ codes "a" ∷ codes "b" ∷ codes "c" ∷ codes "d" ∷ []
unfolding fields_at keep_word is_space is_space_2 is_space_3 space_width
wide_test = refl

-- U+3000, U+1680, U+2028 and U+205F are spaces, and U+200B is none.
spaces_test :
    fields (
      0xE3 ∷ 0x80 ∷ 0x80 ∷ 65 ∷ 0xE1 ∷ 0x9A ∷ 0x80 ∷ 66 ∷ 0xE2 ∷ 0x80 ∷ 0xA8 ∷ 67 ∷ 0xE2 ∷ 0x81
      ∷ 0x9F ∷ 68 ∷ 0xE2 ∷ 0x80 ∷ 0x8B ∷ [])
    ≡ codes "A" ∷ codes "B" ∷ codes "C" ∷ (68 ∷ 0xE2 ∷ 0x80 ∷ 0x8B ∷ []) ∷ []
unfolding fields_at keep_word is_space is_space_2 is_space_3 space_width
spaces_test = refl

head_line-panic_example :
    (head_line calls (new_event []) (codes "### #1 REQ a-b") ≡ panic)
    ↔ (lacks (fields (codes "### #1 REQ a-b")) ≡ true)
head_line-panic_example = head_line-panic calls (new_event []) (codes "### #1 REQ a-b")
