-- ===== src/Handler/Format/Panics.antt =====
-- Where the printers panic.
use httpdump.Base.{
  ℕ, ◌≡◌, ◌↔◌, refl, Bool, true, false, not, ◌||◌, ◌&&◌, Option, none, some, [], if◌then◌else◌,
  Bytes, codes, bytes_eq, Go, ok, panic, ◌>>=◌,
}
use httpdump.Filter.Options
use httpdump.Filter.Options.{can_dump}
use httpdump.Filter.Mime.{parse_mime_type, parse_content_type, is_text_content}
use httpdump.Handler.Format.{
  Header, Calls, header_get, charset_decoder, read_with_charset, read_text, try_decompress,
  read_all, print_non_text_type_body, print_body, print_rest,
}

abbrev is_known : Option (Bytes → Option Bytes) → Bool
is_known none = false
is_known (some decode) = true

-- Whether `printBody` reads the body: it does unless the charset of a text is not known.
abbrev pub reads_body : Calls → Header → Bool
reads_body calls header =
    let parts = parse_content_type (header_get header (codes "Content-Type")) in
    not (is_text_content (parse_mime_type parts.0))
    || (bytes_eq parts.1 [] || is_known (charset_decoder calls.charsets parts.1))

-- Of the uses of a reader that do not panic by themselves, the chosen one panics where it is nil.
reads :
    (other plain : Bool) (d : Option (Bytes → Option Bytes)) (r : Option Bytes)
    (f : Bytes → Go Bytes) (g : Option Bytes → Go Bytes)
    → ((c : Bytes) → f c ≡ panic → ⊥)
    → ((o : Option Bytes) → g o ≡ panic → ⊥)
    → ((if other
          then (read_all r >>= f)
          else ((if plain
                then (read_all r >>= λ c. ok (some c))
                else elim d as (λ d. Go (Option Bytes)) [
                  | none ↦ ok none
                  | some decode ↦ read_all r >>= λ c. ok (decode c)
                ])
              >>= g))
        ≡ panic)
      ↔ ((r ≡ none) × ((other || (plain || is_known d)) ≡ true))
unfolding read_all
reads true plain d none f g hf hg = (λ h. (refl, refl), λ h. refl)
reads true plain d (some c) f g hf hg = (λ h. absurd (hf c h), λ h. absurd (cc h.0))
reads false true d none f g hf hg = (λ h. (refl, refl), λ h. refl)
reads false true d (some c) f g hf hg = (λ h. absurd (hg (some c) h), λ h. absurd (cc h.0))
reads false false none r f g hf hg = (λ h. absurd (hg none h), λ h. absurd (cc h.1))
reads false false (some k) none f g hf hg = (λ h. (refl, refl), λ h. refl)
reads false false (some k) (some c) f g hf hg = (λ h. absurd (hg (k c) h), λ h. absurd (cc h.0))

either_ok : (b : Bool) (x y : Bytes) → (if b then ok x else ok y) ≡ panic → ⊥
either_ok true x y h = absurd (cc h)
either_ok false x y h = absurd (cc h)

text_ok :
    (y : Bytes) (o : Option Bytes)
    → (elim o as (λ x. Go Bytes) [ none ↦ ok y | some t ↦ ok t ]) ≡ panic
    → ⊥
text_ok y none h = absurd (cc h)
text_ok y (some t) h = absurd (cc h)

-- `printBody` panics exactly where the decoder that `Content-Encoding` names does not start and the
-- body is read: the function goes on with the nil reader.
pub print_body-panic :
    (calls : Calls) (force : Bool) (header : Header) (body : Bytes)
    → (print_body calls force header body ≡ panic)
      ↔ ((try_decompress calls header body ≡ none) × (reads_body calls header ≡ true))
unfolding print_body print_non_text_type_body read_text read_with_charset
print_body-panic calls force header body =
    let parts = parse_content_type (header_get header (codes "Content-Type")) in
    reads _ (bytes_eq parts.1 []) (charset_decoder calls.charsets parts.1)
      (try_decompress calls header body) _ _ (λ c. either_ok _ _ _) (λ o. text_ok _ o)

-- What follows the headers is written without a panic, unless the body is printed and its decoder
-- does not start: there is a body, no dump takes it, the level is not `header`, and the body is no
-- text of a charset that is not known, of which nothing is read.
pub print_rest-panic :
    (calls : Calls) (o : Options.Options) (level : Bytes) (force has_body : Bool) (seq : ℕ)
    (tag : Bytes) (time : ℕ) (header : Header) (body : Bytes)
    → (print_rest calls o level force has_body seq tag time header body ≡ panic) ↔ (
        (has_body ≡ true)
        × (can_dump o ≡ false)
        × (bytes_eq level (codes "header") ≡ false)
        × (try_decompress calls header body ≡ none)
        × (reads_body calls header ≡ true))
unfolding print_rest
print_rest-panic calls o level force has_body seq tag time header body =
    rest _ _ has_body (can_dump o) (bytes_eq level (codes "header"))
      (print_body calls force header body) (print_body-panic calls force header body)
  where
    rest :
        (d e : Bytes × Options.Options) (b dump titles : Bool) (text : Go Bytes)
        → (text ≡ panic)
          ↔ ((try_decompress calls header body ≡ none) × (reads_body calls header ≡ true))
        → ((if b && dump
              then ok d
              else if titles
              then ok e
              else if b
              then (text >>= λ t. ok (t, o))
              else ok ([], o))
            ≡ panic)
          ↔ ((b ≡ true)
              × (dump ≡ false)
              × (titles ≡ false)
              × (try_decompress calls header body ≡ none)
              × (reads_body calls header ≡ true))
    rest d e false dump true text h = (λ p. absurd (cc p), λ q. absurd (cc q.0))
    rest d e false dump false text h = (λ p. absurd (cc p), λ q. absurd (cc q.0))
    rest d e true true titles text h = (λ p. absurd (cc p), λ q. absurd (cc q.1))
    rest d e true false true text h = (λ p. absurd (cc p), λ q. absurd (cc q.2))
    rest d e true false false (ok t) h = (λ p. absurd (cc p), λ q. absurd (cc (h.1 (q.3, q.4))))
    rest d e true false false panic h =
        (λ p. (refl, refl, refl, (h.0 refl).0, (h.0 refl).1), λ q. refl)
