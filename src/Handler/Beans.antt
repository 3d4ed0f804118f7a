-- ===== src/Handler/Beans.antt =====
-- The beans of handler/handler_base.go, which are marshalled to JSON, with `ReadTextBody` behind
-- them; `ReadWithCharset` stands in Handler/Format. The marshalling is a parameter; a body whose
-- reader fails on the way is left out, as in Handler/Format.
use httpdump.Base.{
  ℕ, zero, suc, ◌≤◌, ◌<◌, ◌≡◌, subst, ap, max, inl, inr, Bool, true, false, not, ◌||◌, Option, none,
  some, [], ◌∷◌, ltb, if◌then◌else◌, length, take, Bytes, codes, bytes_eq, bytes_eq_refl, Go, ok,
  ok_of, ◌>>=◌, Bool-cases, Option-cases, arith,
}
use httpdump.Filter.Mime.{MimeType, parse_mime_type, parse_content_type, is_text_content}
use mathlib.Core.Option
use httpdump.Handler.Format.{
  Header, Req, Rsp, Calls, header_get, try_decompress, read_all, read_text,
}

-- `header.Del(name)` at a canonical name.
unfoldable pub header_del : Header → Bytes → Header
header_del [] name = []
header_del ((key, values) ∷ header) name =
    let rest = header_del header name in if bytes_eq key name then rest else (key, values) ∷ rest

-- The header as `TryDecompress` leaves it, which the bean shares with it.
unfoldable pub decompressed_header : Header → Header
decompressed_header header =
    let c = header_get header (codes "Content-Encoding") in
    if bytes_eq c (codes "gzip") || bytes_eq c (codes "deflate")
    then header_del (header_del header (codes "Content-Encoding")) (codes "Content-Length")
    else header

-- The reader that `ReadTextBody` limits, where the limit is above 0; a read of a limited nil reader
-- panics, too.
unfoldable pub limited : ℕ → Option Bytes → Option Bytes
limited limit reader = if ltb 0 limit then Option.map (take limit) reader else reader

-- `ReadTextBody`: the type, the body, and whether it was read.
unfoldable pub read_text_body : Calls → Header → Bytes → ℕ → Go (MimeType × Bytes × Bool)
read_text_body calls header body limit =
    let nr = limited limit (try_decompress calls header body) in
    let parts = parse_content_type (header_get header (codes "Content-Type")) in
    let mt = parse_mime_type parts.0 in
    if not (is_text_content mt)
    then ok (mt, codes "(binary)", false)
    else (read_text calls.charsets nr parts.1 >>= λ read. elim read [
      | none ↦ ok (mt, codes "(failed)", false)
      | some text ↦ ok (mt, text, true)
    ])

-- `ReadBody`
unfoldable pub read_body : Calls → ℕ → Header → Bytes → Go Bytes
read_body calls max_body_size header body =
    read_text_body calls header body max_body_size >>= λ r. ok r.1

pub record ReqBean : Type 0 where
  pub seq : ℕ
  pub src : Bytes
  pub dest : Bytes
  pub timestamp : Bytes
  pub request_uri : Bytes
  pub method : Bytes
  pub host : Bytes
  pub header : Header
  pub body : Bytes

pub record RspBean : Type 0 where
  pub seq : ℕ
  pub src : Bytes
  pub dest : Bytes
  pub timestamp : Bytes
  pub header : Header
  pub body : Bytes
  pub status_code : ℕ

-- `ReqToJSON`; `marshal` gives `none` for its error.
unfoldable pub req_to_json :
    Calls → ℕ → (ReqBean → Option Bytes) → Req → ℕ → Bytes → Bytes → Bytes → Go (Option Bytes)
req_to_json calls max_body_size marshal h seq src dest timestamp =
    read_body calls max_body_size h.header h.body >>= λ body. ok (
      marshal (record {
        seq = seq;
        src = src;
        dest = dest;
        timestamp = timestamp;
        request_uri = h.request_uri;
        method = h.method;
        host = h.host;
        header = decompressed_header h.header;
        body = body;
      }))

-- `RspToJSON`
unfoldable pub rsp_to_json :
    Calls → ℕ → (RspBean → Option Bytes) → Rsp → ℕ → Bytes → Bytes → Bytes → Go (Option Bytes)
rsp_to_json calls max_body_size marshal h seq src dest timestamp =
    read_body calls max_body_size h.header h.body >>= λ body. ok (
      marshal (record {
        seq = seq;
        src = src;
        dest = dest;
        timestamp = timestamp;
        header = decompressed_header h.header;
        body = body;
        status_code = h.status_code;
      }))

length-take_le : (n : ℕ) (s : Bytes) → length (take n s) ≤ n
length-take_le zero s = omega arith
length-take_le (suc n) [] = omega arith
length-take_le (suc n) (x ∷ s) = omega (arith, length-take_le n s)

length-limited :
    (limit : ℕ) (r : Option Bytes) (s : Bytes)
    → 0 < limit
    → limited limit r ≡ some s
    → length s ≤ limit
unfolding limited
length-limited limit none s h e =
    let more : ltb 0 limit ≡ true = ground arith in cc (simp more at e)
length-limited limit (some x) s h e =
    let more : ltb 0 limit ≡ true = ground arith in
    let same : some (take limit x) ≡ some s = simp more at e in
    let cut : take limit x ≡ s = cc in omega (arith, length-take_le limit x, ap length cut)

-- The body of a bean has at most as many bytes as the limit says, or the eight of `(binary)`, where
-- its type names no charset that has to be converted.
pub read_text_body-bounded :
    (calls : Calls) (header : Header) (body : Bytes) (limit : ℕ) (r : MimeType × Bytes × Bool)
    → 0 < limit
    → (parse_content_type (header_get header (codes "Content-Type"))).1 ≡ []
    → read_text_body calls header body limit ≡ ok r
    → length r.1 ≤ max limit 8
unfolding read_text_body read_text read_all
read_text_body-bounded calls header body limit r h plain e =
    elim (Bool-cases (
      not (
        is_text_content
          (parse_mime_type (parse_content_type (header_get header (codes "Content-Type"))).0)))) [
            | inl binary ↦
                subst (λ x. length x.1 ≤ max limit 8) (ok_of (simp binary at e)) (omega arith)
            | inr text ↦ elim (Option-cases (limited limit (try_decompress calls header body))) [
              | inl nothing ↦
                  cc (simp (text, plain, bytes_eq_refl [], nothing, read_all, ◌>>=◌) at e)
              | inr (content, given) ↦
                  subst (λ x. length x.1 ≤ max limit 8)
                    (ok_of (simp (text, plain, bytes_eq_refl [], given, read_all, ◌>>=◌) at e))
                    (omega (arith, length-limited limit _ content h given))
            ]
          ]
