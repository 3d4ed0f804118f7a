-- ===== src/Filter/Mime.antt =====
-- `MimeType`, `ParseMimeType`, `ParseContentType` and `LikeJSON` of handler/text_utils.go.
pub mod Parse
use httpdump.Base.{
  ℕ, zero, suc, ◌+◌, ◌-◌, Bool, true, false, ◌&&◌, ◌||◌, Option, none, some, List, [], ◌∷◌, ◌++◌,
  ltb, leb, ◌==◌, if◌then◌else◌, length, take, drop, Bytes, codes, index, has_prefix, member,
  byte_at, Go, ok, ◌>>=◌,
}
use mathlib.Core.List.{reverse}

pub record MimeType : Type 0 where
  pub type : Bytes
  pub sub_type : Bytes
  pub scope : Bytes

-- The scope of a subtype, and the subtype without it.
unfoldable pub cut_scope : Bytes → Bytes × Bytes
cut_scope sub =
    if has_prefix sub (codes "x-")
    then (drop 2 sub, codes "x")
    else if has_prefix sub (codes "vnd.")
    then (drop 4 sub, codes "vnd")
    else (sub, [])

-- The subtype up to its first dot, unless that comes first.
unfoldable pub cut_dot : Bytes → Bytes
cut_dot sub = elim (index sub (codes ".")) [
  | none ↦ sub
  | some i ↦ if ltb 0 i then take i sub else sub
]

unfoldable pub parse_mime_type : Bytes → MimeType
parse_mime_type s = elim (index s (codes "/")) [
  | none ↦ record { type = s; sub_type = []; scope = [] }
  | some idx ↦
      let cut = cut_scope (drop (idx + 1) s) in
      record { type = take idx s; sub_type = cut_dot cut.0; scope = cut.1 }
]

unfoldable pub text_sub_types : List Bytes
text_sub_types =
    codes "html"
    ∷ codes "xml"
    ∷ codes "json"
    ∷ codes "www-form-urlencoded"
    ∷ codes "javascript"
    ∷ codes "postscript"
    ∷ codes "atomcat+xml"
    ∷ codes "atomsvc+xml"
    ∷ codes "atom+xml"
    ∷ codes "xml-dtd"
    ∷ codes "ecmascript"
    ∷ codes "java-jnlp-file"
    ∷ codes "latex"
    ∷ codes "mpegurl"
    ∷ codes "rdf+xml"
    ∷ codes "rtf"
    ∷ codes "rss+xml"
    ∷ codes "svg+xml"
    ∷ codes "uri-list"
    ∷ codes "wsdl+xml"
    ∷ codes "xhtml+xml"
    ∷ codes "xslt+xml"
    ∷ codes "ns-proxy-autoconfig"
    ∷ codes "javascript-config"
    ∷ []

unfoldable pub is_text_content : MimeType → Bool
is_text_content ct = member ct.type (codes "text" ∷ []) || member ct.sub_type text_sub_types

unfoldable pub binary_types : List Bytes
binary_types = codes "image" ∷ codes "audio" ∷ codes "video" ∷ []

unfoldable pub binary_subtypes : List Bytes
binary_subtypes =
    codes "7z-compressed"
    ∷ codes "abiword"
    ∷ codes "ace-compressed"
    ∷ codes "shockwave-flash"
    ∷ codes "pdf"
    ∷ codes "director"
    ∷ codes "bzip"
    ∷ codes "bzip2"
    ∷ codes "debian-package"
    ∷ codes "epub+zip"
    ∷ codes "font-ghostscript"
    ∷ codes "font-bdf"
    ∷ codes "java-archive"
    ∷ codes "java-vm"
    ∷ codes "java-serialized-object"
    ∷ codes "msaccess"
    ∷ codes "msdownload"
    ∷ codes "ms-application"
    ∷ codes "ms-fontobject"
    ∷ codes "ms-excel"
    ∷ codes "openxmlformats-officedocument"
    ∷ codes "msbinder"
    ∷ codes "ms-officetheme"
    ∷ codes "onenote"
    ∷ codes "ms-powerpoint"
    ∷ codes "ms-project"
    ∷ codes "mspublisher"
    ∷ codes "msschedule"
    ∷ codes "silverlight-app"
    ∷ codes "visio"
    ∷ codes "ms-wmd"
    ∷ codes "ms-htmlhelp"
    ∷ codes "msword"
    ∷ codes "ms-works"
    ∷ codes "oda"
    ∷ codes "ogg"
    ∷ codes "oasis"
    ∷ codes "sun"
    ∷ codes "font-otf"
    ∷ codes "x-font-ttf"
    ∷ codes "unity"
    ∷ codes "zip"
    ∷ codes "x509-ca-cert"
    ∷ codes "octet-stream"
    ∷ codes "png"
    ∷ codes "ppt"
    ∷ codes "xls"
    ∷ []

unfoldable pub is_binary_content : MimeType → Bool
is_binary_content ct = member ct.type binary_types || member ct.sub_type binary_subtypes

-- A space of ASCII.
unfoldable pub is_space : ℕ → Bool
is_space c = c == 32 || (leb 9 c && leb c 13)

-- The spaces of `unicode.IsSpace` outside ASCII, in UTF-8: U+0085 and U+00A0 in two bytes, and in
-- three U+1680, U+2000 to U+200A, U+2028, U+2029, U+202F, U+205F and U+3000. No byte of a
-- well-formed character but its first begins a space, so that a scan for them may go byte by byte.
unfoldable pub is_space_2 : ℕ → ℕ → Bool
is_space_2 c d = c == 0xC2 && (d == 0x85 || d == 0xA0)

unfoldable pub is_space_3 : ℕ → ℕ → ℕ → Bool
is_space_3 c d e =
    c == 0xE1 && (d == 0x9A && e == 0x80)
    || (c == 0xE2
          && (d == 0x80 && (leb 0x80 e && leb e 0x8A || (e == 0xA8 || (e == 0xA9 || e == 0xAF)))
              || d == 0x81 && e == 0x9F)
        || c == 0xE3 && (d == 0x80 && e == 0x80))

-- How many bytes a space that begins with `c` has there; 0 if none does.
unfoldable pub space_width : ℕ → Bytes → ℕ
space_width c [] = if is_space c then 1 else 0
space_width c (d ∷ []) = if is_space c then 1 else if is_space_2 c d then 2 else 0
space_width c (d ∷ e ∷ s) =
    if is_space c then 1 else if is_space_2 c d then 2 else if is_space_3 c d e then 3 else 0

-- The same from the end of a text, whose bytes come in reverse.
unfoldable pub space_width_back : ℕ → Bytes → ℕ
space_width_back c [] = if is_space c then 1 else 0
space_width_back c (d ∷ []) = if is_space c then 1 else if is_space_2 d c then 2 else 0
space_width_back c (d ∷ e ∷ s) =
    if is_space c then 1 else if is_space_2 d c then 2 else if is_space_3 e d c then 3 else 0

-- A text without the spaces that it begins with, `skip` bytes of one of which are left.
unfoldable pub trim_from : (ℕ → Bytes → ℕ) → ℕ → Bytes → Bytes
trim_from width skip [] = []
trim_from width (suc skip) (c ∷ s) = trim_from width skip s
trim_from width zero (c ∷ s) = elim (width c s) [ zero ↦ c ∷ s | suc skip ↦ trim_from width skip s ]

-- `strings.TrimSpace`
unfoldable pub trim_space : Bytes → Bytes
trim_space s = reverse (trim_from space_width_back 0 (reverse (trim_from space_width 0 s)))

unfoldable pub parse_charset : Bytes → Bytes
parse_charset segment = elim (index segment (codes "=")) [
  | none ↦ []
  | some eidx ↦ trim_space (drop (eidx + 1) segment)
]

unfoldable pub parse_content_type : Bytes → Bytes × Bytes
parse_content_type s = elim (index s (codes ";")) [
  | none ↦ (trim_space s, [])
  | some idx ↦ (trim_space (take idx s), parse_charset (trim_space (drop (idx + 1) s)))
]

-- `s[0] == first && s[len(s)-1] == last`, which reads `s[len(s)-1]` only after the first test.
unfoldable pub bracketed : Bytes → ℕ → ℕ → Go Bool
bracketed s first last = byte_at s 0 >>= λ a.
    if a == first then (byte_at s (length s - 1) >>= λ b. ok (b == last)) else ok false

unfoldable pub like_json : Bytes → Go Bool
like_json s =
    if ltb (length s) 2
    then ok false
    else (bracketed (trim_space s) b'[' b']' >>= λ array.
        if array then ok true else bracketed (trim_space s) b'{' b'}')
