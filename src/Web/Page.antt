-- ===== src/Web/Page.antt =====
-- `SSEWebHandler` of sse.go: what each path is answered with. `path.Join("/", p)` is a parameter,
-- and so are the answers themselves.
use httpdump.Base.{
  ◌≡◌, inl, inr, refl, sym, ap, ◌∙◌, [], ◌++◌, if◌then◌else◌, length, drop, Bytes, codes, bytes_eq,
  bytes_eq_iff, has_prefix, Bool-cases,
}

-- The page with its context path, the stream of events, or a file behind a prefix.
pub data Serving : Type 0 where
  page : Bytes → Serving
  events : Serving
  files : Bytes → Serving

-- `strings.TrimPrefix(s, prefix)`
unfoldable pub trim_prefix : Bytes → Bytes → Bytes
trim_prefix s prefix = if has_prefix s prefix then drop (length prefix) s else s

-- The variable `contextPath`, which the requests share, as a request leaves it.
unfoldable pub next_context : Bytes → Bytes
next_context context = if bytes_eq context (codes "/") then [] else context

-- A request: what it is answered with.
unfoldable pub serve_web : (Bytes → Bytes) → Bytes → Bytes → Serving
serve_web join context url_path =
    let p = join (trim_prefix url_path context) in
    if bytes_eq p (codes "/")
    then page (next_context context)
    else if bytes_eq p (codes "/sse")
    then events
    else files (next_context context)

rooted :
    (join : Bytes → Bytes) (rest : Bytes)
    → join (codes "/" ++ rest) ≡ join rest
    → serve_web join [] (codes "/" ++ rest) ≡ serve_web join (codes "/") (codes "/" ++ rest)
unfolding serve_web trim_prefix has_prefix next_context bytes_eq
rooted join rest clean = simp clean refl

-- The requests that came before make no difference: a request for a path is answered the same
-- whether it is the first one or comes behind another, though the first one changes the variable
-- that they share. `Join` with the root takes a path with a slash before it for the path without.
pub serve_web-stable :
    (join : Bytes → Bytes) (context rest : Bytes)
    → ((s : Bytes) → join (codes "/" ++ s) ≡ join s)
    → serve_web join (next_context context) (codes "/" ++ rest)
      ≡ serve_web join context (codes "/" ++ rest)
unfolding serve_web
serve_web-stable join context rest clean = elim (Bool-cases (bytes_eq context (codes "/"))) [
  | inl root ↦
      let is_root : context ≡ codes "/" = (bytes_eq_iff context (codes "/")).0 root in
      let left : next_context context ≡ [] = unfold next_context in simp root refl in
      ap (λ c. serve_web join c (codes "/" ++ rest)) left
      ∙ rooted join rest (clean rest)
      ∙ ap (λ c. serve_web join c (codes "/" ++ rest)) (sym is_root)
  | inr other ↦
      let kept : next_context context ≡ context = unfold next_context in simp other refl in
      ap (λ c. serve_web join c (codes "/" ++ rest)) kept
]
