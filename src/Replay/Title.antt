-- ===== src/Replay/Title.antt =====
-- `ParseRequestTitle` of replay/title.go, which gives the path too.
use httpdump.Base.{
  ℕ, ◌+◌, ◌-◌, ◌≤◌, ◌≡◌, inl, inr, refl, Bool, true, false, not, none, some, List, [], ◌∷◌, ltb,
  ◌==◌, if◌then◌else◌, length, take, drop, length-drop, Bytes, codes, index, count_byte, slice,
  slice-returns, slice-tail, member, Go, ok, panic, ◌>>=◌, Bool-cases, Option-cases, arith,
}
use httpdump.Base.Text.Search.{index-bound}
use httpdump.Http.Std.{parse_http_version, is_http1}
use httpdump.Http.Title
use httpdump.Http.Title.{crlf, space, methods, method, min_request_count}

-- The keys of `HttpMethods`.
unfoldable pub http_methods : List Bytes
http_methods =
    codes "GET"
    ∷ codes "HEAD"
    ∷ codes "POST"
    ∷ codes "PUT"
    ∷ codes "PATCH"
    ∷ codes "DELETE"
    ∷ codes "CONNECT"
    ∷ codes "OPTIONS"
    ∷ codes "TRACE"
    ∷ []

-- The results of the function.
pub record RequestTitle : Type 0 where
  pub method : Bytes
  pub path : Bytes
  pub is_title : Bool

abbrev no_title : Bytes → RequestTitle
no_title m = record { method = m; path = []; is_title = false }

-- The part behind the test of the method.
unfoldable pub title_path : Bytes → Bytes → ℕ → Go RequestTitle
title_path s m title_len = slice s (length m + 1) (length s) >>= λ rest.
    elim (index rest (space ∷ [])) [
      | none ↦ ok (no_title m)
      | some at ↦ slice s (length m + 1) (length m + 1 + at) >>= λ path.
          slice s (at + length m + 2) title_len >>= λ vers.
          ok (record { method = m; path = path; is_title = is_http1 (parse_http_version vers) })
    ]

unfoldable pub parse_title : Bytes → Go RequestTitle
parse_title payload =
    if ltb (length payload) min_request_count then ok (no_title []) else elim (index payload crlf) [
      | none ↦ ok (no_title [])
      | some title_len ↦
          if not (count_byte (take title_len payload) space == 2)
          then ok (no_title [])
          else if not (member (method payload) http_methods)
          then ok (no_title (method payload))
          else title_path payload (method payload) title_len
    ]

same_methods : (m : Bytes) → member m http_methods ≡ member m methods
unfolding member http_methods methods
same_methods m = ground arith

-- What util's function gives for the results of this one.
abbrev pub of_title : RequestTitle → Bytes × Bool
of_title t = if t.is_title then (t.method, true) else ([], false)

same_rest :
    (s m : Bytes) (n : ℕ)
    → (Title.title_version s m n >>= λ good. ok (if good then (m, true) else ([], false)))
      ≡ (title_path s m n >>= λ t. ok (of_title t))
unfolding title_path Title.title_version
same_rest s m n = elim (Bool-cases (ltb (length s) (length m + 1))) [
  | inl short ↦
      let out : slice s (length m + 1) (length s) ≡ panic = unfold slice in ground arith in
      simp (Title.title_version, title_path, out, ◌>>=◌) refl
  | inr long ↦
      let rest : slice s (length m + 1) (length s) ≡ ok (drop (length m + 1) s) =
        slice-tail s (length m + 1) (ground arith) in
      elim (Option-cases (index (drop (length m + 1) s) (space ∷ []))) [
        | inl nothing ↦ simp (Title.title_version, title_path, rest, ◌>>=◌, nothing) refl
        | inr (at, found) ↦
            let inside : at + 1 ≤ length s - (length m + 1) = omega (
              arith,
              index-bound (drop (length m + 1) s) (space ∷ []) at found,
              length-drop (length m + 1) s,
            ) in
            let path : slice s (length m + 1) (length m + 1 + at)
                ≡ ok (take (length m + 1 + at - (length m + 1)) (drop (length m + 1) s)) =
              slice-returns s (length m + 1) (length m + 1 + at) (omega arith)
                (omega (arith, inside)) in
            simp (Title.title_version, title_path, rest, ◌>>=◌, found, path)
              (same_version _ (slice s (at + length m + 2) n))
      ]
]
  where
    same_version :
        (p : Bytes) (v : Go Bytes)
        → ((v >>= λ vers. ok (is_http1 (parse_http_version vers))) >>= λ good.
            ok (if good then (m, true) else ([], false)))
          ≡ ((v >>= λ vers.
                ok (record { method = m; path = p; is_title = is_http1 (parse_http_version vers) }))
              >>= λ t. ok (of_title t))
    same_version p (ok vers) = refl
    same_version p panic = refl

-- The two functions agree on what is a title: util's accepts a payload exactly if replay's does,
-- with the same method, and neither panics where the other does not. On a payload that they refuse
-- util's gives no method, whatever method replay's gives there.
pub parse_title-same :
    (payload : Bytes)
    → Title.parse_request_title payload ≡ (parse_title payload >>= λ t. ok (of_title t))
unfolding parse_title Title.parse_request_title
parse_title-same payload = elim (Bool-cases (ltb (length payload) min_request_count)) [
  | inl short ↦ rw short refl
  | inr long ↦ elim (Option-cases (index payload crlf)) [
    | inl nothing ↦ rw (long, nothing) refl
    | inr (n, found) ↦ elim (Bool-cases (not (count_byte (take n payload) space == 2))) [
      | inl other ↦ rw (long, found, other) refl
      | inr two ↦ elim (Bool-cases (not (member (method payload) methods))) [
        | inl unknown ↦ rw (long, found, two, same_methods (method payload), unknown) refl
        | inr known ↦
            rw (long, found, two, same_methods (method payload), known)
              (same_rest payload (method payload) n)
      ]
    ]
  ]
]
