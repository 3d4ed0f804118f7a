-- ===== src/Http/Title/Request.antt =====
-- `ParseRequestTitle`: its slices, and what it accepts.
mod Parts
use httpdump.Base.{
  ℕ, suc, ◌+◌, ◌-◌, ◌≤◌, ◌≡◌, ◌↔◌, ◌⊎◌, inl, inr, refl, sym, ap, ap₂, ◌∙◌, Bool, true, false, none,
  some, [], ◌∷◌, ◌++◌, ltb, ltb→le, ◌==◌, length, take, drop, length-take, length-append,
  take-append-drop, take-append_length, append_assoc, subst, le→ltb, ==_iff, Bool-cases,
  Option-cases, Bytes, bytes_eq, index_byte, index, count_byte, slice-returns, slice-tail,
  take-append, drop-append_ge, drop-drop, member, ok, ◌>>=◌, Returns, arith,
}
use httpdump.Base.Text.Search.{
  index_byte-split, index-single, index-bound, count_byte-take, count_byte-none, index_byte-append,
  count_byte-append,
}
use httpdump.Http.Std.{parse_http_version, is_http1}
use httpdump.Http.Title.{
  min_request_count, crlf, space, methods, method, title_version, parse_request_title,
}
use httpdump.Http.Title.Request.Parts.{
  title_version-returns, two_spaces, count_parts, method_lem, no_method,
}

-- A request title: a known method, a path and a version of HTTP/1 with a space between, ended by
-- the first CRLF of the payload, which has 16 bytes at least.
pub record IsRequest (payload name : Bytes) : Type 0 where
  pub title_len : ℕ
  pub path : Bytes
  pub version : Bytes
  pub long : min_request_count ≤ length payload
  pub ends : index payload crlf ≡ some title_len
  pub line : take title_len payload ≡ name ++ space ∷ (path ++ space ∷ version)
  pub known : member name methods ≡ true
  pub name_plain : count_byte name space ≡ 0
  pub path_plain : count_byte path space ≡ 0
  pub version_plain : count_byte version space ≡ 0
  pub http1 : is_http1 (parse_http_version version) ≡ true

-- The request that the code finds behind a long enough payload, its first CRLF, two spaces and a
-- known method.
found-IsRequest :
    (s : Bytes) (n : ℕ)
    → min_request_count ≤ length s
    → index s crlf ≡ some n
    → count_byte (take n s) space ≡ 2
    → member (method s) methods ≡ true
    → (good : Bool) × (title_version s (method s) n ≡ ok good)
      × (good ≡ true → IsRequest s (method s))
found-IsRequest s n long ends two known = elim (Option-cases (index_byte s space)) [
  | inl nothing ↦ cc (no_method s nothing)
  | inr (i, h) ↦
      let hn : n ≤ length s = omega (arith, index-bound s crlf n ends) in
      let (j, le, found, verdict) = title_version-returns s n i h two hn in
      let (line, name_plain, path_plain, version_plain) = two_spaces s n i j h found le hn two in
      let m = method_lem s i h in
      (
        _,
        ap (λ x. title_version s x n) m ∙ verdict,
        λ good. record {
          title_len = n;
          path = take j (drop (suc i) s);
          version = take (n - (j + i + 2)) (drop (j + i + 2) s);
          long = long;
          ends = ends;
          line = rw m line;
          known = known;
          name_plain = rw m name_plain;
          path_plain = path_plain;
          version_plain = version_plain;
          http1 = good;
        },
      )
]

-- `ParseRequestTitle` never slices out of range. It gives the empty string and false, or a method
-- and true, and then the payload begins with a request title of that method.
pub parse_request_title_sound :
    (payload : Bytes)
    → Returns
        (parse_request_title payload)
        (λ r. (r ≡ ([], false)) ⊎ ((r.1 ≡ true) × IsRequest payload r.0))
unfolding parse_request_title
parse_request_title_sound s = elim (Bool-cases (ltb (length s) min_request_count)) [
  | inl short ↦ rw short (_, refl, inl refl)
  | inr long ↦ rw long (elim (Option-cases (index s crlf)) [
    | inl nothing ↦ rw nothing (_, refl, inl refl)
    | inr (n, ends) ↦ rw ends (elim (Bool-cases (count_byte (take n s) space == 2)) [
      | inr other ↦ rw other (_, refl, inl refl)
      | inl two ↦ rw two (elim (Bool-cases (member (method s) methods)) [
        | inr unknown ↦ rw unknown (_, refl, inl refl)
        | inl known ↦
            let (good, e, request) =
              found-IsRequest s n (ltb→le _ _ long) ends (ground arith) known in
            rw (known, e)
              (elim (Bool-cases good) [
                | inl good_one ↦ rw good_one (_, refl, inr (refl, request good_one))
                | inr bad ↦ rw bad (_, refl, inl refl)
              ])
      ])
    ])
  ])
]

-- The payload of a request, whole.
request_text :
    {s name : Bytes} (r : IsRequest s name)
    → s ≡ name ++ space ∷ (r.path ++ space ∷ (r.version ++ drop r.title_len s))
request_text {s} {name} r =
    sym (take-append-drop r.title_len s)
    ∙ ap (λ l. l ++ drop r.title_len s) r.line
    ∙ append_assoc name _ _
    ∙ ap (λ l. name ++ space ∷ l) (append_assoc r.path _ _)

first_space : {s name : Bytes} → IsRequest s name → index_byte s space ≡ some (length name)
first_space {s} {name} r =
    ap (λ l. index_byte l space) (request_text r) ∙ index_byte-append name space _ r.name_plain

behind_name :
    {s name : Bytes} (r : IsRequest s name)
    → drop (suc (length name)) s ≡ r.path ++ space ∷ (r.version ++ drop r.title_len s)
behind_name {s} {name} r =
    let one : suc (length name) - length name ≡ 1 = omega arith in
    ap (drop (suc (length name))) (request_text r)
    ∙ drop-append_ge (suc (length name)) name _ (omega arith)
    ∙ ap (λ k. drop k (space ∷ (r.path ++ space ∷ (r.version ++ drop r.title_len s)))) one

behind_path :
    {s name : Bytes} (r : IsRequest s name)
    → drop (length r.path + length name + 2) s ≡ r.version ++ drop r.title_len s
behind_path {s} {name} r =
    let sum : suc (length name) + suc (length r.path) ≡ length r.path + length name + 2 =
      omega arith in
    let one : suc (length r.path) - length r.path ≡ 1 = omega arith in
    ap (λ k. drop k s) (sym sum)
    ∙ sym (drop-drop (suc (length r.path)) (suc (length name)) s)
    ∙ ap (drop (suc (length r.path))) (behind_name r)
    ∙ drop-append_ge (suc (length r.path)) r.path _ (omega arith)
    ∙ ap (λ k. drop k (space ∷ (r.version ++ drop r.title_len s))) one

title_length :
    {s name : Bytes} (r : IsRequest s name)
    → r.title_len ≤ length s
    → r.title_len ≡ length r.version + (length r.path + length name + 2)
title_length {s} {name} r h =
    let total = ap length r.line in
    omega (
      arith,
      total,
      length-take r.title_len s h,
      length-append name (space ∷ (r.path ++ space ∷ r.version)),
      length-append r.path (space ∷ r.version),
    )

request_spaces : {s name : Bytes} (r : IsRequest s name) → count_byte (take r.title_len s) space ≡ 2
request_spaces {s} {name} r =
    let line = ap (λ l. count_byte l space) r.line in
    omega
      (arith, line, count_parts name r.path r.version, r.name_plain, r.path_plain, r.version_plain)

request_verdict :
    {s name : Bytes} (r : IsRequest s name) → title_version s (method s) r.title_len ≡ ok true
request_verdict {s} {name} r =
    let h = first_space r in
    let hn : r.title_len ≤ length s = omega (arith, index-bound s crlf r.title_len r.ends) in
    let two = request_spaces r in
    let (j, le, found, verdict) = title_version-returns s r.title_len (length name) h two hn in
    let found' : index_byte (drop (suc (length name)) s) space ≡ some (length r.path) =
      ap (λ l. index_byte l space) (behind_name r)
      ∙ index_byte-append r.path space _ r.path_plain in
    let j_eq : j ≡ length r.path = cc in
    let count : r.title_len - (j + length name + 2) ≡ length r.version =
      omega (arith, title_length r hn) in
    let version : take (r.title_len - (j + length name + 2)) (drop (j + length name + 2) s)
        ≡ r.version =
      ap₂ take count (ap (λ k. drop (k + length name + 2) s) j_eq ∙ behind_path r)
      ∙ take-append_length r.version _ in
    ap (λ x. title_version s x r.title_len) (method_lem s (length name) h)
    ∙ verdict
    ∙ ap (λ v. ok (is_http1 (parse_http_version v))) version
    ∙ ap ok r.http1

named : {s name : Bytes} → IsRequest s name → take (length name) s ≡ name
named {s} {name} r = ap (take (length name)) (request_text r) ∙ take-append_length name _

-- `ParseRequestTitle` accepts a payload with the method `name` exactly if it begins with a request
-- title of that method.
pub parse_request_title_iff :
    (payload name : Bytes)
    → (parse_request_title payload ≡ ok (name, true)) ↔ IsRequest payload name
parse_request_title_iff s name = (sound, complete)
  where
    sound : parse_request_title s ≡ ok (name, true) → IsRequest s name
    sound e =
        let (r, e', c) = parse_request_title_sound s in
        let same : r ≡ (name, true) = cc in
        elim c [
          | inl refused ↦ cc
          | inr (accepted, request) ↦ subst (IsRequest s) (ap (λ x. x.0) same) request
        ]

    complete : IsRequest s name → parse_request_title s ≡ ok (name, true)
    complete r =
        unfold parse_request_title in
        let m : method s ≡ name = method_lem s (length name) (first_space r) ∙ named r in
        let known : member (method s) methods ≡ true = ap (λ x. member x methods) m ∙ r.known in
        let two : (count_byte (take r.title_len s) space == 2) ≡ true =
          (==_iff _ _).1 (request_spaces r) in
        rw (le→ltb _ _ r.long, r.ends, two, known, request_verdict r) (ap (λ x. ok (x, true)) m)
