-- ===== src/Filter/Mime/Parse.antt =====
-- The parsers on a content type that is put together, and the range of `LikeJSON`.
use httpdump.Base.{
  ℕ, ◌+◌, ◌-◌, ◌≤◌, ◌≡◌, ◌↔◌, inl, inr, refl, ap, ◌∙◌, Bool, true, false, some, [], ◌∷◌, ◌++◌, ltb,
  ◌==◌, if◌then◌else◌, length, drop, get_elem?, take-append_length, drop-append_ge, Bytes, codes,
  index, count_byte, has_prefix, byte_at, ok, panic, ◌>>=◌, Returns, arith, Bool-cases,
}
use httpdump.Base.Text.Search.{index_byte-append, index-single}
use httpdump.Filter.Mime.{
  cut_scope, cut_dot, parse_mime_type, trim_space, parse_charset, parse_content_type, bracketed,
  like_json,
}

last_in : (x : ℕ) (t : Bytes) → (b : ℕ) × (get_elem? (x ∷ t) (length t) ≡ some b)
last_in x [] = (x, refl)
last_in x (y ∷ t) = last_in y t

bracketed-nil : (a b : ℕ) → bracketed [] a b ≡ panic
unfolding bracketed byte_at
bracketed-nil a b = refl

bracketed-Returns : (x : ℕ) (t : Bytes) (a b : ℕ) → Returns (bracketed (x ∷ t) a b) (λ _. Unit {0})
unfolding bracketed byte_at
bracketed-Returns x t a b = elim (Bool-cases (x == a)) [
  | inl e ↦
      let (c, found) = last_in x t in
      let at : get_elem? (x ∷ t) (length (x ∷ t) - 1) ≡ some c =
        ap (get_elem? (x ∷ t)) (omega arith) ∙ found in
      simp (bracketed, byte_at, e, at) (_, refl, tt)
  | inr e ↦ simp e (_, refl, tt)
]

-- `LikeJSON` panics exactly on the texts of at least two bytes that are nothing but spaces.
pub like_json-panic : (s : Bytes) → (like_json s ≡ panic) ↔ ((2 ≤ length s) × (trim_space s ≡ []))
unfolding like_json
like_json-panic s = elim (Bool-cases (ltb (length s) 2)) [
  | inl e ↦ rw e ((λ h. absurd (cc h)), (λ h. absurd (ground arith)))
  | inr e ↦ rw e (long (trim_space s) (ground arith))
]
  where
    long :
        (t : Bytes)
        → 2 ≤ length s
        → ((bracketed t b'[' b']' >>= λ array. if array then ok true else bracketed t b'{' b'}')
            ≡ panic)
          ↔ ((2 ≤ length s) × (t ≡ []))
    long [] two = ((λ h. (two, refl)), (λ h. rw (bracketed-nil b'[' b']') refl))
    long (x ∷ t) two =
        let (array, e, _) = bracketed-Returns x t b'[' b']' in
        let (object, e', _) = bracketed-Returns x t b'{' b'}' in
        ((λ h. absurd (returns array object e e' h)), (λ h. absurd (cc h.1)))
      where
        returns :
            (array object : Bool)
            → bracketed (x ∷ t) b'[' b']' ≡ ok array
            → bracketed (x ∷ t) b'{' b'}' ≡ ok object
            → (bracketed (x ∷ t) b'[' b']' >>= λ array.
                if array then ok true else bracketed (x ∷ t) b'{' b'}')
              ≡ panic
            → ⊥
        returns true object e e' h = absurd (cc (rw (e, ◌>>=◌) at h))
        returns false object e e' h = absurd (cc (rw (e, ◌>>=◌, e') at h))

index_char :
    (a b : Bytes) (c : ℕ) → count_byte a c ≡ 0 → index (a ++ c ∷ b) (c ∷ []) ≡ some (length a)
index_char a b c h = index-single (a ++ c ∷ b) c ∙ index_byte-append a c b h

drop_after : (a b : Bytes) (c : ℕ) → drop (length a + 1) (a ++ c ∷ b) ≡ b
drop_after a b c =
    let one : length a + 1 - length a ≡ 1 = omega arith in
    drop-append_ge (length a + 1) a (c ∷ b) (omega arith) ∙ rw one refl

-- A media type and a charset are taken apart again: of `m;p=c` the parts are `m` and `c`, both
-- without the spaces around them, where no semicolon is in `m` and no equals sign in `p`.
pub parse_content_type-parts :
    (m p c : Bytes)
    → count_byte m b';' ≡ 0
    → count_byte p b'=' ≡ 0
    → trim_space (p ++ (b'=' ∷ c)) ≡ p ++ (b'=' ∷ c)
    → parse_content_type (m ++ (b';' ∷ (p ++ (b'=' ∷ c)))) ≡ (trim_space m, trim_space c)
unfolding parse_content_type parse_charset
parse_content_type-parts m p c hm hp ht =
    simp
      (
        parse_content_type,
        index_char m (p ++ (b'=' ∷ c)) b';' hm,
        take-append_length m (b';' ∷ (p ++ (b'=' ∷ c))),
        drop_after m (p ++ (b'=' ∷ c)) b';',
        ht,
        parse_charset,
        index_char p c b'=' hp,
        drop_after p c b'=',
      )
      refl

-- A media type with a scope is taken apart again: of `t/x-s.r` and `t/vnd.s.r` the parts are `t`,
-- `s` and the scope `x` or `vnd`, where no slash is in `t` and no dot in `s`, which is not empty.
pub parse_mime_type-parts :
    (t s rest : Bytes)
    → count_byte t b'/' ≡ 0
    → count_byte s b'.' ≡ 0
    → 1 ≤ length s
    → (parse_mime_type (t ++ (b'/' ∷ (codes "x-" ++ (s ++ (b'.' ∷ rest)))))
        ≡ record { type = t; sub_type = s; scope = codes "x" })
      × (parse_mime_type (t ++ (b'/' ∷ (codes "vnd." ++ (s ++ (b'.' ∷ rest)))))
          ≡ record { type = t; sub_type = s; scope = codes "vnd" })
unfolding parse_mime_type cut_scope cut_dot has_prefix
parse_mime_type-parts t s rest ht hs one = (
  simp
      (
        parse_mime_type,
        index_char t (codes "x-" ++ (s ++ (b'.' ∷ rest))) b'/' ht,
        take-append_length t (b'/' ∷ (codes "x-" ++ (s ++ (b'.' ∷ rest)))),
        drop_after t (codes "x-" ++ (s ++ (b'.' ∷ rest))) b'/',
        cut_it,
      )
      refl,
  simp
      (
        parse_mime_type,
        index_char t (codes "vnd." ++ (s ++ (b'.' ∷ rest))) b'/' ht,
        take-append_length t (b'/' ∷ (codes "vnd." ++ (s ++ (b'.' ∷ rest)))),
        drop_after t (codes "vnd." ++ (s ++ (b'.' ∷ rest))) b'/',
        cut_it,
      )
      refl,
)
  where
    cut_it : cut_dot (s ++ (b'.' ∷ rest)) ≡ s
    cut_it =
        simp (cut_dot, index_char s rest b'.' hs, take-append_length s (b'.' ∷ rest)) (ground arith)
