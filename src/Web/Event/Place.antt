-- ===== src/Web/Event/Place.antt =====
-- The fields of a line that the handler writes for the page.
use httpdump.Base.{
  ℕ, ◌<◌, ◌≡◌, refl, ap, ap₂, ◌∙◌, true, ◌&&◌, [], ◌∷◌, ◌++◌, length, length-append, Bytes, codes,
  itoa, arith,
}
use httpdump.Filter.Mime.{is_space}
use httpdump.Web.Event.{keep_word, fields_from, fields}
use httpdump.Web.Event.Fields.{is_word, is_word-append, fields_from-word, fields-word, itoa-word}

fields-gap :
    (a rest : Bytes) → is_word a ≡ true → 0 < length a → fields (a ++ 32 ∷ rest) ≡ a ∷ fields rest
fields-gap [] rest h k = absurd (omega arith)
fields-gap (c ∷ a) rest h k = fields-word c a rest h

-- A word and white space behind it.
fields-last :
    (a : Bytes) (gap : Bytes)
    → is_word a ≡ true
    → 0 < length a
    → fields_from a gap ≡ a ∷ []
    → fields (a ++ gap) ≡ a ∷ []
fields-last a gap h k e = fields_from-word [] a gap h ∙ e

-- What stands behind `### ` in a line of the handler.
abbrev pub place : Bytes → ℕ → Bytes → Bytes → Bytes → Bytes → Bytes
place mark seq tag src dst behind =
    (mark ++ itoa seq) ++ 32 ∷ (tag ++ 32 ∷ ((src ++ 45 ∷ dst) ++ 32 ∷ behind))

module _ (mark : Bytes) (seq : ℕ) (tag src dst time gap : Bytes) (mark_word : is_word mark ≡ true)
    (mark_full : 0 < length mark) (tag_word : is_word tag ≡ true) (tag_full : 0 < length tag)
    (src_word : is_word src ≡ true) (dst_word : is_word dst ≡ true)
    (time_word : is_word time ≡ true) (time_full : 0 < length time)
    (ends : fields_from time gap ≡ time ∷ []) where
  pub fields-place :
      fields (codes "### " ++ place mark seq tag src dst (time ++ gap))
      ≡ codes "###" ∷ (mark ++ itoa seq) ∷ tag ∷ (src ++ 45 ∷ dst) ∷ time ∷ []
  fields-place =
      let first : is_word (mark ++ itoa seq) ≡ true =
        is_word-append mark (itoa seq) ∙ ap₂ (λ x y. x && y) mark_word (itoa-word seq) in
      let joined : is_word (src ++ 45 ∷ dst) ≡ true =
        is_word-append src (45 ∷ dst) ∙ unfold is_space in simp (src_word, dst_word) refl in
      fields-gap (codes "###") _ (unfold is_space in refl) (omega arith)
      ∙ ap (λ l. codes "###" ∷ l)
          (fields-gap (mark ++ itoa seq) _ first (omega (arith, length-append mark (itoa seq)))
            ∙ ap (λ l. (mark ++ itoa seq) ∷ l)
                (fields-gap tag _ tag_word tag_full
                  ∙ ap (λ l. tag ∷ l)
                      (fields-gap (src ++ 45 ∷ dst) _ joined
                          (omega (arith, length-append src (45 ∷ dst)))
                        ∙ ap (λ l. (src ++ 45 ∷ dst) ∷ l)
                            (fields-last time gap time_word time_full ends))))

pub keep_word-full : (a : Bytes) → 0 < length a → keep_word a [] ≡ a ∷ []
unfolding keep_word
keep_word-full [] h = absurd (omega arith)
keep_word-full (c ∷ a) h = refl

-- What is known of the parts of such a line: each is a word, and the time is not empty.
pub record AreWords (src dst time : Bytes) : Type 0 where
  pub src_word : is_word src ≡ true
  pub dst_word : is_word dst ≡ true
  pub time_word : is_word time ≡ true
  pub time_full : 0 < length time
