-- ===== src/Http/Title/Request/Parts.antt =====
-- The spaces of a title, and the three parts between them.
use httpdump.Base.{
  ℕ, suc, ◌+◌, ◌-◌, ◌≤◌, ◌≡◌, inl, inr, refl, ap, ◌∙◌, false, none, some, ◌∷◌, ◌++◌, length, take,
  drop, length-take, Option-cases, Bytes, bytes_eq, index_byte, count_byte, slice-returns,
  slice-tail, take-append, drop-drop, member, ok, ◌>>=◌, arith,
}
use httpdump.Base.Text.Search.{
  index_byte-split, index-single, count_byte-take, count_byte-none, count_byte-append,
}
use httpdump.Http.Std.{parse_http_version, is_http1}
use httpdump.Http.Title.{space, methods, method, title_version}

-- The second space of a title stands in it.
second_space :
    (s : Bytes) (n i : ℕ)
    → index_byte s space ≡ some i
    → count_byte (take n s) space ≡ 2
    → (j : ℕ) × (index_byte (drop (suc i) s) space ≡ some j) × (j + i + 2 ≤ n)
second_space s n i h two = elim (Option-cases (index_byte (drop (suc i) s) space)) [
  | inl nothing ↦ absurd (
      ground
        (arith, count_byte-take s space n i h, count_byte-none (drop (suc i) s) space (n - i - 1)))
  | inr (j, found) ↦ (
    j,
    found,
    ground (
      arith,
      count_byte-take s space n i h,
      count_byte-take (drop (suc i) s) space (n - i - 1) j found,
    ),
  )
]

pub title_version-returns :
    (s : Bytes) (n i : ℕ)
    → index_byte s space ≡ some i
    → count_byte (take n s) space ≡ 2
    → n ≤ length s
    → (j : ℕ) × (j + i + 2 ≤ n)
      × (index_byte (drop (suc i) s) space ≡ some j)
      × (title_version s (take i s) n
          ≡ ok (is_http1 (parse_http_version (take (n - (j + i + 2)) (drop (j + i + 2) s)))))
unfolding title_version
title_version-returns s n i h two hn =
    let (split, _, lt) = index_byte-split s space i h in
    let (j, found, le) = second_space s n i h two in
    let size : length (take i s) ≡ i = length-take i s (omega arith) in
    let from : length (take i s) + 1 ≡ suc i = omega arith in
    let second : j + length (take i s) + 2 ≡ j + i + 2 = omega arith in
    (
      j,
      le,
      found,
      rw
          (
            from,
            slice-tail s (suc i) lt,
            ◌>>=◌,
            index-single (drop (suc i) s) space,
            found,
            second,
            slice-returns s (j + i + 2) n le hn,
          )
          refl,
    )

take-cut :
    (a b c : Bytes) (n : ℕ)
    → length a + length b + 2 ≤ n
    → take n (a ++ space ∷ (b ++ space ∷ c))
      ≡ a ++ space ∷ (b ++ space ∷ take (n - (length b + length a + 2)) c)
take-cut a b c n h =
    let first : n - length a ≡ suc (n - length a - 1) = omega arith in
    let second : n - length a - 1 - length b ≡ suc (n - (length b + length a + 2)) = omega arith in
    take-append n a _ (omega arith)
    ∙ ap (λ k. a ++ take k (space ∷ (b ++ space ∷ c))) first
    ∙ ap (λ l. a ++ space ∷ l)
        (take-append (n - length a - 1) b _ (omega arith)
          ∙ ap (λ k. b ++ take k (space ∷ c)) second)

pub count_parts :
    (a b c : Bytes)
    → count_byte (a ++ space ∷ (b ++ space ∷ c)) space
      ≡ count_byte a space + count_byte b space + count_byte c space + 2
unfolding count_byte
count_parts a b c = omega (
  arith,
  count_byte-append a (space ∷ (b ++ space ∷ c)) space,
  count_byte-append b (space ∷ c) space,
)

-- The title that the code reads, from the two spaces that it counted.
pub two_spaces :
    (s : Bytes) (n i j : ℕ)
    → index_byte s space ≡ some i
    → index_byte (drop (suc i) s) space ≡ some j
    → j + i + 2 ≤ n
    → n ≤ length s
    → count_byte (take n s) space ≡ 2
    → let path = take j (drop (suc i) s) in
      let version = take (n - (j + i + 2)) (drop (j + i + 2) s) in
      (take n s ≡ take i s ++ space ∷ (path ++ space ∷ version))
      × (count_byte (take i s) space ≡ 0)
      × (count_byte path space ≡ 0)
      × (count_byte version space ≡ 0)
two_spaces s n i j h found le hn two =
    let (split, name_plain, lt) = index_byte-split s space i h in
    let (split', path_plain, lt') = index_byte-split (drop (suc i) s) space j found in
    let i_len : length (take i s) ≡ i = length-take i s (omega arith) in
    let j_len : length (take j (drop (suc i) s)) ≡ j = length-take j _ (omega arith) in
    let far : suc i + suc j ≡ j + i + 2 = omega arith in
    let rest : drop (suc j) (drop (suc i) s) ≡ drop (j + i + 2) s =
      drop-drop (suc j) (suc i) s ∙ ap (λ k. drop k s) far in
    let whole : s ≡ take i s ++ space ∷ (take j (drop (suc i) s) ++ space ∷ drop (j + i + 2) s) =
      split
      ∙ ap (λ l. take i s ++ space ∷ l)
          (split' ∙ ap (λ l. take j (drop (suc i) s) ++ space ∷ l) rest) in
    let counts : length (take j (drop (suc i) s)) + length (take i s) + 2 ≡ j + i + 2 =
      omega arith in
    let line : take n s
        ≡ take i s
          ++ space
            ∷ (take j (drop (suc i) s) ++ space ∷ take (n - (j + i + 2)) (drop (j + i + 2) s)) =
      ap (take n) whole
      ∙ take-cut (take i s) (take j (drop (suc i) s)) (drop (j + i + 2) s) n (omega arith)
      ∙ ap
          (λ k.
            take i s
            ++ space ∷ (take j (drop (suc i) s) ++ space ∷ take (n - k) (drop (j + i + 2) s)))
          counts in
    let total = ap (λ l. count_byte l space) line in
    (
      line,
      name_plain,
      path_plain,
      omega (
        arith,
        total,
        count_parts (take i s) (take j (drop (suc i) s))
            (take (n - (j + i + 2)) (drop (j + i + 2) s)),
      ),
    )

pub method_lem : (s : Bytes) (i : ℕ) → index_byte s space ≡ some i → method s ≡ take i s
unfolding method
method_lem s i h = rw (h, method)

pub no_method : (s : Bytes) → index_byte s space ≡ none → member (method s) methods ≡ false
unfolding method member methods bytes_eq
no_method s h = rw (h, method)
