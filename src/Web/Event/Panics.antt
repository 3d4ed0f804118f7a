-- ===== src/Web/Event/Panics.antt =====
-- The lines `###` that `ParseHTTPEvent` panics on.
use httpdump.Base.{
  ℕ, ◌≡◌, ◌↔◌, inl, inr, refl, Bool, true, if◌then◌else◌, ltb, List, [], ◌∷◌, length, Bytes, codes,
  has_prefix, slice, slice-tail, panic, ◌>>=◌, arith, Bool-cases,
}
use httpdump.Web.Event.{Calls, HttpEvent, fields, fields_n, head_line}

-- A line of fewer than five fields, or whose second field ends where its number should begin.
abbrev pub lacks : List Bytes → Bool
lacks (a ∷ b ∷ c ∷ d ∷ e ∷ words) = ltb (length b) (if has_prefix b (codes "EOF") then 4 else 1)
lacks words = true

slice-panic : (s : Bytes) (lo : ℕ) → ltb (length s) lo ≡ true → slice s lo (length s) ≡ panic
unfolding slice
slice-panic s lo h = ground arith

head_line-words :
    (calls : Calls) (e : HttpEvent) (line : Bytes) (words : List Bytes)
    → fields line ≡ words
    → (head_line calls e line ≡ panic) ↔ (lacks words ≡ true)
unfolding head_line fields_n
head_line-words calls e line [] h = (λ p. refl, λ p. simp (h, ◌>>=◌) refl)
head_line-words calls e line (a ∷ []) h = (λ p. refl, λ p. simp (h, ◌>>=◌) refl)
head_line-words calls e line (a ∷ b ∷ []) h = (λ p. refl, λ p. simp (h, ◌>>=◌) refl)
head_line-words calls e line (a ∷ b ∷ c ∷ []) h = (λ p. refl, λ p. simp (h, ◌>>=◌) refl)
head_line-words calls e line (a ∷ b ∷ c ∷ d ∷ []) h = (λ p. refl, λ p. simp (h, ◌>>=◌) refl)
head_line-words calls e line (a ∷ b ∷ c ∷ d ∷ t ∷ words) h =
    elim (Bool-cases (has_prefix b (codes "EOF"))) [
      | inl eof ↦ elim (Bool-cases (ltb (length b) 4)) [
        | inl short ↦ (λ p. simp eof short, λ p. simp (h, ◌>>=◌, eof, slice-panic b 4 short) refl)
        | inr long ↦ (
          λ p. cc (simp (h, ◌>>=◌, eof, slice-tail b 4 (ground arith)) at p),
          λ p. cc (simp eof at p),
        )
      ]
      | inr plain ↦ elim (Bool-cases (ltb (length b) 1)) [
        | inl short ↦
            (λ p. simp plain short, λ p. simp (h, ◌>>=◌, plain, slice-panic b 1 short) refl)
        | inr long ↦ (
          λ p. cc (simp (h, ◌>>=◌, plain, slice-tail b 1 (ground arith)) at p),
          λ p. cc (simp plain at p),
        )
      ]
    ]

-- A line `###` of a message makes `ParseHTTPEvent` panic exactly if it has fewer than five fields,
-- or if its second field is too short: empty, or of fewer than four bytes where it begins with
-- `EOF`.
pub head_line-panic :
    (calls : Calls) (e : HttpEvent) (line : Bytes)
    → (head_line calls e line ≡ panic) ↔ (lacks (fields line) ≡ true)
head_line-panic calls e line = head_line-words calls e line (fields line) refl
