-- ===== src/Http/Title/Number.antt =====
-- `atoI` on decimal numbers and on other texts.
use httpdump.Base.{
  ℕ, zero, suc, ◌+◌, ◌*◌, ◌/◌, ◌%◌, ◌^◌, ◌<◌, ◌≡◌, refl, ap, ◌∙◌, Bool, true, ◌&&◌, [], ◌∷◌, ltb,
  Bytes, digits, itoa, arith, Bool-cases, inl, inr, ltb→le, ltb→lt,
}
use httpdump.Http.Std.{is_digit}
use httpdump.Http.Title.{hex_value, atoi_from, ato_i}

atoi_digit :
    (num d : ℕ) (s : Bytes)
    → d < 10
    → atoi_from num ((48 + d) ∷ s) 10 ≡ atoi_from ((num * 10 + d) % 2 ^ 64) s 10
unfolding atoi_from hex_value
atoi_digit num d s h = ground arith

atoi-digits :
    (fuel n : ℕ) (rest : Bytes)
    → n < fuel
    → n < 2 ^ 64
    → atoi_from 0 (digits fuel n rest) 10 ≡ atoi_from n rest 10
unfolding digits
atoi-digits zero n rest h k = absurd (omega arith)
atoi-digits (suc fuel) n rest h k = elim (Bool-cases (ltb n 10)) [
  | inl small ↦
      let value : (0 * 10 + n) % 2 ^ 64 ≡ n = omega arith in
      rw small (atoi_digit 0 n rest (ltb→lt _ _ small) ∙ ap (λ m. atoi_from m rest 10) value)
  | inr big ↦
      let ten = ltb→le n 10 big in
      let value : (n / 10 * 10 + n % 10) % 2 ^ 64 ≡ n = omega arith in
      rw big (
        atoi-digits fuel (n / 10) ((48 + n % 10) ∷ rest) (omega arith) (omega arith)
        ∙ atoi_digit (n / 10) (n % 10) rest (omega arith)
        ∙ ap (λ m. atoi_from m rest 10) value)
]

-- `atoI` in base 10 reads back what `strconv.Itoa` writes, for every number of 64 bits.
pub ato_i-itoa : (n : ℕ) → n < 2 ^ 64 → ato_i (itoa n) 10 ≡ (n, true)
unfolding ato_i itoa atoi_from
ato_i-itoa n h = atoi-digits (suc n) n [] (omega arith) h

abbrev pub all_digits : Bytes → Bool
all_digits [] = true
all_digits (c ∷ s) = is_digit c && all_digits s

atoi_from_digits : (num : ℕ) (s : Bytes) → (atoi_from num s 10).1 ≡ all_digits s
unfolding atoi_from hex_value
atoi_from_digits num [] = refl
atoi_from_digits num (c ∷ s) =
    ground (arith, atoi_from_digits ((num * 10 + hex_value c) % 2 ^ 64) s)

-- In base 10 `atoI` accepts exactly the texts of digits, the empty one included.
pub ato_i_accepts : (s : Bytes) → (ato_i s 10).1 ≡ all_digits s
unfolding ato_i
ato_i_accepts s = atoi_from_digits 0 s
