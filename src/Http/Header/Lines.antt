-- ===== src/Http/Header/Lines.antt =====
-- The scan of `header`: its fuel, what it finds, and the range of the value.
use httpdump.Base.{
  ℕ, zero, suc, ◌+◌, ◌-◌, ◌≤◌, ◌<◌, ◌≡◌, ◌↔◌, inl, inr, refl, ap, true, false, [], ◌∷◌, ltb, leb,
  length, length-take, length-drop, take, drop, Bytes, index_byte, slice, panic, Bool-cases,
  Option-cases, arith,
}
use httpdump.Base.Text.Search.{index_byte-split}
use httpdump.Http.Header.{
  Line, Scan, missing, at_line, out_of_fuel, scan_lines, equal_fold, skip_left, skip_right,
  value_of,
}

-- A header line of the payload with the name looked for: `value_start` comes behind its colon.
pub record IsLine (payload name : Bytes) (l : Line) : Type 0 where
  pub name_end : ℕ
  pub colon : l.value_start ≡ name_end + l.header_start + 1
  pub named : equal_fold (take name_end (drop l.header_start payload)) name ≡ true
  pub before_end : l.value_start ≤ l.header_end
  pub in_payload : l.header_end < length payload
  pub stop_eq : l.stop ≡ l.header_end - 1

take-take : (n m : ℕ) (s : Bytes) → n ≤ m → take n (take m s) ≡ take n s
take-take zero m s h = refl
take-take (suc n) zero s h = absurd (omega arith)
take-take (suc n) (suc m) [] h = refl
take-take (suc n) (suc m) (x ∷ s) h = ap (λ l. x ∷ l) (take-take n m s (omega arith))

abbrev pub Found : Bytes → Bytes → Scan → Type 0
Found payload name missing = Unit
Found payload name (at_line l) = IsLine payload name l
Found payload name out_of_fuel = ⊥

-- With a fuel above what is left of the payload the scan ends, and what it finds is a header line.
pub scan_lines-Found :
    (fuel : ℕ) (payload name : Bytes) (start : ℕ)
    → start ≤ length payload
    → length payload < fuel + start
    → Found payload name (scan_lines fuel payload name start)
unfolding scan_lines
scan_lines-Found zero payload name start hs h = absurd (omega arith)
scan_lines-Found (suc fuel) payload name start hs h =
    elim (Bool-cases (ltb start (length payload))) [
      | inr over ↦ rw over tt
      | inl inside ↦ rw inside (elim (Option-cases (index_byte (drop start payload) 10)) [
        | inl nothing ↦ rw nothing tt
        | inr (n, line_end) ↦
            let (_, _, lt) = index_byte-split (drop start payload) 10 n line_end in
            let inside_end : n + start < length payload =
              omega (arith, length-drop start payload) in
            rw line_end (elim (Option-cases (index_byte (take n (drop start payload)) b':')) [
              | inl nothing ↦ rw nothing tt
              | inr (c, colon) ↦
                  let (_, _, lt') = index_byte-split (take n (drop start payload)) b':' c colon in
                  let before : c < n =
                    omega (arith, length-take n (drop start payload) (omega arith)) in
                  rw colon
                    (elim (Bool-cases (equal_fold (take c (take n (drop start payload))) name)) [
                      | inl named ↦ rw named (record {
                        name_end = c;
                        colon = refl;
                        named = rw (take-take c n (drop start payload) (omega arith)) at named;
                        before_end = omega arith;
                        in_payload = inside_end;
                        stop_eq = refl;
                      })
                      | inr other ↦ rw other (
                          scan_lines-Found fuel payload name (n + start + 1) (omega arith)
                            (omega arith))
                    ])
            ])
      ])
    ]

skip_left_bounds :
    (s : Bytes) (start n : ℕ) → (start ≤ skip_left s start n) × (skip_left s start n ≤ start + n)
unfolding skip_left
skip_left_bounds s start zero = (omega arith, omega arith)
skip_left_bounds s start (suc n) = ground (arith, skip_left_bounds s (start + 1) n)

skip_right_bounds :
    (s : Bytes) (stop n : ℕ) → (stop ≤ skip_right s stop n + n) × (skip_right s stop n ≤ stop)
unfolding skip_right
skip_right_bounds s stop zero = (omega arith, omega arith)
skip_right_bounds s stop (suc n) = ground (arith, skip_right_bounds s (stop - 1) n)

-- Reading a value that was found panics exactly if the line ends right behind its colon with a bare
-- newline, so that `value_start` is already behind the last byte that the code wants to take.
pub value_of-panic :
    {payload name : Bytes} {l : Line}
    → IsLine payload name l
    → (value_of payload l ≡ panic) ↔ (l.value_start ≡ l.header_end)
unfolding value_of slice
value_of-panic {payload} {name} {l} h =
    let n : ℕ = l.stop - 1 - l.value_start in
    let start : ℕ = skip_left payload l.value_start n in
    let left = skip_left_bounds payload l.value_start n in
    let right = skip_right_bounds payload l.stop (l.stop - 1 - start) in
    (
      λ e. elim (Bool-cases (leb start (skip_right payload l.stop (l.stop - 1 - start)))) [
        | inl fits ↦ absurd (ground arith)
        | inr crossed ↦ ground arith
      ],
      λ e.
          let none_left : n ≡ 0 = omega arith in
          let crossed : leb start (skip_right payload l.stop (l.stop - 1 - start)) ≡ false =
            ground arith in
          rw crossed,
    )
