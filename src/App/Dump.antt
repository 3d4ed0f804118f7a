-- ===== src/App/Dump.antt =====
-- The budget of dumped bodies: `-dump-body prefix:N`.
use httpdump.Base.{
  ℕ, suc, ◌+◌, ◌-◌, ◌^◌, ◌%◌, ◌≤◌, ◌<◌, ◌≡◌, inl, inr, refl, ap, ◌∙◌, min, true, false, Option,
  some, List, [], ◌∷◌, ◌++◌, if◌then◌else◌, ltb, leb, length, take-append_length, Bytes, codes,
  itoa, bytes_eq, count_byte, index, ℤ, pos, Bool-cases, arith,
}
use httpdump.Base.Text.Search.{index-single, index_byte-append, drop-line}
use httpdump.Filter.Options
use httpdump.Filter.Options.{can_dump}
use httpdump.Handler.Format.{Calls, dump_body}
use httpdump.App.{App, handler_option, to_uint32, process_dump_body}

-- The bodies of `bodies` that are dumped in turn, where each is asked of `CanDump`: how many, and
-- the options afterwards. A body comes with the name of its file.
unfoldable pub dumped : Calls → List (Bytes × Bytes) → Options.Options → ℕ × Options.Options
dumped calls [] o = (0, o)
dumped calls ((fn, body) ∷ bodies) o = elim (can_dump o) [
  | true ↦ let rest = dumped calls bodies (dump_body calls o fn body).1 in (suc rest.0, rest.1)
  | false ↦ dumped calls bodies o
]

abbrev pub AreFull : List (Bytes × Bytes) → Type 0
AreFull [] = Unit
AreFull ((fn, body) ∷ bodies) = (0 < length body) × AreFull bodies

can_dump-below :
    (o : Options.Options)
    → bytes_eq o.dump_body [] ≡ false
    → 0 < o.dump_max
    → can_dump o ≡ ltb o.dump_num o.dump_max
unfolding can_dump
can_dump-below o named h =
    let more : leb o.dump_max 0 ≡ false = ground arith in simp (named, more) refl

dump_body-counts :
    (calls : Calls) (o : Options.Options) (fn body : Bytes)
    → calls.creates fn ≡ true
    → 0 < length body
    → (dump_body calls o fn body).1 ≡ record o { dump_num = (o.dump_num + 1) % 2 ^ 32 }
unfolding dump_body
dump_body-counts calls o fn body created h =
    let more : ltb 0 (length body) ≡ true = ground arith in simp (created, more) refl

dumped-min :
    (calls : Calls) (bodies : List (Bytes × Bytes)) (o : Options.Options)
    → ((fn : Bytes) → calls.creates fn ≡ true)
    → AreFull bodies
    → bytes_eq o.dump_body [] ≡ false
    → 0 < o.dump_max
    → o.dump_max < 2 ^ 32
    → o.dump_num ≤ o.dump_max
    → (dumped calls bodies o).0 ≡ min (o.dump_max - o.dump_num) (length bodies)
unfolding dumped
dumped-min calls [] o creates full named low high inside = ground arith
dumped-min calls ((fn, body) ∷ bodies) o creates (more, full) named low high inside =
    let test = can_dump-below o named low in
    elim (Bool-cases (ltb o.dump_num o.dump_max)) [
      | inl below ↦
          let asks : can_dump o ≡ true = test ∙ below in
          let counts = dump_body-counts calls o fn body (creates fn) more in
          let next : (o.dump_num + 1) % 2 ^ 32 ≡ o.dump_num + 1 = ground arith in
          let rest =
            dumped-min calls bodies (record o { dump_num = o.dump_num + 1 }) creates full named low
              high (ground arith) in
          let all : (dumped calls ((fn, body) ∷ bodies) o).0
              ≡ suc (dumped calls bodies (record o { dump_num = o.dump_num + 1 })).0 =
            simp (dumped, asks, counts, next) refl in
          all ∙ ground (arith, rest)
      | inr spent ↦
          let asks : can_dump o ≡ false = test ∙ spent in
          let all : (dumped calls ((fn, body) ∷ bodies) o).0 ≡ (dumped calls bodies o).0 =
            simp (dumped, asks) refl in
          all ∙ dumped-min calls bodies o creates full named low high inside ∙ ground arith
    ]

dump_flag :
    (atoi : Bytes → Option ℤ) (app : App) (prefix : Bytes) (n : ℕ)
    → app.dump_body ≡ prefix ++ 58 ∷ itoa n
    → count_byte prefix 58 ≡ 0
    → atoi (itoa n) ≡ some (pos n)
    → n < 2 ^ 32
    → ((process_dump_body atoi app).dump_max ≡ n)
      × ((process_dump_body atoi app).dump_body
          ≡ (if bytes_eq prefix [] then codes "dump" else prefix))
unfolding process_dump_body
dump_flag atoi app prefix n flag plain reads small =
    let found : index (prefix ++ 58 ∷ itoa n) (58 ∷ []) ≡ some (length prefix) =
      index-single _ 58 ∙ index_byte-append prefix 58 (itoa n) plain in
    let some_text : bytes_eq (prefix ++ 58 ∷ itoa n) [] ≡ false = not_empty prefix in
    let fits : to_uint32 (pos n) ≡ n = unfold to_uint32 in ground arith in
    simp
      (
        process_dump_body,
        flag,
        some_text,
        found,
        drop-line prefix 58 (itoa n),
        reads,
        fits,
        take-append_length prefix (58 ∷ itoa n),
      )
      (refl, refl)
  where
    not_empty : (p : Bytes) → bytes_eq (p ++ 58 ∷ itoa n) [] ≡ false
    not_empty [] = unfold bytes_eq in refl
    not_empty (x ∷ p) = unfold bytes_eq in refl

-- With `-dump-body prefix:N` for a positive N below 2^32, of the bodies that come in turn exactly
-- the first N are dumped. None of them is empty, and every file can be made; the prefix has no
-- colon in it, and `Atoi` reads back what `Itoa` prints of N.
pub dumped-budget :
    (atoi : Bytes → Option ℤ) (app : App) (calls : Calls) (prefix : Bytes) (n : ℕ)
    (bodies : List (Bytes × Bytes))
    → app.dump_body ≡ prefix ++ 58 ∷ itoa n
    → count_byte prefix 58 ≡ 0
    → atoi (itoa n) ≡ some (pos n)
    → 0 < n
    → n < 2 ^ 32
    → ((fn : Bytes) → calls.creates fn ≡ true)
    → AreFull bodies
    → (dumped calls bodies (handler_option (process_dump_body atoi app))).0 ≡ min n (length bodies)
unfolding handler_option
dumped-budget atoi app calls prefix n bodies flag plain reads low high creates full =
    let (max_is, name_is) = dump_flag atoi app prefix n flag plain reads high in
    let o = handler_option (process_dump_body atoi app) in
    dumped-min calls bodies o creates full (ap (λ b. bytes_eq b []) name_is ∙ named prefix)
      (omega (arith, max_is)) (omega (arith, max_is)) (omega arith)
    ∙ ground (arith, max_is)
  where
    named : (p : Bytes) → bytes_eq (if bytes_eq p [] then codes "dump" else p) [] ≡ false
    named [] = unfold bytes_eq in refl
    named (x ∷ p) = unfold bytes_eq in refl
