-- ===== src/Capture/Tool/Printed.antt =====
-- What the tool prints: the flags of a packet, and its number.
use httpdump.Base.{
  ℕ, suc, ◌+◌, ◌≡◌, refl, sym, ap, ap₂, not, ◌&&◌, ◌∙◌, Bool, true, false, none, some, List, [],
  ◌∷◌, ◌++◌, append-nil, append_assoc, Bytes, codes, bytes_eq, inl, inr, Bool-cases, Option-cases,
  arith,
}
use httpdump.Filter.Mime.{is_space, space_width}
use httpdump.Web.Event.{keep_word, fields_at, fields_from, fields}
use httpdump.Web.Event.Fields.{
  is_word, begins_space, space_width-plain, space_width-gap, fields_from-word,
}
use httpdump.Capture.Tool.{
  Flags, Packet, if_text, join_from, join, flag_names, tcp_flags, print_packet, print_packet_info,
  print_packets,
}

abbrev pub AreWords : List Bytes → Type 0
AreWords [] = Unit
AreWords (s ∷ strs) = (is_word s ≡ true) × AreWords strs

abbrev pub full_ones : List Bytes → List Bytes
full_ones [] = []
full_ones ([] ∷ strs) = full_ones strs
full_ones ((c ∷ s) ∷ strs) = (c ∷ s) ∷ full_ones strs

keep_word-append : (b : Bytes) (xs ys : List Bytes) → keep_word b (xs ++ ys) ≡ keep_word b xs ++ ys
unfolding keep_word
keep_word-append [] xs ys = refl
keep_word-append (c ∷ b) xs ys = refl

fields_from-space : (b s : Bytes) → fields_from b (32 ∷ s) ≡ keep_word b (fields s)
unfolding fields_at
fields_from-space b s = simp (fields_at, space_width-gap s) refl

-- A text without the bytes that a space outside ASCII begins with.
abbrev is_narrow : Bytes → Bool
is_narrow [] = true
is_narrow (c ∷ s) = not (begins_space c) && is_narrow s

is_narrow-append : (a b : Bytes) → is_narrow (a ++ b) ≡ (is_narrow a && is_narrow b)
is_narrow-append [] b = refl
is_narrow-append (c ∷ a) b = ground (arith, is_narrow-append a b)

is_word-narrow : (a : Bytes) → is_word a ≡ true → is_narrow a ≡ true
is_word-narrow [] h = refl
is_word-narrow (c ∷ a) h = ground (arith, is_word-narrow a (ground arith))

fields_from-gap :
    (x : ℕ) (t b : Bytes)
    → begins_space x ≡ false
    → is_space x ≡ true
    → fields_from b (x ∷ t) ≡ keep_word b (fields t)
unfolding fields_at
fields_from-gap x t b h gap =
    let one : space_width x t ≡ 1 = space_width-plain x t h ∙ rw gap refl in
    simp (fields_at, one) refl

fields_from-on :
    (x : ℕ) (t b : Bytes)
    → begins_space x ≡ false
    → is_space x ≡ false
    → fields_from b (x ∷ t) ≡ fields_from (b ++ x ∷ []) t
unfolding fields_at
fields_from-on x t b h on =
    let none_here : space_width x t ≡ 0 = space_width-plain x t h ∙ rw on refl in
    simp (fields_at, none_here) refl

fields_from-append :
    (a b s : Bytes) → is_narrow a ≡ true → fields_from b (a ++ 32 ∷ s) ≡ fields_from b a ++ fields s
unfolding fields_at
fields_from-append [] b s h = fields_from-space b s ∙ keep_word-append b [] (fields s)
fields_from-append (x ∷ a) b s h =
    let narrow : begins_space x ≡ false = ground arith in
    elim (Bool-cases (is_space x)) [
      | inl gap ↦
          fields_from-gap x (a ++ 32 ∷ s) b narrow gap
          ∙ ap (keep_word b) (fields_from-append a [] s (ground arith))
          ∙ keep_word-append b (fields_from [] a) (fields s)
          ∙ ap (λ l. l ++ fields s) (sym (fields_from-gap x a b narrow gap))
      | inr on ↦
          fields_from-on x (a ++ 32 ∷ s) b narrow on
          ∙ fields_from-append a (b ++ x ∷ []) s (ground arith)
          ∙ ap (λ l. l ++ fields s) (sym (fields_from-on x a b narrow on))
    ]

fields-single : (c : ℕ) (s : Bytes) → is_word (c ∷ s) ≡ true → fields (c ∷ s) ≡ (c ∷ s) ∷ []
unfolding fields_at keep_word
fields-single c s h = ap fields (sym (append-nil (c ∷ s))) ∙ fields_from-word [] (c ∷ s) [] h

join_from-fields :
    (joined : Bytes) (strs : List Bytes)
    → is_narrow joined ≡ true
    → AreWords strs
    → fields (join_from joined strs (codes " ")) ≡ fields joined ++ full_ones strs
unfolding join_from if_text bytes_eq fields_at keep_word
join_from-fields joined [] narrow h = sym (append-nil (fields joined))
join_from-fields joined ([] ∷ strs) narrow (h, hs) = join_from-fields joined strs narrow hs
join_from-fields [] ((c ∷ s) ∷ strs) narrow (h, hs) =
    join_from-fields (c ∷ s) strs (is_word-narrow (c ∷ s) h) hs
    ∙ ap (λ l. l ++ full_ones strs) (fields-single c s h)
join_from-fields (x ∷ joined) ((c ∷ s) ∷ strs) narrow (h, hs) =
    join_from-fields ((x ∷ joined) ++ 32 ∷ (c ∷ s)) strs
      (is_narrow-append (x ∷ joined) (32 ∷ (c ∷ s))
        ∙ ap₂ (λ p q. p && q) narrow (is_word-narrow (c ∷ s) h))
      hs
    ∙ ap (λ l. l ++ full_ones strs)
        (fields_from-append (x ∷ joined) [] (c ∷ s) narrow
          ∙ ap (λ l. fields (x ∷ joined) ++ l) (fields-single c s h))
    ∙ append_assoc (fields (x ∷ joined)) ((c ∷ s) ∷ []) (full_ones strs)

if_text-word : (b : Bool) (s : Bytes) → is_word s ≡ true → is_word (if_text b s) ≡ true
unfolding if_text
if_text-word true s h = h
if_text-word false s h = refl

flag_names-AreWords : (tcp : Flags) → AreWords (flag_names tcp)
unfolding flag_names is_space
flag_names-AreWords tcp = (
  if_text-word tcp.fin _ refl,
  (
    if_text-word tcp.syn _ refl,
    (
      if_text-word tcp.rst _ refl,
      (
        if_text-word tcp.psh _ refl,
        (
          if_text-word tcp.ack _ refl,
          (
            if_text-word tcp.urg _ refl,
            (
              if_text-word tcp.ece _ refl,
              (if_text-word tcp.cwr _ refl, (if_text-word tcp.ns _ refl, tt)),
            ),
          ),
        ),
      ),
    ),
  ),
)

-- The text of the flags is read back: its fields are the names of the flags that are set, in the
-- order of the code, and `Join` puts no space before the first, behind the last, or for a flag that
-- is not set.
pub tcp_flags-fields : (tcp : Flags) → fields (tcp_flags tcp) ≡ full_ones (flag_names tcp)
unfolding tcp_flags join
tcp_flags-fields tcp =
    join_from-fields [] (flag_names tcp) refl (flag_names-AreWords tcp)
    ∙ unfold fields_at in unfold keep_word in refl

-- The packets that have a network layer and a TCP layer.
abbrev pub tcp_packets : List Packet → ℕ
tcp_packets [] = 0
tcp_packets (p ∷ ps) = elim p.network [
  | none ↦ tcp_packets ps
  | some flow ↦ elim p.transport [ none ↦ tcp_packets ps | some tcp ↦ suc (tcp_packets ps) ]
]

-- The tool numbers the TCP packets of the file alone, and one by one.
pub print_packets-counts :
    (seq : ℕ) (ps : List Packet) → (print_packets seq ps).0 ≡ seq + tcp_packets ps
unfolding print_packets print_packet_info print_packet
print_packets-counts seq [] = omega arith
print_packets-counts seq (p ∷ ps) = elim (Option-cases p.network) [
  | inl nothing ↦ simp (print_packet_info, nothing) (print_packets-counts seq ps)
  | inr (flow, given) ↦ elim (Option-cases p.transport) [
    | inl nothing ↦ simp (print_packet_info, given, nothing) (print_packets-counts seq ps)
    | inr (tcp, there) ↦
        simp (print_packet_info, given, there) (print_packets-counts (suc seq) ps ∙ omega arith)
  ]
]
