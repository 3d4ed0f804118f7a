-- ===== src/Tcp/Queue/Stream.antt =====
-- What the reader of a connection gets of the stream.
use httpdump.Base.{
  ℕ, zero, suc, ◌+◌, ◌-◌, ◌%◌, ◌^◌, ◌≤◌, ◌<◌, ◌≡◌, ◌∙◌, refl, ap, inl, inr, true, false, none, some,
  List, [], ◌∷◌, ◌++◌, ltb, ◌==◌, if◌then◌else◌, length, drop, Bool-cases, is_neg, is_pos, leb,
  ne→==, subst, append-nil, append_assoc, ltb→lt, arith, sym, ap₂, max,
}
use httpdump.Tcp.Packet.{Tcp}
use httpdump.Base.{Bytes}
use httpdump.Tcp.Seq.{compare_tcp_seq, sub32}
use httpdump.Tcp.Window.{payload_len, deliver, sent}
use httpdump.Tcp.Queue.{Queue, confirm}

-- The `n` bytes of a stream from position `i` on.
abbrev pub slice : (ℕ → ℕ) → ℕ → ℕ → Bytes
slice stream i zero = []
slice stream i (suc n) = stream i ∷ slice stream (i + 1) n

-- The bytes that packets carry, one after the other.
abbrev pub bytes : List Tcp → Bytes
bytes [] = []
bytes (p ∷ ps) = p.payload ++ bytes ps

-- A packet of the stream: it carries the bytes at its number. The stream is numbered from 1 on and
-- ends before 2^31, so its numbers do not wrap.
pub record IsPart (stream : ℕ → ℕ) (p : Tcp) : Type 0 where
  pub carries : p.payload ≡ slice stream p.seq (length p.payload)
  pub starts : 0 < p.seq
  pub ends : p.seq + length p.payload < 2 ^ 31

abbrev pub AllParts : (ℕ → ℕ) → Queue → Type 0
AllParts stream [] = Unit
AllParts stream (p ∷ q) = IsPart stream p × AllParts stream q

-- No packet before `ack` begins behind the bytes that came before it.
abbrev pub NoGap : ℕ → ℕ → Queue → Type 0
NoGap ack e [] = Unit
NoGap ack e (p ∷ q) = (p.seq < ack → p.seq ≤ e) × NoGap ack (max e (p.seq + length p.payload)) q

length-slice : (stream : ℕ → ℕ) (i n : ℕ) → length (slice stream i n) ≡ n
length-slice stream i zero = refl
length-slice stream i (suc n) = ap suc (length-slice stream (i + 1) n)

slice-append :
    (stream : ℕ → ℕ) (i n m : ℕ)
    → slice stream i n ++ slice stream (i + n) m ≡ slice stream i (n + m)
slice-append stream i zero m = ap₂ (slice stream) (omega arith) (omega arith)
slice-append stream i (suc n) m =
    let next : i + suc n ≡ i + 1 + n = omega arith in
    let count : suc n + m ≡ suc (n + m) = omega arith in
    rw (next, count) (ap (λ l. stream i ∷ l) (slice-append stream (i + 1) n m))

slice-join :
    (stream : ℕ → ℕ) (i m n : ℕ)
    → i ≤ m
    → m ≤ n
    → slice stream i (m - i) ++ slice stream m (n - m) ≡ slice stream i (n - i)
slice-join stream i m n h k =
    let middle : i + (m - i) ≡ m = omega arith in
    let count : m - i + (n - m) ≡ n - i = omega arith in
    ap (λ x. slice stream i (m - i) ++ slice stream x (n - m)) (sym middle)
    ∙ slice-append stream i (m - i) (n - m)
    ∙ ap (slice stream i) count

drop-slice :
    (stream : ℕ → ℕ) (i n k : ℕ) → k ≤ n → drop k (slice stream i n) ≡ slice stream (i + k) (n - k)
drop-slice stream i n zero h = ap₂ (slice stream) (omega arith) (omega arith)
drop-slice stream i zero (suc k) h = absurd (omega arith)
drop-slice stream i (suc n) (suc k) h =
    drop-slice stream (i + 1) n k (omega arith) ∙ ap₂ (slice stream) (omega arith) (omega arith)

compare_small :
    (a b : ℕ)
    → a < 2 ^ 31
    → b < 2 ^ 31
    → (is_neg (compare_tcp_seq a b) ≡ ltb a b) × (is_pos (compare_tcp_seq a b) ≡ ltb b a)
unfolding compare_tcp_seq
compare_small a b ha hb = (ground arith, ground arith)

-- `deliver` at a part of the stream that leaves no gap, by whether it repeats bytes.
deliver_numbers :
    {stream : ℕ → ℕ} {p : Tcp} (e : ℕ)
    → IsPart stream p
    → 0 < e
    → e < 2 ^ 31
    → p.seq ≤ e
    → deliver e p ≡ (
        if ltb p.seq e
        then (if leb (length p.payload) (e - p.seq) then (none, e) else (
          some (record p { payload = drop (e - p.seq) p.payload }),
          p.seq + length p.payload,
        ))
        else (some p, p.seq + length p.payload))
unfolding deliver
deliver_numbers {p} e part he he' hs =
    let small : payload_len p ≡ length p.payload = omega (arith, part.ends) in
    let diff : sub32 e p.seq ≡ e - p.seq = omega (arith, part.ends) in
    let end : (p.seq + length p.payload) % 2 ^ 32 ≡ p.seq + length p.payload =
      omega (arith, part.ends) in
    let order : is_pos (compare_tcp_seq e p.seq) ≡ ltb p.seq e =
      (compare_small e p.seq he' (omega arith)).1 in
    let started : (e == 0) ≡ false = ne→== _ _ (omega arith) in
    rw (small, diff, end, order, started) (ground arith)

-- A part of the stream without the bytes before `e`.
rest_of_part :
    {stream : ℕ → ℕ} {p : Tcp} (e : ℕ)
    → IsPart stream p
    → p.seq ≤ e
    → e ≤ p.seq + length p.payload
    → drop (e - p.seq) p.payload ≡ slice stream e (p.seq + length p.payload - e)
rest_of_part {stream} {p} e part hs he =
    let at_e : p.seq + (e - p.seq) ≡ e = omega arith in
    let count : length p.payload - (e - p.seq) ≡ p.seq + length p.payload - e = omega arith in
    ap (drop (e - p.seq)) part.carries
    ∙ drop-slice stream p.seq (length p.payload) (e - p.seq) (omega arith)
    ∙ ap₂ (slice stream) at_e count

-- What such a packet sends takes the stream from `e` to the new expected byte.
deliver_part :
    {stream : ℕ → ℕ} {p : Tcp} (e : ℕ)
    → IsPart stream p
    → 0 < e
    → e < 2 ^ 31
    → p.seq ≤ e
    → let (d, e') = deliver e p in
      (bytes (sent d) ≡ slice stream e (e' - e)) × (e' ≡ max e (p.seq + length p.payload))
deliver_part {stream} {p} e part he he' hs =
    rw (deliver_numbers e part he he' hs) (elim (Bool-cases (ltb p.seq e)) [
      | inl before ↦ rw before (elim (Bool-cases (leb (length p.payload) (e - p.seq))) [
        | inl old ↦
            let none_left : e - e ≡ 0 = omega arith in rw (old, none_left) (refl, ground arith)
        | inr new ↦ rw new (append-nil _ ∙ rest_of_part e part hs (ground arith), ground arith)
      ])
      | inr same ↦
          let here : p.seq ≡ e = ground arith in
          let count : length p.payload ≡ p.seq + length p.payload - e = omega arith in
          rw same (append-nil _ ∙ part.carries ∙ ap₂ (slice stream) here count, ground arith)
    ])

bytes-append : (ps qs : List Tcp) → bytes (ps ++ qs) ≡ bytes ps ++ bytes qs
bytes-append [] qs = refl
bytes-append (p ∷ ps) qs = simp (bytes-append ps qs, append_assoc)

-- If the queue holds parts of a stream without a gap, a confirmation sends exactly the bytes of the
-- stream from the byte that was expected to the byte that is expected then, each once and in order.
pub confirm_stream :
    (stream : ℕ → ℕ) (ack e : ℕ) (q : Queue)
    → AllParts stream q
    → NoGap ack e q
    → ack < 2 ^ 31
    → 0 < e
    → e < 2 ^ 31
    → let c = confirm ack e q in (bytes c.out ≡ slice stream e (c.expect - e)) × (e ≤ c.expect)
unfolding confirm
confirm_stream stream ack e [] parts gap ha he he' =
    let zero_left : e - e ≡ 0 = omega arith in rw zero_left (refl, omega arith)
confirm_stream stream ack e (p ∷ q) (part, parts) (starts, gap) ha he he' =
    elim (Bool-cases (is_neg (compare_tcp_seq p.seq ack))) [
      | inl earlier ↦
          let lt : ltb p.seq ack ≡ true =
            sym (compare_small p.seq ack (omega arith) ha).0 ∙ earlier in
          let (sends, next) = deliver_part e part he he' (starts (ltb→lt p.seq ack lt)) in
          let e' : ℕ = (deliver e p).1 in
          let gap' : NoGap ack e' q = subst (λ x. NoGap ack x q) (sym next) gap in
          let (more, grows) =
            confirm_stream stream ack e' q parts gap' ha (omega arith) (omega arith) in
          rw earlier (
            bytes-append (sent (deliver e p).0) _
                ∙ ap₂ ◌++◌ sends more
                ∙ slice-join stream e e' _ (omega arith) grows,
            omega arith,
          )
      | inr later ↦
          let zero_left : e - e ≡ 0 = omega arith in rw (later, zero_left) (refl, omega arith)
    ]

-- Packets before `ack`, none of which ends behind `e`.
abbrev pub Before : ℕ → ℕ → Queue → Type 0
Before ack e [] = Unit
Before ack e (p ∷ q) = (p.seq < ack) × (p.seq + length p.payload ≤ e) × Before ack e q

-- A queue whose first packet is not before `ack`.
abbrev pub Reaches : ℕ → Queue → Type 0
Reaches ack [] = Unit
Reaches ack (p ∷ q) = ack ≤ p.seq

-- What a confirmation takes out comes before `ack`, up to the first packet that does not, and the
-- byte that is expected then comes behind all of it.
pub confirm_takes :
    (stream : ℕ → ℕ) (ack e : ℕ) (q : Queue)
    → AllParts stream q
    → NoGap ack e q
    → ack < 2 ^ 31
    → 0 < e
    → e < 2 ^ 31
    → let c = confirm ack e q in
      (taken : Queue) × (q ≡ taken ++ c.waiting) × Before ack c.expect taken × Reaches ack c.waiting
unfolding confirm
confirm_takes stream ack e [] parts gap ha he he' = ([], refl, tt, tt)
confirm_takes stream ack e (p ∷ q) (part, parts) (starts, gap) ha he he' =
    let order = compare_small p.seq ack (omega (arith, part.ends)) ha in
    elim (Bool-cases (is_neg (compare_tcp_seq p.seq ack))) [
      | inl earlier ↦
          let lt : ltb p.seq ack ≡ true = sym order.0 ∙ earlier in
          let (sends, next) = deliver_part e part he he' (starts (ltb→lt p.seq ack lt)) in
          let e' : ℕ = (deliver e p).1 in
          let gap' : NoGap ack e' q = subst (λ x. NoGap ack x q) (sym next) gap in
          let (_, grows) =
            confirm_stream stream ack e' q parts gap' ha (omega arith) (omega (arith, part.ends)) in
          let (taken, whole, before, reaches) =
            confirm_takes stream ack e' q parts gap' ha (omega arith) (omega (arith, part.ends)) in
          rw earlier (
            p ∷ taken,
            ap (λ l. p ∷ l) whole,
            (ltb→lt p.seq ack lt, omega (arith, next, grows), before),
            reaches,
          )
      | inr later ↦ rw later ([], refl, tt, ground (arith, order.0, later))
    ]
