-- ===== src/Tcp/Assembler/Map.antt =====
-- The map of connections: keys, lookups and deletions.
use httpdump.Base.{
  ℕ, ◌≡◌, inl, inr, refl, sym, subst, ap, ◌∙◌, true, false, none, some, [], ◌∷◌, ltb, Bytes,
  bytes_eq, bytes_eq_iff, bytes_lt_asym, eq_of_not_bytes_lt, Bool-cases, arith,
}
use httpdump.Tcp.Stream.{Endpoint, to_string}
use httpdump.Tcp.Connection.{TcpConnection}
use httpdump.Tcp.Assembler.{Connections, create_connection_key, lookup, update, delete, younger}

-- A packet of either direction has the same key.
pub create_connection_key_sym :
    (src dst : Endpoint) → create_connection_key src dst ≡ create_connection_key dst src
unfolding create_connection_key
create_connection_key_sym src dst = ground (
  arith,
  bytes_lt_asym (to_string src) (to_string dst),
  eq_of_not_bytes_lt (to_string src) (to_string dst),
)

-- No connection of the list has the key.
abbrev pub Absent : Bytes → Connections → Type 0
Absent key [] = Unit
Absent key (c ∷ cs) = (bytes_eq c.key key ≡ false) × Absent key cs

-- No two connections have one key.
abbrev pub Distinct : Connections → Type 0
Distinct [] = Unit
Distinct (c ∷ cs) = Absent c.key cs × Distinct cs

pub Absent-lookup : (key : Bytes) (cs : Connections) → lookup key cs ≡ none → Absent key cs
unfolding lookup
Absent-lookup key [] h = tt
Absent-lookup key (c ∷ cs) h = elim (Bool-cases (bytes_eq c.key key)) [
  | inl e ↦ absurd (ground arith)
  | inr ne ↦ (ne, Absent-lookup key cs (ground arith))
]

pub lookup-Absent : (key : Bytes) (cs : Connections) → Absent key cs → lookup key cs ≡ none
unfolding lookup
lookup-Absent key [] h = refl
lookup-Absent key (c ∷ cs) (ne, h) = ground (arith, lookup-Absent key cs h)

pub key-lookup :
    (key : Bytes) (cs : Connections) (c : TcpConnection)
    → lookup key cs ≡ some c
    → bytes_eq c.key key ≡ true
unfolding lookup
key-lookup key [] c h = cc
key-lookup key (d ∷ cs) c h = elim (Bool-cases (bytes_eq d.key key)) [
  | inl e ↦ let same : d ≡ c = ground arith in ap (λ x. bytes_eq x.key key) (sym same) ∙ e
  | inr ne ↦ key-lookup key cs c (ground arith)
]

-- Only the keys matter to `Absent`.
Absent-update :
    (key : Bytes) (c : TcpConnection) (cs : Connections) → Absent key cs → Absent key (update c cs)
unfolding update
Absent-update key c [] a = tt
Absent-update key c (d ∷ cs) (ne, a) = elim (Bool-cases (bytes_eq d.key c.key)) [
  | inl e ↦ simp e (ground (arith, bytes_eq_iff d.key c.key), a)
  | inr other ↦ simp other (ne, Absent-update key c cs a)
]

pub Distinct-update : (c : TcpConnection) (cs : Connections) → Distinct cs → Distinct (update c cs)
unfolding update
Distinct-update c [] d = tt
Distinct-update c (x ∷ cs) (a, d) = elim (Bool-cases (bytes_eq x.key c.key)) [
  | inl e ↦ simp e (subst (λ k. Absent k cs) ((bytes_eq_iff x.key c.key).0 e) a, d)
  | inr other ↦ simp other (Absent-update x.key c cs a, Distinct-update c cs d)
]

Absent-delete :
    (key other : Bytes) (cs : Connections) → Absent key cs → Absent key (delete other cs)
unfolding delete
Absent-delete key other [] a = tt
Absent-delete key other (c ∷ cs) (ne, a) = elim (Bool-cases (bytes_eq c.key other)) [
  | inl e ↦ simp e a
  | inr kept ↦ simp kept (ne, Absent-delete key other cs a)
]

-- A deleted key is gone.
pub delete-Absent : (key : Bytes) (cs : Connections) → Distinct cs → Absent key (delete key cs)
unfolding delete
delete-Absent key [] d = tt
delete-Absent key (c ∷ cs) (a, d) = elim (Bool-cases (bytes_eq c.key key)) [
  | inl e ↦ simp e (subst (λ k. Absent k cs) ((bytes_eq_iff c.key key).0 e) a)
  | inr other ↦ simp other (refl, delete-Absent key cs d)
]

pub Distinct-delete : (key : Bytes) (cs : Connections) → Distinct cs → Distinct (delete key cs)
unfolding delete
Distinct-delete key [] d = tt
Distinct-delete key (c ∷ cs) (a, d) = elim (Bool-cases (bytes_eq c.key key)) [
  | inl e ↦ simp e d
  | inr kept ↦ simp kept (Absent-delete c.key key cs a, Distinct-delete key cs d)
]

pub Absent-younger :
    (key : Bytes) (time : ℕ) (cs : Connections) → Absent key cs → Absent key (younger time cs)
unfolding younger
Absent-younger key time [] a = tt
Absent-younger key time (c ∷ cs) (ne, a) = elim (Bool-cases (ltb c.last_timestamp time)) [
  | inl old ↦ simp old (Absent-younger key time cs a)
  | inr young ↦ simp young (ne, Absent-younger key time cs a)
]

pub Distinct-younger : (time : ℕ) (cs : Connections) → Distinct cs → Distinct (younger time cs)
unfolding younger
Distinct-younger time [] d = tt
Distinct-younger time (c ∷ cs) (a, d) = elim (Bool-cases (ltb c.last_timestamp time)) [
  | inl old ↦ simp old (Distinct-younger time cs d)
  | inr young ↦ simp young (Absent-younger c.key time cs a, Distinct-younger time cs d)
]
