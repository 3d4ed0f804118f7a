-- ===== src/Tcp/Assembler/Safe/Retrieve.antt =====
-- The lookup of a connection before its packet, and its place in the map after it.
use httpdump.Base.{
  ◌≡◌, inl, inr, refl, sym, subst, Bool, true, false, Option, none, some, [], ◌∷◌, Bytes, ◌>>=◌,
  Returns, bytes_eq, bytes_eq_iff, Bool-cases, Option-cases, arith,
}
use httpdump.Tcp.Stream.{Endpoint}
use httpdump.Tcp.Connection.{TcpConnection, new_tcp_connection, closed}
use httpdump.Tcp.Connection.Safe.{IsOpen}
use httpdump.Tcp.Assembler.{
  Connections, TcpAssembler, lookup, update, delete, entries, retrieve_connection, store,
}
use httpdump.Tcp.Assembler.Map.{
  Absent, Distinct, Absent-lookup, key-lookup, Distinct-update, Distinct-delete,
}
use httpdump.Tcp.Assembler.Live.{
  AllLive, IsValid, new_tcp_connection-IsLive, lookup-IsLive, AllLive-update, AllLive-delete,
  finish-IsDone,
}

lookup-update_other :
    (key : Bytes) (c : TcpConnection) (cs : Connections)
    → bytes_eq c.key key ≡ false
    → lookup key (update c cs) ≡ lookup key cs
unfolding lookup update
lookup-update_other key c [] ne = refl
lookup-update_other key c (d ∷ cs) ne =
    ground (arith, lookup-update_other key c cs ne, bytes_eq_iff d.key c.key)

lookup-delete_other :
    (key other : Bytes) (cs : Connections)
    → bytes_eq other key ≡ false
    → lookup key (delete other cs) ≡ lookup key cs
unfolding lookup delete
lookup-delete_other key other [] ne = refl
lookup-delete_other key other (d ∷ cs) ne =
    ground (arith, lookup-delete_other key other cs ne, bytes_eq_iff d.key other)

-- The assembler after a packet whose key is `key`, in place of `r`.
pub record Follows (key : Bytes) (cs : Connections) (r' : TcpAssembler) : Type 0 where
  pub valid : IsValid r'
  pub others :
      (k : Bytes) → bytes_eq key k ≡ false → lookup k (entries r'.connections) ≡ lookup k cs

pub store-Follows :
    (r : TcpAssembler) (cs : Connections) (c : TcpConnection) (key : Bytes)
    → r.connections ≡ some cs
    → AllLive cs
    → Distinct cs
    → IsOpen c
    → bytes_eq c.key key ≡ true
    → Returns (store r c key) (Follows key cs)
unfolding store
store-Follows r cs c key here l d o same = elim (Bool-cases (closed c)) [
  | inl done ↦
      let (c', e, _) = finish-IsDone c o in
      rw (done, e, ◌>>=◌, here)
        (
          _,
          refl,
          record {
            valid = record {
              table = delete key cs;
              present = refl;
              live = AllLive-delete key cs l;
              distinct = Distinct-delete key cs d;
            };
            others = λ k ne. lookup-delete_other k key cs ne;
          },
        )
  | inr going ↦
      rw (going, here)
        (
          _,
          refl,
          record {
            valid = record {
              table = update c cs;
              present = refl;
              live = AllLive-update c cs (o, going) l;
              distinct = Distinct-update c cs d;
            };
            others = λ k ne. lookup-update_other k c cs (rw ((bytes_eq_iff c.key key).0 same) ne);
          },
        )
]

-- What `retrieveConnection` finds or makes, in the map that it leaves.
pub record Retrieved (key : Bytes) (cs : Connections) (init : Bool)
    (found : TcpAssembler × Option TcpConnection) : Type 0 where
  pub table : Connections
  pub present : found.0.connections ≡ some table
  pub live : AllLive table
  pub distinct : Distinct table
  pub others : (k : Bytes) → bytes_eq key k ≡ false → lookup k table ≡ lookup k cs
  pub ignored : lookup key cs ≡ none → init ≡ false → (found.1 ≡ none) × (table ≡ cs)
  pub usable : (c : TcpConnection) → found.1 ≡ some c → IsOpen c × (bytes_eq c.key key ≡ true)

module _ (r : TcpAssembler) (cs : Connections) (src dst : Endpoint) (key : Bytes)
    (here : r.connections ≡ some cs) (l : AllLive cs) (d : Distinct cs) where
  made : TcpConnection
  made = new_tcp_connection key src dst r.process_resp

  made_key : made.key ≡ key
  unfolding new_tcp_connection made
  made_key = refl

  made_other : (k : Bytes) → bytes_eq key k ≡ false → lookup k (made ∷ cs) ≡ lookup k cs
  unfolding lookup
  made_other k ne = ground (arith, made_key)

  with_key :
      (c c' : TcpConnection)
      → c ≡ c'
      → IsOpen c
      → bytes_eq c.key key ≡ true
      → IsOpen c' × (bytes_eq c'.key key ≡ true)
  with_key c c' same o e = subst (λ x. IsOpen x × (bytes_eq x.key key ≡ true)) same (o, e)

  pub retrieve_connection-Retrieved :
      (init : Bool) → Returns (retrieve_connection r src dst key init) (Retrieved key cs init)
  unfolding retrieve_connection made
  retrieve_connection-Retrieved init = elim (Option-cases (lookup key cs)) [
    | inr (c, found) ↦
        simp (retrieve_connection, here, found)
          (
            _,
            refl,
            record {
              table = cs;
              present = here;
              live = l;
              distinct = d;
              others = λ k ne. refl;
              ignored = λ e e'. cc;
              usable = λ c' e.
                  with_key c c' (ground arith) (lookup-IsLive key cs c l found).0
                    (key-lookup key cs c found);
            },
          )
    | inl fresh ↦ elim (Bool-cases init) [
      | inl wanted ↦
          simp (wanted, retrieve_connection, here, fresh)
            (
              _,
              refl,
              record {
                table = made ∷ cs;
                present = refl;
                live = (new_tcp_connection-IsLive key src dst r.process_resp, l);
                distinct =
                    (subst (λ k. Absent k cs) (sym made_key) (Absent-lookup key cs fresh), d);
                others = made_other;
                ignored = λ e e'. cc;
                usable = λ c' e.
                    with_key made c' (ground arith)
                      (new_tcp_connection-IsLive key src dst r.process_resp).0
                      (ground (arith, made_key, bytes_eq_iff key key));
              },
            )
      | inr unwanted ↦
          simp (unwanted, retrieve_connection, here, fresh)
            (
              _,
              refl,
              record {
                table = cs;
                present = here;
                live = l;
                distinct = d;
                others = λ k ne. refl;
                ignored = λ e e'. (refl, refl);
                usable = λ c' e. cc;
              },
            )
    ]
  ]
