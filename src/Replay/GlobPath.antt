-- ===== src/Replay/GlobPath.antt =====
-- globpath/globpath.go. The matchers of the libraries are parameters; a path has the separators of
-- the host.
use httpdump.Base.{
  ℕ, zero, suc, ◌+◌, ◌≡◌, ◌⊎◌, inl, inr, refl, ap, ◌∙◌, Bool, true, false, not, ◌||◌, Option, none,
  some, List, [], ◌∷◌, ◌++◌, if◌then◌else◌, ◌==◌, take, Bytes, codes, index, has_prefix, Bool-cases,
  Option-cases, arith,
}
use mathlib.Core.Option
use httpdump.Filter.Options.{contains_text}
use httpdump.Replay.Serve.{replace_all}

-- `strings.ContainsAny(path, "*?[")`
unfoldable pub has_meta : Bytes → Bool
has_meta [] = false
has_meta (c ∷ path) = c == b'*' || (c == b'?' || (c == b'[' || has_meta path))

unfoldable pub has_super_meta : Bytes → Bool
has_super_meta path = contains_text path (codes "**")

-- `filepath.FromSlash`, `glob.Compile`, `doublestar.Glob`, `filepath.Match` and `filepath.Glob`;
-- errors of the last three are no match and no files.
pub record Globs (G : Type 0) : Type 0 where
  pub from_slash : Bytes → Bytes
  pub compile : Bytes → Option G
  pub matches : G → Bytes → Bool
  pub doublestar : Bytes → List Bytes
  pub path_match : Bytes → Bytes → Bool
  pub path_glob : Bytes → List Bytes

-- `GlobPath`; `g` is `none` where it is not set.
pub record GlobPath (G : Type 0) : Type 0 where
  pub path : Bytes
  pub meta : Bool
  pub super_meta : Bool
  pub root_glob : Bytes
  pub g : Option G

module _ {G : Type 0} (globs : Globs G) where
  unfoldable pub static_path : Bytes → GlobPath G
  static_path path = record {
    path = globs.from_slash path;
    meta = has_meta path;
    super_meta = has_super_meta path;
    root_glob = [];
    g = none;
  }

  -- `path[:strings.Index(path, "**")+1]`
  unfoldable pub root_of : Bytes → Bytes
  root_of path = elim (index path (codes "**")) [ none ↦ [] | some i ↦ take (i + 1) path ]

  -- `Compile`; `none` is its error.
  unfoldable pub glob_compile : Bytes → Option (GlobPath G)
  glob_compile path =
      if not (has_meta path) || not (has_super_meta path)
      then some (static_path path)
      else elim (globs.compile path) [
        | none ↦ none
        | some g ↦ some (record (static_path path) { root_glob = root_of path; g = some g })
      ]

  -- `Match`: the files, and the path that it leaves.
  unfoldable pub glob_match : GlobPath G → List Bytes × GlobPath G
  glob_match p =
      let path =
        replace_all (replace_all p.path (codes "**/**") (codes "**")) (codes "**")
          (codes "**/**") in
      (globs.doublestar path, record p { path = path })

  -- `MatchString`, which calls a method of the matcher that is not set only where `Compile` did not
  -- make the glob.
  unfoldable pub match_string : GlobPath G → Bytes → Option Bool
  match_string p path =
      if not p.super_meta
      then some (globs.path_match p.path path)
      else elim p.g [ none ↦ none | some g ↦ some (globs.matches g path) ]

  unfoldable pub get_roots : GlobPath G → List Bytes
  get_roots p =
      if not p.meta
      then p.path ∷ []
      else if not p.super_meta
      then globs.path_glob p.path
      else globs.path_glob p.root_glob

starred : (path : Bytes) → has_prefix path (codes "**") ≡ true → has_meta path ≡ true
unfolding has_prefix has_meta
starred [] h = cc
starred (c ∷ path) h = elim (Bool-cases (c == 42)) [
  | inl star ↦ simp star refl
  | inr other ↦ cc (simp other at h)
]

star_first : (c : ℕ) (path : Bytes) → has_prefix (c ∷ path) (codes "**") ≡ true → c ≡ 42
unfolding has_prefix
star_first c path h = ground arith

has_meta-cons : (c : ℕ) (path : Bytes) → has_meta path ≡ true → has_meta (c ∷ path) ≡ true
unfolding has_meta
has_meta-cons c path h = ground arith

index-has_meta :
    (path : Bytes) (i : ℕ)
    → index path (codes "**") ≡ some i
    → (has_meta path ≡ true) × (root : Bytes) × (take (i + 1) path ≡ root ++ 42 ∷ [])
unfolding index
index-has_meta [] i h = unfold has_prefix in cc
index-has_meta (c ∷ path) i h = elim (Bool-cases (has_prefix (c ∷ path) (codes "**"))) [
  | inl here ↦
      let first : i + 1 ≡ suc zero = ground arith in
      (starred (c ∷ path) here, [], rw first (ap (λ x. x ∷ []) (star_first c path here)))
  | inr later ↦ elim (Option-cases (index path (codes "**"))) [
    | inl nothing ↦ cc (simp (later, nothing) at h)
    | inr (j, found) ↦
        let (meta, root, ends) = index-has_meta path j found in
        let next : i + 1 ≡ suc (j + 1) = ground arith in
        (has_meta-cons c path meta, c ∷ root, rw next (ap (λ l. c ∷ l) ends))
  ]
]

has_super_meta-index :
    (path : Bytes)
    → has_super_meta path ≡ elim (index path (codes "**")) [ none ↦ false | some i ↦ true ]
unfolding has_super_meta contains_text
has_super_meta-index path = refl

root_of-index :
    {G : Type 0} (globs : Globs G) (path : Bytes) (i : ℕ)
    → index path (codes "**") ≡ some i
    → root_of globs path ≡ take (i + 1) path
unfolding root_of
root_of-index globs path i e = simp (root_of, e) refl

-- A pattern without `**` always compiles, and has no matcher of its own. A pattern with `**` has a
-- wildcard, so that it is one that `Compile` makes a matcher for; it compiles exactly if the
-- library compiles it, and its root is the pattern up to the first asterisk of the first `**`, that
-- asterisk included.
pub glob_compile-super :
    {G : Type 0} (globs : Globs G) (path : Bytes)
    → ((has_super_meta path ≡ false) × (glob_compile globs path ≡ some (static_path globs path)))
      ⊎ ((has_super_meta path ≡ true)
          × (root : Bytes) × (root_of globs path ≡ root ++ 42 ∷ [])
          × (glob_compile globs path
              ≡ Option.map
                  (λ m. record (static_path globs path) {
                    root_glob = root_of globs path;
                    g = some m;
                  })
                  (globs.compile path)))
unfolding glob_compile
glob_compile-super globs path = elim (Option-cases (index path (codes "**"))) [
  | inl nothing ↦
      let plain : has_super_meta path ≡ false = has_super_meta-index path ∙ simp nothing refl in
      inl (plain, simp plain (absorb (not (has_meta path)) _ _))
  | inr (i, found) ↦
      let super : has_super_meta path ≡ true = has_super_meta-index path ∙ simp found refl in
      let (meta, root, ends) = index-has_meta path i found in
      let root_is : root_of globs path ≡ root ++ 42 ∷ [] =
        root_of-index globs path i found ∙ ends in
      inr (super, root, root_is, compiled meta super)
]
  where
    absorb : {A : Type 0} (b : Bool) (x y : A) → (if b || true then x else y) ≡ x
    absorb true x y = refl
    absorb false x y = refl

    compiled :
        has_meta path ≡ true
        → has_super_meta path ≡ true
        → glob_compile globs path
          ≡ Option.map
              (λ m. record (static_path globs path) { root_glob = root_of globs path; g = some m })
              (globs.compile path)
    compiled meta super = elim (Option-cases (globs.compile path)) [
      | inl nothing ↦ simp (glob_compile, meta, super, nothing) refl
      | inr (g, given) ↦ simp (glob_compile, meta, super, given) refl
    ]
