-- ===== src/Replay/Files/Each.antt =====
-- Which files a replay reads.
use httpdump.Base.{
  ◌≡◌, ◌↔◌, inl, inr, refl, false, List, [], ◌∷◌, map, if◌then◌else◌, Bytes, Bool-cases,
}
use httpdump.Replay.Files.{Files, file, process_file, process_files, process_dir}

module _ {S : Type 0} (files : Files S) where
  -- The files up to the first that gives an error, that one included.
  abbrev pub up_to_error : List Bytes → S → List Bytes
  up_to_error [] s = []
  up_to_error (name ∷ names) s =
      let r = process_file files name s in
      let rest = up_to_error names r.0 in if r.1 then name ∷ [] else name ∷ rest

  -- A walk over a directory stops at the first file that gives an error, where a pattern goes on:
  -- the walk reads what a pattern reads of the files up to that one.
  pub process_dir-files :
      (names : List Bytes) (s : S)
      → ((process_dir files (map file names) s).0 ≡ (process_files files (up_to_error names s) s).0)
        × (((process_dir files (map file names) s).1 ≡ false)
            ↔ ((process_files files names s).1 ≡ []))
  unfolding process_dir process_files
  process_dir-files [] s = (refl, (λ h. refl, λ h. refl))
  process_dir-files (name ∷ names) s = elim (Bool-cases (process_file files name s).1) [
    | inl fails ↦ (simp fails refl, (λ h. cc (simp fails at h), λ h. cc (simp fails at h)))
    | inr reads ↦
        let (same, (there, back)) = process_dir-files names (process_file files name s).0 in
        (
          simp reads same,
          (λ h. simp reads (there (simp reads at h)), λ h. simp reads (back (simp reads at h))),
        )
  ]
