-- ===== src/Replay/Files.antt =====
-- The files of a replay: `processGlob`, `processDir` and `processFile` of replay/replay.go, and
-- replay/tail.go. A file is the bytes that it gives, or an error to open it; `S` is what the
-- handler of payloads keeps, and `read` what `ReadPayloads` makes of it, with its error.
pub mod Each
pub mod Tailers
use httpdump.Base.{
  ℕ, zero, suc, Bool, true, false, not, ◌&&◌, Option, none, some, List, [], ◌∷◌, ◌++◌,
  if◌then◌else◌, Bytes, codes, bytes_eq, member,
}
use httpdump.Replay.GlobPath.{Globs, glob_compile, glob_match}

pub record Files (S : Type 0) : Type 0 where
  pub open_file : Bytes → Option Bytes
  pub read : Bytes → S → S × Bool

-- An entry that `filepath.WalkDir` hands to its function: an error, a directory or a file.
pub data Entry : Type 0 where
  unreadable : Entry
  directory : Entry
  file : Bytes → Entry

module _ {S : Type 0} (files : Files S) where
  -- `processFile`: the state, and whether there is an error.
  unfoldable pub process_file : Bytes → S → S × Bool
  process_file name s = elim (files.open_file name) [
    | none ↦ (s, true)
    | some text ↦ files.read text s
  ]

  -- The loop of `processGlob`, with the names of the files that gave an error.
  unfoldable pub process_files : List Bytes → S → S × List Bytes
  process_files [] s = (s, [])
  process_files (name ∷ names) s =
      let r = process_file name s in
      let rest = process_files names r.0 in (rest.0, (if r.1 then name ∷ rest.1 else rest.1))

  -- `processGlob`; `none` is the error of `Compile`.
  unfoldable pub process_glob : {G : Type 0} → Globs G → Bytes → S → Option (S × List Bytes)
  process_glob globs path s = elim (glob_compile globs path) [
    | none ↦ none
    | some glob ↦ some (process_files (glob_match globs glob).0 s)
  ]

  -- `processDir`: the walk ends at the first error of its function.
  unfoldable pub process_dir : List Entry → S → S × Bool
  process_dir [] s = (s, false)
  process_dir (unreadable ∷ entries) s = (s, true)
  process_dir (directory ∷ entries) s = process_dir entries s
  process_dir (file name ∷ entries) s =
      let r = process_file name s in let rest = process_dir entries r.0 in if r.1 then r else rest

-- Where a tail begins: at its end, at an offset, or at the beginning.
pub data Seek : Type 0 where
  from_end : Seek
  from_offset : ℕ → Seek
  from_start : Seek

-- `Tail`, and the map of its tailers with where each began.
pub record Tail : Type 0 where
  pub from_beginning : Bool
  pub tailers : List (Bytes × Seek)
  pub offsets : List (Bytes × ℕ)

unfoldable pub lookup : {A : Type 0} → Bytes → List (Bytes × A) → Option A
lookup name [] = none
lookup name ((key, value) ∷ entries) = if bytes_eq name key then some value else lookup name entries

unfoldable pub seek_of : Tail → Bytes → Seek
seek_of t name =
    if t.from_beginning
    then from_start
    else elim (lookup name t.offsets) [ none ↦ from_end | some offset ↦ from_offset offset ]

-- The loop of `tailNewFiles`; `tails` is whether `tail.TailFile` opens a file. The map gets the
-- name of the tailer, which is that of its file.
unfoldable pub tail_files : (Bytes → Bool) → List Bytes → Tail → Tail
tail_files tails [] t = t
tail_files tails (name ∷ names) t = elim (lookup name t.tailers) [
  | some seek ↦ tail_files tails names t
  | none ↦
      tail_files tails names
        (if tails name then record t { tailers = (name, seek_of t name) ∷ t.tailers } else t)
]

-- `tailNewFiles`; `none` is the error of `Compile`.
unfoldable pub tail_new_files : {G : Type 0} → Globs G → (Bytes → Bool) → Bytes → Tail → Option Tail
tail_new_files globs tails path t = elim (glob_compile globs path) [
  | none ↦ none
  | some glob ↦ some (tail_files tails (glob_match globs glob).0 t)
]

-- What the `select` of `tailing` finds: the context is done, or a line with its text and whether it
-- has an error.
pub data TailEvent : Type 0 where
  done : TailEvent
  line : Bytes → Bool → TailEvent

-- `tailing`: the lines that it sends, and whether it has returned. It never closes their channel.
unfoldable pub tailing : List TailEvent → List Bytes × Bool
tailing [] = ([], false)
tailing (done ∷ events) = ([], true)
tailing (line text has_error ∷ events) =
    let rest = tailing events in
    let sent = if bytes_eq text [] then [] else (text ++ codes "\n") ∷ [] in
    if has_error then (sent, true) else (sent ++ rest.0, rest.1)
