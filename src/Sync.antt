-- ===== src/Sync.antt =====
-- sync.go: the set of files that a cluster serves, the check of its storages, and what is missing.
-- A storage is known here by its place among the cluster's storages, and by what it answers.
pub mod Missing
pub mod Fileset
pub mod Transfer
pub mod Collect
pub mod Gc
pub mod Download
pub mod Tests
use Prim.Native.String.{len}
use go_openbmclapi.Prelude.{
  ℕ, zero, suc, ◌+◌, String, Bool, true, false, ◌&&◌, ◌||◌, not, Option, none, some, List, [], ◌∷◌,
  ◌++◌, ltb, ◌==◌, if◌then◌else◌, length, map,
}
use go_openbmclapi.Prelude.Int.{ℤ, pos, eqb_ℤ, ltb_ℤ, sub_int64}
use go_openbmclapi.Prelude.Eq.{string_eq}
use go_openbmclapi.Prelude.GoMap.{GoMap, make, lookup, insert}
use go_openbmclapi.Util.{has_hash_method}

pub record FileInfo : Type 0 where
  pub path : String
  pub hash : String
  pub size : ℤ
  pub mtime : ℤ

abbrev pub Fileset : Type 0
Fileset = GoMap String ℤ

-- CachedFileSize: a negative size marks a file that no check has seen yet.
unfoldable pub cached_file_size : Fileset → String → Option ℤ
cached_file_size fileset hash = elim (lookup fileset hash) [
  | none ↦ none
  | some size ↦ some (if ltb_ℤ size (pos 0) then sub_int64 (pos 0) size else size)
]

-- What a storage answers to a check: the hashes and sizes that WalkDir visits, or its error; and the
-- hash of the content of a file, none where it cannot be opened or read.
pub record Storage : Type 0 where
  pub walk : Option (List (String × ℤ))
  pub content_hash : String → Option String

-- sizeMap[hash] = size for each file of the walk.
unfoldable pub size_map : List (String × ℤ) → GoMap String ℤ → GoMap String ℤ
size_map [] sizes = sizes
size_map ((hash, size) ∷ rest) sizes = size_map rest (insert sizes hash size)

-- An entry of the map of missing files: the storages that lack the file.
pub record Targets : Type 0 where
  pub info : FileInfo
  pub targets : List ℕ

abbrev pub MissingMap : Type 0
MissingMap = GoMap String Targets

-- addMissing of the storage `sto`.
unfoldable pub add_missing : ℕ → FileInfo → MissingMap → MissingMap
add_missing sto f missing = elim (lookup missing f.hash) [
  | none ↦ insert missing f.hash (record { info = f; targets = sto ∷ [] })
  | some t ↦ insert missing f.hash (record t { targets = t.targets ++ sto ∷ [] })
]

-- What a check of a file finds: it is there, it is missing, or its content is being hashed, which
-- will tell whether it is missing.
pub data Verdict : Type 0 where
  present missing : Verdict
  hashing : Bool → Verdict

abbrev pub same_hash : Option String → String → Bool
same_hash none hash = false
same_hash (some hs) hash = string_eq.test hs hash

unfoldable pub check_one : Bool → Storage → GoMap String ℤ → FileInfo → Verdict
check_one heavy sto sizes f =
    if eqb_ℤ f.size (pos 0) then present else (elim (lookup sizes f.hash) [
      | none ↦ missing
      | some size ↦
          if not (eqb_ℤ size f.size)
          then missing
          else if heavy && has_hash_method (len f.hash)
          then hashing (not (same_hash (sto.content_hash f.hash) f.hash))
          else present
    ])

-- What the loop of checkFileFor gives: whether the context has ended it, the files that it has
-- reported by then, and those that its goroutines report when they have hashed them.
pub record Checked : Type 0 where
  pub interrupted : Bool
  pub now : List FileInfo
  pub later : List FileInfo

abbrev pub stopped_here : Checked
stopped_here = record { interrupted = true; now = []; later = [] }

-- `ended` says of each file whether the context is done at it, and at the wait for a buffer.
unfoldable pub check_loop :
    Bool → Storage → GoMap String ℤ → (FileInfo → Bool × Bool) → List FileInfo → Checked
unfolding check_one
check_loop heavy sto sizes ended [] = record { interrupted = false; now = []; later = [] }
check_loop heavy sto sizes ended (f ∷ files) =
    let rest = check_loop heavy sto sizes ended files in
    if (ended f).0 then stopped_here else (elim (check_one heavy sto sizes f) [
      | present ↦ rest
      | missing ↦ record rest { now = f ∷ rest.now }
      | hashing miss ↦
          if (ended f).1
          then stopped_here
          else if miss
          then record rest { later = f ∷ rest.later }
          else rest
    ])

-- checkFileFor; none is the error of WalkDir.
unfoldable pub check_file_for :
    Bool → (FileInfo → Bool × Bool) → List FileInfo → Storage → Option Checked
unfolding check_loop size_map
check_file_for heavy ended files sto = elim sto.walk [
  | none ↦ none
  | some walk ↦ some (check_loop heavy sto (size_map walk make) ended files)
]

-- The reports of the goroutines of CheckFiles, storage by storage; `i` is the place of the first.
abbrev pub Report : Type 0
Report = ℕ × FileInfo

abbrev pub report_of : ℕ → Option Checked → List Report
report_of i none = []
report_of i (some c) = map (λ (f : FileInfo). (i, f)) c.now

abbrev pub is_good : Option Checked → Bool
is_good none = false
is_good (some c) = not c.interrupted

unfoldable pub reports :
    Bool → (FileInfo → Bool × Bool) → List FileInfo → ℕ → List Storage → List Report
unfolding check_file_for
reports heavy ended files i [] = []
reports heavy ended files i (sto ∷ stos) =
    report_of i (check_file_for heavy ended files sto) ++ reports heavy ended files (i + 1) stos

unfoldable pub some_good : Bool → (FileInfo → Bool × Bool) → List FileInfo → List Storage → Bool
unfolding check_file_for
some_good heavy ended files [] = false
some_good heavy ended files (sto ∷ stos) =
    is_good (check_file_for heavy ended files sto) || some_good heavy ended files stos

unfoldable pub add_reports : List Report → MissingMap → MissingMap
unfolding add_missing
add_reports [] m = m
add_reports ((sto, f) ∷ rest) m = add_reports rest (add_missing sto f m)

pub data CheckError : Type 0 where
  interrupted all_failed : CheckError

pub data Found : Type 0 where
  found : MissingMap → Found
  failed : CheckError → Found

-- CheckFiles: the reports of the storages' goroutines come in the order `schedule`. `done` says
-- whether the context has ended by the time the last answer is read. The map is read before the
-- goroutines of a heavy check have all reported.
unfoldable pub check_files :
    (List Report → List Report)
    → Bool
    → Bool
    → (FileInfo → Bool × Bool)
    → List FileInfo
    → List Storage
    → Found
unfolding reports some_good add_reports
check_files schedule done heavy ended files stos =
    if done
    then failed interrupted
    else if some_good heavy ended files stos
    then found (add_reports (schedule (reports heavy ended files 0 stos)) make)
    else failed all_failed

-- The loop of SetFilesetByExists: a file stays that some storage does not lack.
unfoldable pub keep_existing : MissingMap → ℕ → List FileInfo → Fileset → Fileset
keep_existing m sto_count [] fileset = fileset
keep_existing m sto_count (f ∷ files) fileset =
    keep_existing m sto_count files (elim (lookup m f.hash) [
      | none ↦ insert fileset f.hash f.size
      | some t ↦ if ltb (length t.targets) sto_count then insert fileset f.hash f.size else fileset
    ])

pub data FilesetResult : Type 0 where
  fileset_is : Fileset → FilesetResult
  fileset_failed : CheckError → FilesetResult

unfoldable pub set_fileset_by_exists :
    (List Report → List Report)
    → Bool
    → (FileInfo → Bool × Bool)
    → List FileInfo
    → List Storage
    → FilesetResult
unfolding check_files keep_existing
set_fileset_by_exists schedule done ended files stos =
    elim (check_files schedule done false ended files stos) [
      | failed e ↦ fileset_failed e
      | found m ↦ fileset_is (keep_existing m (length stos) files make)
    ]
