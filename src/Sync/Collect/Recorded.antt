-- ===== src/Sync/Collect/Recorded.antt =====
-- The file set after SyncFiles.
use go_openbmclapi.Prelude.{
  ◌≡◌, refl, String, Bool, true, false, ◌||◌, Option, some, List, [], ◌∷◌, arith, All, ◌⊎◌, inl,
  inr, Option-cases, Bool-cases, none,
}
use go_openbmclapi.Prelude.Eq.{string_eq}
use go_openbmclapi.Prelude.GoMap.{lookup, insert, lookup-insert}
use go_openbmclapi.Sync.{FileInfo, Fileset}
use go_openbmclapi.Sync.Missing.{Others}
use go_openbmclapi.Sync.Fileset.{Distinct}
use go_openbmclapi.Sync.Collect.{SyncError, SyncState, record_files, sync_files}

record_files-Others :
    (f : FileInfo) (fs : List FileInfo) (fileset : Fileset)
    → Others f fs
    → lookup (record_files fs fileset) f.hash ≡ lookup fileset f.hash
unfolding record_files
record_files-Others f [] fileset o = refl
record_files-Others f (g ∷ fs) fileset o = ground (
  arith,
  o.0,
  record_files-Others f fs (insert fileset g.hash g.size) o.1,
  lookup-insert fileset g.hash f.hash g.size,
)

abbrev pub IsRecorded : Fileset → FileInfo → Type 0
IsRecorded fileset f = lookup fileset f.hash ≡ some f.size

record_files-IsRecorded :
    (fs : List FileInfo) (fileset : Fileset)
    → Distinct fs
    → All (IsRecorded (record_files fs fileset)) fs
unfolding record_files Distinct
record_files-IsRecorded [] fileset d = tt
record_files-IsRecorded (f ∷ fs) fileset d = (
  ground (
    arith,
    record_files-Others f fs (insert fileset f.hash f.size) d.0,
    lookup-insert fileset f.hash f.hash f.size,
    string_eq.agrees f.hash f.hash,
  ),
  record_files-IsRecorded fs (insert fileset f.hash f.size) d.1,
)

pub is_hash : String → List FileInfo → Bool
is_hash h [] = false
is_hash h (f ∷ fs) = string_eq.test f.hash h || is_hash h fs

-- A file set lists nothing that another one does not list, but the given files.
abbrev pub AddsOnly : List FileInfo → Fileset → Fileset → Type 0
AddsOnly fs before after = (h : String) → is_hash h fs ≡ false → lookup after h ≡ lookup before h

record_files-AddsOnly :
    (fs : List FileInfo) (fileset : Fileset) → AddsOnly fs fileset (record_files fs fileset)
unfolding record_files is_hash
record_files-AddsOnly [] fileset h out = refl
record_files-AddsOnly (f ∷ fs) fileset h out = ground (
  arith,
  out,
  record_files-AddsOnly fs (insert fileset f.hash f.size) h,
  lookup-insert fileset f.hash h f.size,
)

-- What SyncFiles does in a state, by the answer of syncFiles for the sorted files: where a sync runs it
-- answers false and changes nothing; where syncFiles fails it answers false, no sync runs afterwards, and
-- the file set stays; where syncFiles works it answers true, no sync runs afterwards, the file set lists
-- each of the files with its size, and every other hash as before.
abbrev pub Outcome : List FileInfo → SyncState → Option SyncError → Bool × SyncState → Type 0
Outcome sorted s answer r =
    ((s.is_sync ≡ true) × (r ≡ (false, s)))
    ⊎ (((s.is_sync ≡ false)
          × ((e : SyncError) × (answer ≡ some e))
          × (r.0 ≡ false)
          × (r.1.is_sync ≡ false)
          × (r.1.fileset ≡ s.fileset))
        ⊎ ((s.is_sync ≡ false)
            × (answer ≡ none)
            × (r.0 ≡ true)
            × (r.1.is_sync ≡ false)
            × All (IsRecorded r.1.fileset) sorted
            × AddsOnly sorted s.fileset r.1.fileset))

-- SyncFiles, over sorted files of which each has a hash of its own: where a sync runs it answers false and
-- changes nothing. Else no sync runs afterwards; if syncFiles fails for the sorted files, it answers false
-- and the file set stays; and if syncFiles works, it answers true, the file set lists each of the files
-- with its size, and every other hash as before.
pub sync_files-IsRecorded :
    (sort : List FileInfo → List FileInfo) (sync : List FileInfo → Option SyncError)
    (files : List FileInfo) (s : SyncState)
    → Distinct (sort files)
    → Outcome (sort files) s (sync (sort files)) (sync_files sort sync files s)
unfolding sync_files
sync_files-IsRecorded sort sync files s d = elim (Bool-cases s.is_sync) [
  | inl busy ↦ inl (busy, rw busy refl)
  | inr free ↦ elim (Option-cases (sync (sort files))) [
    | inl good ↦ inr (
        inr (
          free,
          good,
          (rw (free, good) refl),
          (rw (free, good) refl),
          (rw (free, good) (record_files-IsRecorded (sort files) s.fileset d)),
          (rw (free, good) (record_files-AddsOnly (sort files) s.fileset)),
        ))
    | inr (e, bad) ↦
        inr (
          inl (free, (e, bad), (rw (free, bad) refl), (rw (free, bad) refl), (rw (free, bad) refl)))
  ]
]
