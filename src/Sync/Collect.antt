-- ===== src/Sync/Collect.antt =====
-- sync.go: SyncFiles, from the check of the storages to the file set, with the goroutines that store the
-- missing files and the loop that collects their messages.
pub mod Broken
pub mod Recorded
use go_openbmclapi.Prelude.{
  ℕ, zero, suc, ◌+◌, String, Bool, true, false, ◌&&◌, not, Option, none, some, List, [], ◌∷◌, ltb,
  leb, ◌==◌, if◌then◌else◌, length, map,
}
use go_openbmclapi.Prelude.Eq.{string_eq}
use go_openbmclapi.Prelude.GoMap.{GoMap, values, insert}
use go_openbmclapi.Sync.{
  FileInfo, Fileset, Storage, Targets, MissingMap, Report, CheckError, check_files, Found, found,
  failed,
}

-- What happens at one target: its Create succeeds or fails, or the file cannot be read from its start.
pub data Created : Type 0 where
  stored create_failed seek_failed : Created

-- What a goroutine meets: the path from fetchFile, "" for none, and whether it gets a slot and opens
-- the path.
pub record Work : Type 0 where
  pub path : String
  pub has_slot : Bool
  pub opens : Bool
  pub create : ℕ → Created

-- The loop over the targets: those that failed.
unfoldable pub store_all : (ℕ → Created) → List ℕ → List ℕ
store_all create [] = []
store_all create (target ∷ targets) =
    let rest = store_all create targets in
    elim (create target) [ stored ↦ rest | create_failed ↦ target ∷ rest | seek_failed ↦ rest ]

-- What the goroutine of a file sends on `done`; none where it returns without a message.
unfoldable pub message : Work → Targets → Option (List ℕ)
unfolding store_all
message w t =
    if string_eq.test w.path ""
    then some []
    else if not w.has_slot
    then none
    else if not w.opens
    then none
    else some (store_all w.create t.targets)

unfoldable pub messages : (String → Work) → List Targets → List (List ℕ)
unfolding message
messages work [] = []
messages work (t ∷ ts) =
    let rest = messages work ts in
    elim (message (work t.info.hash) t) [ none ↦ rest | some failures ↦ failures ∷ rest ]

-- !broken[s]
unfoldable pub is_broken : List ℕ → ℕ → Bool
is_broken [] s = false
is_broken (t ∷ ts) s = let rest = is_broken ts s in if t == s then true else rest

-- The loop over one message; none where the last storage has broken.
unfoldable pub note_failures : ℕ → List ℕ → List ℕ → Option (List ℕ)
unfolding is_broken
note_failures st_len broken [] = some broken
note_failures st_len broken (s ∷ failures) =
    let old = note_failures st_len broken failures in
    let new = note_failures st_len (s ∷ broken) failures in
    if is_broken broken s then old else if leb st_len (length (s ∷ broken)) then none else new

pub data Collected : Type 0 where
  -- every message has come
  all_collected : Collected
  all_broken : Collected
  -- a message does not come: only the end of the context ends the wait
  waits : Collected

-- The loop over `done`, for `missing` messages.
unfoldable pub collect : ℕ → List ℕ → ℕ → List (List ℕ) → Collected
unfolding note_failures
collect st_len broken zero msgs = all_collected
collect st_len broken (suc missing) [] = waits
collect st_len broken (suc missing) (failures ∷ msgs) =
    elim (note_failures st_len broken failures) [
      | none ↦ all_broken
      | some broken_now ↦ collect st_len broken_now missing msgs
    ]

-- What syncFiles meets: GetConfig, the CheckUpload of each storage, the context during these checks,
-- the minute's wait and the start of the fetches, and the order in which the messages come.
pub record Surroundings : Type 0 where
  pub config_loads : Bool
  pub uploads : List Bool
  pub ends_checking : Bool
  pub ends_waiting : Bool
  pub ends_fetching : Bool
  pub work : String → Work
  pub arrival : List (List ℕ) → List (List ℕ)

pub data SyncError : Type 0 where
  check_error : CheckError → SyncError
  no_config sync_interrupted storages_broken : SyncError

unfoldable pub alive_storages : List Bool → ℕ
alive_storages [] = 0
alive_storages (works ∷ rest) = (if works then 1 else 0) + alive_storages rest

unfoldable pub on_collected : Collected → Option SyncError
on_collected all_collected = none
on_collected all_broken = some storages_broken
on_collected waits = some sync_interrupted

-- From the list of missing files on.
unfoldable pub store_missing : Surroundings → ℕ → List Targets → Option SyncError
unfolding alive_storages messages collect on_collected
store_missing w st_len [] = none
store_missing w st_len (t ∷ ts) =
    let alive = alive_storages w.uploads in
    if not w.config_loads
    then some no_config
    else if w.ends_checking && ltb alive st_len
    then some sync_interrupted
    else if alive == 0
    then some storages_broken
    else if ltb alive st_len && w.ends_waiting
    then some sync_interrupted
    else if w.ends_fetching
    then some sync_interrupted
    else on_collected (collect st_len [] (length (t ∷ ts)) (w.arrival (messages w.work (t ∷ ts))))

-- syncFiles
unfoldable pub sync_all :
    (List Report → List Report)
    → Bool
    → (FileInfo → Bool × Bool)
    → Surroundings
    → Bool
    → List FileInfo
    → List Storage
    → Option SyncError
unfolding store_missing
sync_all schedule done ended w heavy files stos =
    elim (check_files schedule done heavy ended files stos) [
      | failed e ↦ some (check_error e)
      | found m ↦ store_missing w (length stos) (values m)
    ]

pub record SyncState : Type 0 where
  pub is_sync : Bool
  pub fileset : Fileset

unfoldable pub record_files : List FileInfo → Fileset → Fileset
record_files [] fileset = fileset
record_files (f ∷ files) fileset = record_files files (insert fileset f.hash f.size)

-- SyncFiles, with the answer of syncFiles for the sorted files.
unfoldable pub sync_files :
    (List FileInfo → List FileInfo)
    → (List FileInfo → Option SyncError)
    → List FileInfo
    → SyncState
    → Bool × SyncState
unfolding record_files
sync_files sort sync files s = if s.is_sync then (false, s) else (elim (sync (sort files)) [
  | some e ↦ (false, record s { is_sync = false })
  | none ↦ (true, record { is_sync = false; fileset = record_files (sort files) s.fileset })
])
