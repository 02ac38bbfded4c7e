-- ===== src/Sync/Tests.antt =====
-- sync.go on concrete inputs.
use mathlib.Core.List.Perm
use go_openbmclapi.Prelude.{
  not, take, length-take, ℕ, ◌<◌, ◌≡◌, refl, String, Bool, true, false, Option, none, some, List,
  [], ◌∷◌, arith, length, if◌then◌else◌, leb, ◌==◌, ◌^◌,
}
use go_openbmclapi.Prelude.Int.{pos}
use go_openbmclapi.Prelude.Eq.{string_eq}
use go_openbmclapi.Prelude.GoMap.{make, insert}
use go_openbmclapi.Sync.{FileInfo, Fileset, Storage, Report, fileset_is, set_fileset_by_exists}
use go_openbmclapi.Sync.Fileset.{
  Distinct, any_walk, fileset_of, existing, set_fileset_by_exists-existing,
}
use go_openbmclapi.Sync.Transfer.{Bytes, Attempt, Response, answered, Run, fetch_file}
use go_openbmclapi.Sync.Transfer.Retries.{Returns, fetch_file-Returns}
use go_openbmclapi.Sync.Collect.{
  SyncState, SyncError, sync_files, collect, all_broken, all_collected, is_broken, stored,
  create_failed,
}
use go_openbmclapi.Sync.Collect.Broken.{Once, is_named, collect-broken}
use go_openbmclapi.Sync.Collect.Recorded.{Outcome, sync_files-IsRecorded}
use go_openbmclapi.Sync.Gc.{Contents, gc_for}
use go_openbmclapi.Sync.Gc.Sweep.{left_over, gc_for-sweeps}
use go_openbmclapi.Sync.Download.{State, Job, create_all, finish_job}
use go_openbmclapi.Sync.Transfer.{fetch_file_with_buf}
use go_openbmclapi.Sync.Download.Success.{works, answer_of}
use go_openbmclapi.Sync.Download.Record.{IsFinished, finish_job-IsFinished}

abbrev small_hash : String
small_hash = "0123456789abcdef0123456789abcdef"

abbrev big_hash : String
big_hash = "fedcba9876543210fedcba9876543210"

abbrev small_file : FileInfo
small_file = record { path = "/a"; hash = small_hash; size = pos 3; mtime = pos 0 }

abbrev big_file : FileInfo
big_file = record { path = "/b"; hash = big_hash; size = pos 9; mtime = pos 0 }

abbrev two_files : List FileInfo
two_files = small_file ∷ big_file ∷ []

abbrev half_full : Storage
half_full = record {
  walk = some ((small_hash, pos 3) ∷ (big_hash, pos 8) ∷ []);
  content_hash = λ h. some h;
}

abbrev empty_storage : Storage
empty_storage = record { walk = some []; content_hash = λ h. none }

abbrev two_storages : List Storage
two_storages = half_full ∷ empty_storage ∷ []

abbrev as_sent : List Report → List Report
as_sent rs = rs

abbrev never_ended : FileInfo → Bool × Bool
never_ended f = (false, false)

two_files-Distinct : Distinct two_files
unfolding Distinct
two_files-Distinct = ((refl, tt), (tt, tt))

two_storages-walk : any_walk two_storages ≡ true
unfolding any_walk
two_storages-walk = refl

set_fileset_by_exists-existing_example :
    set_fileset_by_exists as_sent false never_ended two_files two_storages
    ≡ fileset_is (fileset_of (existing two_storages two_files) make)
set_fileset_by_exists-existing_example =
    set_fileset_by_exists-existing as_sent (λ rs. Perm.refl rs) never_ended (λ f. refl) two_files
      two_storages two_files-Distinct two_storages-walk

abbrev small_content : Bytes
small_content = 1 ∷ 2 ∷ 3 ∷ []

-- A hash function that knows one content.
abbrev digest : ℕ → Bytes → String
digest n content = if length content == 3 then small_hash else ""

abbrev response : ℕ → Response
response status = record {
  status = status;
  encoding = "";
  body = small_content;
  gunzip = none;
  inflate = none;
}

-- The server fails twice, and then answers.
abbrev status_at : ℕ → ℕ
status_at k = if leb k 2 then 500 else 200

abbrev attempt_at : ℕ → Attempt
attempt_at k = record {
  send = λ path query. answered (response (status_at k));
  temp_name = some "/tmp/1";
  copy = λ bytes. (bytes, true);
  stat_works = true;
}

abbrev goes_on : ℕ → Bool
goes_on k = false

abbrev third_answer : Run
third_answer = record {
  path_res = some "/tmp/1";
  ok_count = 1;
  fail_count = 0;
  waited = 3000000000;
  files = ("/tmp/1", small_content) ∷ [];
}

third_try : fetch_file digest attempt_at goes_on small_file false [] ≡ some third_answer
unfolding fetch_file
third_try = refl

fetch_file-Returns_example :
    Returns digest goes_on small_file [] (fetch_file digest attempt_at goes_on small_file false [])
fetch_file-Returns_example =
    fetch_file-Returns digest goes_on small_file [] attempt_at (λ k. tt) false

abbrev two_messages : List (List ℕ)
two_messages = (0 ∷ []) ∷ (0 ∷ 1 ∷ []) ∷ []

collect-broken_example :
    (bs : List ℕ) × Once bs
    × ((s : ℕ) → is_broken bs s ≡ is_named two_messages s)
    × (collect 2 [] (length two_messages) two_messages
        ≡ (if leb 2 (length bs) then all_broken else all_collected))
collect-broken_example = collect-broken 2 two_messages (omega arith)

abbrev same_order : List FileInfo → List FileInfo
same_order files = files

abbrev sync_works : List FileInfo → Option SyncError
sync_works files = none

abbrev idle : SyncState
idle = record { is_sync = false; fileset = make }

sync_files-IsRecorded_example :
    Outcome two_files idle (sync_works two_files) (sync_files same_order sync_works two_files idle)
sync_files-IsRecorded_example =
    sync_files-IsRecorded same_order sync_works two_files idle two_files-Distinct

abbrev small_only : Fileset
small_only = insert make small_hash (pos 3)

abbrev both_stored : Contents
both_stored = (small_hash, pos 3) ∷ (big_hash, pos 9) ∷ []

abbrev no_sync : String → Bool
no_sync hash = false

-- The storage cannot remove the big file.
abbrev removes : String → Bool
removes hash = not (string_eq.test hash big_hash)

gc_for-sweeps_example :
    gc_for make no_sync removes both_stored both_stored ≡ left_over make removes both_stored
gc_for-sweeps_example = gc_for-sweeps make no_sync removes both_stored (λ h. refl)

abbrev started : State
started = record {
  downloading = insert make small_hash 0;
  items = 1;
  answers = [];
  fileset = make;
  files = [];
}

-- A disk that has room for a hundred bytes.
abbrev small_disk : Bytes → Bytes × Bool
small_disk bytes = (take 100 bytes, leb (length bytes) 100)

abbrev job : Job
job = record {
  has_buffer = true;
  attempt = record (attempt_at 3) { copy = small_disk };
  opens = true;
  stats = true;
  create = create_failed ∷ stored ∷ [];
}

small_disk-small : (bytes : Bytes) → length (small_disk bytes).0 < 2 ^ 63
small_disk-small bytes = ground (arith, length-take 100 bytes)

finish_job-IsFinished_example :
    IsFinished digest small_hash started
      (works job (answer_of digest small_hash started job))
      0
      (finish_job digest job small_hash 0 started)
finish_job-IsFinished_example =
    finish_job-IsFinished digest small_hash job 0 started small_disk-small tt

all_works : works job (answer_of digest small_hash started job) ≡ true
unfolding fetch_file_with_buf create_all
all_works = refl
