-- ===== src/Sync/Download.antt =====
-- sync.go: the download of a file that a request asks for.
pub mod Success
pub mod Record
use Prim.Native.String.{len, ◌++◌}
use go_openbmclapi.Prelude.{
  ℕ, zero, suc, ◌+◌, String, Bool, true, false, not, Option, none, some, List, [], ◌∷◌,
  if◌then◌else◌, length,
}
use go_openbmclapi.Prelude.Int.{ℤ, pos, negsuc, sub_int64}
use go_openbmclapi.Prelude.Eq.{string_eq}
use go_openbmclapi.Prelude.GoMap.{GoMap, lookup, insert, delete}
use go_openbmclapi.Util.{has_hash_method}
use go_openbmclapi.Sync.{FileInfo, Fileset}
use go_openbmclapi.Sync.Transfer.{
  Bytes, Files, Attempt, remove_file, FetchError, Fetch, fetched, failed, fetch_file_with_buf,
}
use go_openbmclapi.Sync.Collect.{Created, stored, create_failed, seek_failed}

pub data JobError : Type 0 where
  no_buffer no_open no_stat no_seek : JobError
  not_fetched : FetchError → JobError

-- The part of a cluster that DownloadFile works on: the items of the running downloads by hash, each
-- under its own number, the answers of the finished ones, the file set, and the temporary files.
pub record State : Type 0 where
  pub downloading : GoMap String ℕ
  pub items : ℕ
  pub answers : List (ℕ × Option JobError)
  pub fileset : Fileset
  pub files : Files

-- lockDownloading: the item, and whether it was there.
unfoldable pub lock_downloading : String → State → (ℕ × Bool) × State
lock_downloading target s = elim (lookup s.downloading target) [
  | some item ↦ ((item, true), s)
  | none ↦ (
    (s.items, false),
    record s { downloading = insert s.downloading target s.items; items = s.items + 1 },
  )
]

-- What the goroutine meets: allocBuf, the centre server and the disk, os.Open and Stat of the downloaded
-- file, and each storage.
pub record Job : Type 0 where
  pub has_buffer : Bool
  pub attempt : Attempt
  pub opens : Bool
  pub stats : Bool
  pub create : List Created

-- The loop over the storages: false where the file cannot be read again from its start.
unfoldable pub create_all : List Created → Bool
create_all [] = true
create_all (c ∷ cs) =
    let rest = create_all cs in
    elim c [ stored ↦ rest | create_failed ↦ rest | seek_failed ↦ false ]

unfoldable pub content_of : String → Files → Bytes
content_of path [] = []
content_of path ((p, content) ∷ files) =
    let rest = content_of path files in if string_eq.test p path then content else rest

abbrev pub wanted : String → FileInfo
wanted hash = record {
  path = "/openbmclapi/download/" ++ hash;
  hash = hash;
  size = negsuc 0;
  mtime = pos 0;
}

-- From os.Open on; the downloaded file is removed in the end.
unfoldable pub store_download : Job → String → String → State → Option JobError × State
unfolding create_all content_of
store_download j hash path s =
    let left = remove_file path s.files in
    if not j.opens
    then (some no_open, record s { files = left })
    else if not j.stats
    then (some no_stat, record s { files = left })
    else if not (create_all j.create)
    then (some no_seek, record s { files = left })
    else (
      none,
      record s {
        files = left;
        fileset =
            insert s.fileset hash (sub_int64 (pos 0) (pos (length (content_of path s.files))));
      },
    )

module _ (digest : ℕ → Bytes → String) where
  unfoldable pub on_fetched : Job → String → State → Fetch × Files → Option JobError × State
  unfolding store_download
  on_fetched j hash s (fetched path, files) =
      store_download j hash path (record s { files = files })
  on_fetched j hash s (failed e, files) = (some (not_fetched e), record s { files = files })

  unfoldable pub run_job : Job → String → State → Option JobError × State
  unfolding on_fetched
  run_job j hash s =
      if j.has_buffer
      then on_fetched j hash s
          (fetch_file_with_buf digest (wanted hash) true true j.attempt s.files)
      else (some no_buffer, s)

  -- The goroutine of DownloadFile for the item: it gives its answer, and is no longer listed.
  unfoldable pub finish_job : Job → String → ℕ → State → State
  unfolding run_job
  finish_job j hash item s =
      let (answer, after) = run_job j hash s in
      record after {
        answers = (item, answer) ∷ after.answers;
        downloading = delete after.downloading hash;
      }

  -- What DownloadFile starts: none where the hash has no method; else the item to wait for, and whether
  -- this call runs the goroutine.
  unfoldable pub download_file : String → State → Option ((ℕ × Bool) × State)
  unfolding lock_downloading
  download_file hash s = if has_hash_method (len hash) then some (lock_downloading hash s) else none
