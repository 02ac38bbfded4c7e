-- ===== src/Sync/Download/Success.antt =====
-- When the goroutine of DownloadFile answers success.
use go_openbmclapi.Prelude.{
  ℕ, ◌≡◌, String, Bool, true, false, ◌&&◌, Option, none, some, arith, Bool-cases, inl, inr,
}
use go_openbmclapi.Sync.Transfer.{Bytes, Files, Fetch, fetched, failed, fetch_file_with_buf}
use go_openbmclapi.Sync.Download.{
  State, JobError, Job, create_all, wanted, store_download, on_fetched, run_job,
}

abbrev pub is_fetched : Fetch → Bool
is_fetched (fetched path) = true
is_fetched (failed e) = false

abbrev pub is_success : Option JobError → Bool
is_success none = true
is_success (some e) = false

-- Whether every step of a job works: the buffer, the download, and from os.Open to the last Seek.
abbrev pub works : Job → Fetch → Bool
works j answer =
    j.has_buffer && (is_fetched answer && (j.opens && (j.stats && create_all j.create)))

module _ (digest : ℕ → Bytes → String) (hash : String) (s : State) where
  store_download-works :
      (j : Job) (path : String) (t : State)
      → is_success (store_download j hash path t).0 ≡ (j.opens && (j.stats && create_all j.create))
  unfolding store_download
  store_download-works j path t = ground arith

  on_fetched-works :
      (j : Job) (t : Fetch × Files)
      → j.has_buffer ≡ true
      → is_success (on_fetched digest j hash s t).0 ≡ works j t.0
  unfolding on_fetched
  on_fetched-works j (failed e, files) has = ground (arith, has)
  on_fetched-works j (fetched path, files) has =
      ground (arith, has, store_download-works j path (record s { files = files }))

  -- What the download of a job answers.
  abbrev pub answer_of : Job → Fetch
  answer_of j = (fetch_file_with_buf digest (wanted hash) true true j.attempt s.files).0

  pub run_job-works : (j : Job) → is_success (run_job digest j hash s).0 ≡ works j (answer_of j)
  unfolding run_job
  run_job-works j = elim (Bool-cases j.has_buffer) [
    | inr fails ↦ ground (arith, fails)
    | inl has ↦ ground (
      arith,
      has,
      on_fetched-works j (fetch_file_with_buf digest (wanted hash) true true j.attempt s.files) has,
    )
  ]
