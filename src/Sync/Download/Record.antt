-- ===== src/Sync/Download/Record.antt =====
-- What DownloadFile records.
use mathlib.Core.Path.{subst}
use Prim.Native.String.{len}
use go_openbmclapi.Prelude.{
  ℕ, ◌+◌, ◌-◌, ◌==◌, ◌<◌, ◌≡◌, ap, sym, refl, String, true, false, Bool, Option, none, some, ◌∷◌,
  arith, ◌⊎◌, inl, inr, if◌then◌else◌, length, Bool-cases, ◌^◌,
}
use go_openbmclapi.Prelude.Int.{pos, negsuc, sub_int64, wrap64, ◌-ℤ◌}
use go_openbmclapi.Prelude.Eq.{string_eq}
use go_openbmclapi.Prelude.GoMap.{lookup, insert, delete, lookup-insert, lookup-delete}
use go_openbmclapi.Sync.{Fileset, cached_file_size}
use go_openbmclapi.Sync.Transfer.{
  Bytes, Files, Fetch, fetched, failed, fetch_file_with_buf, remove_file,
}
use go_openbmclapi.Sync.Transfer.Verified.{
  remove_others, fetch_file_with_buf-IsClean, Fresh, IsNew, IsClean, IsContent,
}
use go_openbmclapi.Sync.Transfer.Sized.{WritesInt64, WritesSmall, fetch_file_with_buf-small}
use go_openbmclapi.Sync.Download.Success.{is_success, works, answer_of, run_job-works}
use go_openbmclapi.Sync.Download.{
  State, JobError, no_open, no_stat, no_seek, Job, create_all, content_of, wanted, store_download,
  on_fetched, run_job, finish_job,
}

negated :
    (n : ℕ) → n < 2 ^ 63 → sub_int64 (pos 0) (pos n) ≡ (if n == 0 then pos 0 else negsuc (n - 1))
unfolding sub_int64 ◌-ℤ◌ wrap64
negated n small = ground arith

negated_back : (n : ℕ) → n + 1 < 2 ^ 63 → sub_int64 (pos 0) (negsuc n) ≡ pos (n + 1)
unfolding sub_int64 ◌-ℤ◌ wrap64
negated_back n small = ground arith

-- A size that is recorded with a minus sign is read as it is.
cached_file_size-negated :
    (fileset : Fileset) (hash : String) (n : ℕ)
    → n < 2 ^ 63
    → cached_file_size (insert fileset hash (sub_int64 (pos 0) (pos n))) hash ≡ some (pos n)
unfolding cached_file_size
cached_file_size-negated fileset hash n small = ground (
  arith,
  negated n small,
  negated_back (n - 1),
  lookup-insert fileset hash hash (sub_int64 (pos 0) (pos n)),
  string_eq.agrees hash hash,
)

remove_own :
    (path : String) (content : Bytes) (files : Files)
    → IsNew files (some path)
    → remove_file path ((path, content) ∷ files) ≡ files
unfolding remove_file
remove_own path content files new =
    ground (arith, string_eq.agrees path path, remove_others path files new)

content_of-own :
    (path : String) (content : Bytes) (files : Files)
    → content_of path ((path, content) ∷ files) ≡ content
unfolding content_of
content_of-own path content files = ground (arith, string_eq.agrees path path)

-- Either one of the steps fails, or the file set gets the size.
store_download-cases :
    (j : Job) (hash path : String) (s : State)
    → ((e : JobError) × (store_download j hash path s
          ≡ (some e, record s { files = remove_file path s.files })))
      ⊎ (store_download j hash path s ≡ (
        none,
        record s {
          files = remove_file path s.files;
          fileset =
              insert s.fileset hash (sub_int64 (pos 0) (pos (length (content_of path s.files))));
        },
      ))
unfolding store_download
store_download-cases j hash path s = elim (Bool-cases j.opens) [
  | inr fails ↦ inl (no_open, ground (arith, fails))
  | inl opens ↦ elim (Bool-cases j.stats) [
    | inr fails ↦ inl (no_stat, ground (arith, opens, fails))
    | inl stats ↦ elim (Bool-cases (create_all j.create)) [
      | inr fails ↦ inl (no_seek, ground (arith, opens, stats, fails))
      | inl creates ↦ inr (ground (arith, opens, stats, creates))
    ]
  ]
]

gone : (hash : String) (s : State) → lookup (delete s.downloading hash) hash ≡ none
gone hash s = ground (arith, lookup-delete s.downloading hash hash, string_eq.agrees hash hash)

module _ (digest : ℕ → Bytes → String) (hash : String) where
  module _ (s : State) where
    -- Some content has the hash, and its size is what the file set lists for it.
    unfoldable pub IsListed : State → Type 0
    IsListed t =
        (content : Bytes) × (digest (len hash) content ≡ hash)
        × (cached_file_size t.fileset hash ≡ some (pos (length content)))

    unfoldable pub Outcome : Option JobError × State → Type 0
    Outcome (answer, t) =
        (t.files ≡ s.files)
        × (t.answers ≡ s.answers)
        × (elim answer [ some e ↦ t.fileset ≡ s.fileset | none ↦ IsListed t ])

    store_download-Outcome :
        (j : Job) (path : String) (content : Bytes)
        → IsContent digest (wanted hash) content
        → length content < 2 ^ 63
        → IsNew s.files (some path)
        → Outcome (store_download j hash path (record s { files = (path, content) ∷ s.files }))
    unfolding Outcome
    store_download-Outcome j path content ok small new =
        elim (store_download-cases j hash path (record s { files = (path, content) ∷ s.files })) [
          | inl (e, fails) ↦
              subst Outcome (sym fails) (remove_own path content s.files new, refl, refl)
          | inr works ↦ subst Outcome (sym works) (
            remove_own path content s.files new,
            refl,
            unfold IsListed in
                (
                  content,
                  ok.0,
                  rw (content_of-own path content s.files)
                      (cached_file_size-negated s.fileset hash (length content) small),
                ),
          )
        ]

    on_fetched-Outcome :
        (j : Job) (t : Fetch × Files)
        → IsClean digest (wanted hash) s.files t
        → WritesSmall s.files t
        → Outcome (on_fetched digest j hash s t)
    unfolding on_fetched IsClean WritesSmall
    on_fetched-Outcome j (failed e, files) same fits = unfold Outcome in (same, refl, refl)
    on_fetched-Outcome j (fetched path, files) (content, e, ok, new) fits =
        rw e (store_download-Outcome j path content ok (fits content e) new)

    run_job-Outcome :
        (j : Job)
        → WritesInt64 j.attempt
        → Fresh j.attempt s.files
        → Outcome (run_job digest j hash s)
    unfolding run_job
    run_job-Outcome j small fresh = elim (Bool-cases j.has_buffer) [
      | inr fails ↦ rw fails (unfold Outcome in (refl, refl, refl))
      | inl has ↦ rw has (
          on_fetched-Outcome j
            (fetch_file_with_buf digest (wanted hash) true true j.attempt s.files)
            (fetch_file_with_buf-IsClean digest (wanted hash) true true j.attempt s.files fresh)
            (fetch_file_with_buf-small digest (wanted hash) true true j.attempt s.files small))
    ]

    -- The goroutine's answer stands, success exactly if every step works, and the file set is as it says.
    unfoldable pub Answered : Bool → ℕ → State → Type 0
    Answered all_work item t =
        ((e : JobError) × (all_work ≡ false)
          × (t.answers ≡ ((item, some e) ∷ s.answers))
          × (t.fileset ≡ s.fileset))
        ⊎ ((all_work ≡ true) × (t.answers ≡ ((item, none) ∷ s.answers)) × IsListed t)

    unfoldable pub IsFinished : Bool → ℕ → State → Type 0
    unfolding Answered
    IsFinished all_work item t =
        (t.files ≡ s.files) × (lookup t.downloading hash ≡ none) × Answered all_work item t

    finish :
        (all_work : Bool) (item : ℕ) (r : Option JobError × State)
        → Outcome r
        → is_success r.0 ≡ all_work
        → IsFinished all_work item (record r.1 {
          answers = (item, r.0) ∷ r.1.answers;
          downloading = delete r.1.downloading hash;
        })
    unfolding Outcome IsFinished IsListed
    finish all_work item (some e, t) (files, answers, same) fails =
        (files, gone hash t, inl (e, sym fails, ap (λ l. (item, some e) ∷ l) answers, same))
    finish all_work item (none, t) (files, answers, listed) good =
        (files, gone hash t, inr (sym good, ap (λ l. (item, none) ∷ l) answers, listed))

  -- The goroutine of DownloadFile, where os.CreateTemp gives a fresh name and io.CopyBuffer, which counts
  -- in an int64, writes fewer than 2^63 bytes, leaves no temporary file and takes the hash off the running
  -- downloads. If it has no buffer, or fetchFileWithBuf, os.Open, Stat or a Seek fails, it answers an
  -- error and leaves the file set as it was. Else it answers success, some content has the wanted hash,
  -- and the size that the file set then gives for the hash, through CachedFileSize, is that content's.
  pub finish_job-IsFinished :
      (j : Job) (item : ℕ) (s : State)
      → WritesInt64 j.attempt
      → Fresh j.attempt s.files
      → IsFinished s (works j (answer_of digest hash s j)) item (finish_job digest j hash item s)
  unfolding finish_job
  finish_job-IsFinished j item s small fresh =
      finish s (works j (answer_of digest hash s j)) item (run_job digest j hash s)
        (run_job-Outcome s j small fresh) (run_job-works digest hash s j)
