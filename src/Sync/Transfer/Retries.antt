-- ===== src/Sync/Transfer/Retries.antt =====
-- The retries of fetchFile: the loop ends, and leaves nothing behind but the file that it sends.
use go_openbmclapi.Prelude.{
  ℕ, suc, ◌+◌, ◌*◌, ◌≡◌, ◌≤◌, refl, ◌⊎◌, inl, inr, String, Bool, true, false, Option, none, some,
  ◌∷◌, arith, ltb, Bool-cases, if◌then◌else◌, ◌||◌,
}
use go_openbmclapi.Sync.{FileInfo}
use go_openbmclapi.Sync.Transfer.{
  Bytes, Files, Attempt, Fetch, fetched, failed, try_fetch, Run, fetch_loop, fetch_file, second,
  max_retry_count, max_try_with_open,
}
use go_openbmclapi.Sync.Transfer.Verified.{Fresh, IsContent, IsClean, try_fetch-IsClean}

module _ (digest : ℕ → Bytes → String) (quits : ℕ → Bool) (f : FileInfo) (files : Files) where
  -- Either the run sends the path of the one new file, with the listed content, and counts a success;
  -- or it sends nothing and leaves the files as they were, and then it counts a failure or the context
  -- has ended one of its waits.
  unfoldable pub IsSettled : Run → Type 0
  IsSettled r = elim r.path_res [
    | none ↦
        (r.files ≡ files) × (r.ok_count ≡ 0) × ((r.fail_count ≡ 1) ⊎ ((k : ℕ) × (quits k ≡ true)))
    | some path ↦
        (r.ok_count ≡ 1)
        × (r.fail_count ≡ 0)
        × ((content : Bytes) × (r.files ≡ ((path, content) ∷ files)) × IsContent digest f content)
  ]

  -- The loop has returned, after waits of at most 15 seconds.
  unfoldable pub Returns : Option Run → Type 0
  unfolding IsSettled
  Returns none = ⊥
  Returns (some r) = (r.waited ≤ 15 * second) × IsSettled r

  abbrev branches : Fetch × Files → Bool → Bool → ℕ → (Files → Option Run) → Option Run
  branches (answer, left) last quit waited again = elim answer [
    | fetched path ↦ some (record {
      path_res = some path;
      ok_count = 1;
      fail_count = 0;
      waited = waited;
      files = left;
    })
    | failed e ↦
        if last
        then some (record {
          path_res = none;
          ok_count = 0;
          fail_count = 1;
          waited = waited;
          files = left;
        })
        else if quit
        then some (record {
          path_res = none;
          ok_count = 0;
          fail_count = 0;
          waited = waited;
          files = left;
        })
        else again left
  ]

  branches-Returns :
      (t : Fetch × Files) (last : Bool) (k waited : ℕ) (again : Files → Option Run)
      → IsClean digest f files t
      → waited ≤ 15 * second
      → (last ≡ false → Returns (again files))
      → Returns (branches t last (quits k) waited again)
  unfolding IsClean Returns IsSettled
  branches-Returns (fetched path, left) last k waited again (content, e, ok, new) le rest =
      (le, (refl, refl, (content, e, ok)))
  branches-Returns (failed e, left) true k waited again same le rest = (le, (same, refl, inl refl))
  branches-Returns (failed e, left) false k waited again same le rest =
      elim (Bool-cases (quits k)) [
        | inl quit ↦ rw quit (le, (same, refl, inr (k, quit)))
        | inr stays ↦ rw stays (rw same (rest refl))
      ]

  module _ (attempt : ℕ → Attempt) (fresh : (k : ℕ) → Fresh (attempt k) files)
      (no_open : Bool) where
    loop-Returns :
        (fuel tried interval waited : ℕ) (bad_open : Bool)
        → waited ≤ 15 * second
        → (ltb max_retry_count (tried + 1) ≡ false
            → Returns (
                fetch_loop digest attempt quits f no_open fuel
                  (tried + 1)
                  (interval * 2)
                  (ltb max_try_with_open (tried + 1) || bad_open)
                  (waited + interval)
                  files))
        → Returns (
            fetch_loop digest attempt quits f no_open
              (suc fuel)
              tried
              interval
              bad_open
              waited
              files)
    unfolding fetch_loop
    loop-Returns fuel tried interval waited bad_open le rest =
        branches-Returns (try_fetch digest f no_open bad_open (attempt tried) files)
          (ltb max_retry_count (tried + 1)) tried waited
          (fetch_loop digest attempt quits f no_open fuel (tried + 1) (interval * 2)
            (ltb max_try_with_open (tried + 1) || bad_open) (waited + interval))
          (try_fetch-IsClean digest f no_open bad_open (attempt tried) files (fresh tried)) le rest

    -- The goroutine of fetchFile, where os.CreateTemp gives fresh names, returns whatever the server
    -- answers. Its waits take at most 15 seconds together. It sends the path of the one new temporary
    -- file, whose content has the listed hash and, unless the listed size is negative, the listed size,
    -- and counts a success; or it sends none, leaves the temporary files as they were, and counts a
    -- failure unless the context has ended a wait.
    pub fetch_file-Returns : Returns (fetch_file digest attempt quits f no_open files)
    unfolding fetch_file
    fetch_file-Returns = loop-Returns 4 1 second 0 false (omega arith) (λ _.
        loop-Returns 3 2 (2 * second) second false (omega arith) (λ _.
          loop-Returns 2 3 (4 * second) (3 * second) false (omega arith) (λ _.
            loop-Returns 1 4 (8 * second) (7 * second) true (omega arith) (λ _.
              loop-Returns 0 5 (16 * second) (15 * second) true (omega arith)
                (λ too_many. ground (arith, too_many))))))
