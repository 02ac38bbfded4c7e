-- ===== src/Sync/Transfer/Verified.antt =====
-- What fetchFileWithBuf accepts.
use Prim.Native.String.{len}
use mathlib.Core.Path.{subst}
use go_openbmclapi.Util.{has_hash_method}
use go_openbmclapi.Prelude.{
  ◌==◌, ℕ, ◌≡◌, refl, ◌⊎◌, inl, inr, String, Bool, true, false, Option, none, some, [], ◌∷◌, arith,
  length, All, Option-cases, Bool-cases,
}
use go_openbmclapi.Prelude.Int.{pos, ltb_ℤ}
use go_openbmclapi.Prelude.Eq.{string_eq}
use go_openbmclapi.Sync.{FileInfo}
use go_openbmclapi.Sync.Transfer.{
  request_failed, context_ended, Bytes, Files, Response, Sent, not_sent, ended, answered, Attempt,
  remove_file, Reader, reads, refused, body_reader, FetchError, Fetch, fetched, failed,
  content_error, download, on_response, fetch_file_with_buf, try_fetch, req_path, req_query,
}

-- os.CreateTemp gives a path that no file has.
abbrev pub IsNew : Files → Option String → Type 0
IsNew files none = Unit
IsNew files (some path) = All (λ (p : String × Bytes). string_eq.test p.0 path ≡ false) files

abbrev pub Fresh : Attempt → Files → Type 0
Fresh a files = IsNew files a.temp_name

pub remove_others :
    (path : String) (files : Files)
    → All (λ (p : String × Bytes). string_eq.test p.0 path ≡ false) files
    → remove_file path files ≡ files
unfolding remove_file
remove_others path [] a = refl
remove_others path ((p, content) ∷ files) a = ground (arith, a.0, remove_others path files a.1)

module _ (digest : ℕ → Bytes → String) (f : FileInfo) where
  -- The content is the listed one: its hash is the file's, and so is its size, where one is listed.
  abbrev pub IsContent : Bytes → Type 0
  IsContent content =
      (digest (len f.hash) content ≡ f.hash)
      × ((ltb_ℤ f.size (pos 0) ≡ true) ⊎ (pos (length content) ≡ f.size))

  -- The outcome of a download over the temporary files `files`: the path of the one new file, with the
  -- listed content, or an error and the same files.
  unfoldable pub IsClean : Files → Fetch × Files → Type 0
  IsClean files (fetched path, left) =
      (content : Bytes) × (left ≡ ((path, content) ∷ files))
      × IsContent content
      × IsNew files (some path)
  IsClean files (failed e, left) = left ≡ files

  content_error-IsContent :
      (a : Attempt) (w : Bytes × Bool) → content_error digest f a w ≡ none → IsContent w.0
  unfolding content_error
  content_error-IsContent a w h =
      ground (arith, h, string_eq.agrees (digest (len f.hash) w.0) f.hash)

  module _ (a : Attempt) (bytes : Bytes) (files : Files) where
    pub download-good :
        (path : String)
        → a.temp_name ≡ some path
        → content_error digest f a (a.copy bytes) ≡ none
        → download digest f a bytes files ≡ (fetched path, (path, (a.copy bytes).0) ∷ files)
    unfolding download
    download-good path named good = ground (arith, named, good)

    pub download-bad :
        (path : String) (e : FetchError)
        → a.temp_name ≡ some path
        → content_error digest f a (a.copy bytes) ≡ some e
        → download digest f a bytes files
          ≡ (failed e, remove_file path ((path, (a.copy bytes).0) ∷ files))
    unfolding download
    download-bad path e named bad = ground (arith, named, bad)

    removed :
        (path : String)
        → a.temp_name ≡ some path
        → Fresh a files
        → remove_file path ((path, (a.copy bytes).0) ∷ files) ≡ files
    unfolding remove_file
    removed path named fresh = ground (
      arith,
      string_eq.agrees path path,
      remove_others path files (subst (IsNew files) named fresh),
    )

    download-IsClean : Fresh a files → IsClean files (download digest f a bytes files)
    unfolding IsClean
    download-IsClean fresh = elim (Option-cases a.temp_name) [
      | inl none_left ↦ unfold download in ground (arith, none_left)
      | inr (path, named) ↦ elim (Option-cases (content_error digest f a (a.copy bytes))) [
        | inl good ↦ rw (download-good path named good) (
          (a.copy bytes).0,
          refl,
          content_error-IsContent a (a.copy bytes) good,
          subst (IsNew files) named fresh,
        )
        | inr (e, bad) ↦ rw (download-bad path e named bad) (removed path named fresh)
      ]
    ]

  read_body :
      (a : Attempt) (files : Files) (fresh : Fresh a files) (b : Reader)
      → IsClean files
          (elim b [ refused e ↦ (failed e, files) | reads bytes ↦ download digest f a bytes files ])
  read_body a files fresh (refused e) = unfold IsClean in refl
  read_body a files fresh (reads bytes) = download-IsClean a bytes files fresh

  on_response-IsClean :
      (a : Attempt) (r : Response) (files : Files)
      → Fresh a files
      → IsClean files (on_response digest f a r files)
  unfolding on_response
  on_response-IsClean a r files fresh = elim (Bool-cases (r.status == 200)) [
    | inr bad ↦ rw bad (unfold IsClean in refl)
    | inl ok ↦ rw ok (read_body a files fresh (body_reader r))
  ]

  abbrev pub outcome : Attempt → Files → Sent → Fetch × Files
  outcome a files not_sent = (failed request_failed, files)
  outcome a files ended = (failed context_ended, files)
  outcome a files (answered r) = on_response digest f a r files

  all_answers :
      (a : Attempt) (files : Files) (fresh : Fresh a files) (s : Sent)
      → IsClean files (outcome a files s)
  all_answers a files fresh not_sent = unfold IsClean in refl
  all_answers a files fresh ended = unfold IsClean in refl
  all_answers a files fresh (answered r) = on_response-IsClean a r files fresh

  pub fetch_file_with_buf-IsClean :
      (no_open bad_open : Bool) (a : Attempt) (files : Files)
      → Fresh a files
      → IsClean files (fetch_file_with_buf digest f no_open bad_open a files)
  unfolding fetch_file_with_buf
  fetch_file_with_buf-IsClean no_open bad_open a files fresh =
      all_answers a files fresh (a.send (req_path f bad_open) (req_query no_open bad_open))

  -- One round of fetchFile, with a fresh name for the temporary file, either fails and leaves the
  -- temporary files as they were, or gives the path of one new file, whose content has the listed hash
  -- and, unless the listed size is negative, the listed size.
  pub try_fetch-IsClean :
      (no_open bad_open : Bool) (a : Attempt) (files : Files)
      → Fresh a files
      → IsClean files (try_fetch digest f no_open bad_open a files)
  unfolding try_fetch
  try_fetch-IsClean no_open bad_open a files fresh =
      elim (Bool-cases (has_hash_method (len f.hash))) [
        | inr none_known ↦ rw none_known (unfold IsClean in refl)
        | inl known ↦ rw known (fetch_file_with_buf-IsClean no_open bad_open a files fresh)
      ]
