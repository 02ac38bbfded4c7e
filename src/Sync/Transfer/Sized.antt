-- ===== src/Sync/Transfer/Sized.antt =====
-- The size of a downloaded file fits in an int64.
use mathlib.Core.Path.{subst}
use go_openbmclapi.Prelude.{
  ◌==◌, ℕ, ◌≡◌, ◌<◌, ◌^◌, ap, inl, inr, String, Bool, [], ◌∷◌, length, Option-cases, Bool-cases,
}
use go_openbmclapi.Sync.{FileInfo}
use go_openbmclapi.Sync.Transfer.{
  Bytes, Files, Response, Sent, not_sent, ended, answered, Attempt, Reader, reads, refused,
  body_reader, Fetch, fetched, failed, content_error, download, on_response, fetch_file_with_buf,
  req_path, req_query,
}
use go_openbmclapi.Sync.Transfer.Verified.{download-good, download-bad, outcome}

-- io.CopyBuffer counts what it writes in an int64.
abbrev pub WritesInt64 : Attempt → Type 0
WritesInt64 a = (bytes : Bytes) → length (a.copy bytes).0 < 2 ^ 63

-- A new file is shorter than 2^63 bytes.
unfoldable pub WritesSmall : Files → Fetch × Files → Type 0
WritesSmall files (fetched path, left) =
    (content : Bytes) → left ≡ ((path, content) ∷ files) → length content < 2 ^ 63
WritesSmall files (failed e, left) = Unit

content_of_head : Bytes → Files → Bytes
content_of_head other [] = other
content_of_head other ((p, content) ∷ files) = content

module _ (digest : ℕ → Bytes → String) (f : FileInfo) where
  download-small :
      (a : Attempt) (bytes : Bytes) (files : Files)
      → WritesInt64 a
      → WritesSmall files (download digest f a bytes files)
  unfolding WritesSmall content_of_head
  download-small a bytes files small = elim (Option-cases a.temp_name) [
    | inl none_left ↦ unfold download in rw none_left tt
    | inr (path, named) ↦ elim (Option-cases (content_error digest f a (a.copy bytes))) [
      | inl good ↦ rw (download-good digest f a bytes files path named good) (λ content e.
          subst (λ (c : Bytes). length c < 2 ^ 63) (ap (content_of_head []) e) (small bytes))
      | inr (e, bad) ↦ rw (download-bad digest f a bytes files path e named bad) tt
    ]
  ]

  read-small :
      (a : Attempt) (files : Files) (small : WritesInt64 a) (b : Reader)
      → WritesSmall files
          (elim b [ refused e ↦ (failed e, files) | reads bytes ↦ download digest f a bytes files ])
  read-small a files small (refused e) = unfold WritesSmall in tt
  read-small a files small (reads bytes) = download-small a bytes files small

  on_response-small :
      (a : Attempt) (r : Response) (files : Files)
      → WritesInt64 a
      → WritesSmall files (on_response digest f a r files)
  unfolding on_response
  on_response-small a r files small = elim (Bool-cases (r.status == 200)) [
    | inr bad ↦ rw bad (unfold WritesSmall in tt)
    | inl ok ↦ rw ok (read-small a files small (body_reader r))
  ]

  all_answers-small :
      (a : Attempt) (files : Files) (small : WritesInt64 a) (s : Sent)
      → WritesSmall files (outcome digest f a files s)
  all_answers-small a files small not_sent = unfold WritesSmall in tt
  all_answers-small a files small ended = unfold WritesSmall in tt
  all_answers-small a files small (answered r) = on_response-small a r files small

  pub fetch_file_with_buf-small :
      (no_open bad_open : Bool) (a : Attempt) (files : Files)
      → WritesInt64 a
      → WritesSmall files (fetch_file_with_buf digest f no_open bad_open a files)
  unfolding fetch_file_with_buf
  fetch_file_with_buf-small no_open bad_open a files small =
      all_answers-small a files small (a.send (req_path f bad_open) (req_query no_open bad_open))
