-- ===== src/Sync/Transfer.antt =====
-- sync.go: the download of one file from the centre server, and its retries.
-- The parameters are the HTTP client, the decoders, the hash functions and the disk.
pub mod Verified
pub mod Sized
pub mod Retries
use Prim.Native.String.{len, ◌++◌}
use go_openbmclapi.Prelude.{
  ℕ, zero, suc, ◌+◌, ◌*◌, String, Bool, true, false, ◌&&◌, ◌||◌, not, Option, none, some, List, [],
  ◌∷◌, ltb, leb, ◌==◌, if◌then◌else◌, length,
}
use go_openbmclapi.Prelude.Int.{ℤ, pos, eqb_ℤ, ltb_ℤ}
use go_openbmclapi.Prelude.Eq.{string_eq}
use go_openbmclapi.Util.{has_hash_method}
use go_openbmclapi.Sync.{FileInfo}

-- The bytes that a reader gives.
abbrev pub Bytes : Type 0
Bytes = List ℕ

-- A response: its status, its Content-Encoding in lower case, and what the reader of the body gives,
-- as it is, through gzip and through zlib; none where the decoder refuses the body's beginning.
pub record Response : Type 0 where
  pub status : ℕ
  pub encoding : String
  pub body : Bytes
  pub gunzip : Option Bytes
  pub inflate : Option Bytes

pub data Sent : Type 0 where
  not_sent : Sent
  -- the context has ended by the time of the answer
  ended : Sent
  answered : Response → Sent

-- What one attempt meets: the client's answer to a path and a query, the name of the temporary file,
-- what io.CopyBuffer writes of a reader and whether it does so without an error, and whether Stat works.
pub record Attempt : Type 0 where
  pub send : String → List (String × String) → Sent
  pub temp_name : Option String
  pub copy : Bytes → Bytes × Bool
  pub stat_works : Bool

-- The temporary files: a path and a content.
abbrev pub Files : Type 0
Files = List (String × Bytes)

unfoldable pub remove_file : String → Files → Files
remove_file path [] = []
remove_file path ((p, content) ∷ files) =
    let rest = remove_file path files in if string_eq.test p path then rest else (p, content) ∷ rest

pub data FetchError : Type 0 where
  no_hash_method request_failed context_ended no_reader no_temp copy_failed stat_failed wrong_size
        wrong_hash :
      FetchError
  wrong_status : ℕ → FetchError
  unexpected_encoding : String → FetchError

pub data Fetch : Type 0 where
  fetched : String → Fetch
  failed : FetchError → Fetch

-- The switch on the content encoding.
pub data Reader : Type 0 where
  reads : Bytes → Reader
  refused : FetchError → Reader

abbrev pub decoder : Option Bytes → Reader
decoder none = refused no_reader
decoder (some bytes) = reads bytes

unfoldable pub body_reader : Response → Reader
body_reader r =
    if string_eq.test r.encoding ""
    then reads r.body
    else if string_eq.test r.encoding "gzip"
    then decoder r.gunzip
    else if string_eq.test r.encoding "deflate"
    then decoder r.inflate
    else refused (unexpected_encoding r.encoding)

abbrev pub req_path : FileInfo → Bool → String
req_path f bad_open = if bad_open then "/openbmclapi/download/" ++ f.hash else f.path

abbrev pub req_query : Bool → Bool → List (String × String)
req_query no_open bad_open = if bad_open then [] else if no_open then ("noopen", "1") ∷ [] else []

-- What the goroutine of fetchFile leaves: the path that it sends, the counters that it adds to, the
-- time that it has waited in nanoseconds, and the temporary files.
pub record Run : Type 0 where
  pub path_res : Option String
  pub ok_count : ℕ
  pub fail_count : ℕ
  pub waited : ℕ
  pub files : Files

abbrev pub max_retry_count : ℕ
max_retry_count = 5

abbrev pub max_try_with_open : ℕ
max_try_with_open = 3

abbrev pub second : ℕ
second = 1000000000

module _ (digest : ℕ → Bytes → String) where
  -- The tests of the downloaded bytes.
  unfoldable pub content_error : FileInfo → Attempt → Bytes × Bool → Option FetchError
  content_error f a (content, copied) =
      if not copied
      then some copy_failed
      else if not a.stat_works
      then some stat_failed
      else if not (ltb_ℤ f.size (pos 0)) && not (eqb_ℤ (pos (length content)) f.size)
      then some wrong_size
      else if not (string_eq.test (digest (len f.hash) content) f.hash)
      then some wrong_hash
      else none

  -- From os.CreateTemp on; the file is removed again where an error follows.
  unfoldable pub download : FileInfo → Attempt → Bytes → Files → Fetch × Files
  unfolding content_error
  download f a bytes files = elim a.temp_name [
    | none ↦ (failed no_temp, files)
    | some path ↦
        (let written = (path, (a.copy bytes).0) ∷ files in
          elim (content_error f a (a.copy bytes)) [
            | none ↦ (fetched path, written)
            | some e ↦ (failed e, remove_file path written)
          ])
  ]

  unfoldable pub on_response : FileInfo → Attempt → Response → Files → Fetch × Files
  unfolding download body_reader
  on_response f a r files =
      if not (r.status == 200)
      then (failed (wrong_status r.status), files)
      else (elim (body_reader r) [
        | refused e ↦ (failed e, files)
        | reads bytes ↦ download f a bytes files
      ])

  -- fetchFileWithBuf
  unfoldable pub fetch_file_with_buf : FileInfo → Bool → Bool → Attempt → Files → Fetch × Files
  unfolding on_response
  fetch_file_with_buf f no_open bad_open a files =
      elim (a.send (req_path f bad_open) (req_query no_open bad_open)) [
        | not_sent ↦ (failed request_failed, files)
        | ended ↦ (failed context_ended, files)
        | answered r ↦ on_response f a r files
      ]

  -- One round of the loop of fetchFile.
  unfoldable pub try_fetch : FileInfo → Bool → Bool → Attempt → Files → Fetch × Files
  unfolding fetch_file_with_buf
  try_fetch f no_open bad_open a files =
      if has_hash_method (len f.hash)
      then fetch_file_with_buf f no_open bad_open a files
      else (failed no_hash_method, files)

  -- The loop of fetchFile, with `tried` rounds begun. `attempt` says what each round meets, `quits`
  -- whether the context ends the wait after it. none is the end of the fuel.
  unfoldable pub fetch_loop :
      (ℕ → Attempt) → (ℕ → Bool) → FileInfo → Bool → ℕ → ℕ → ℕ → Bool → ℕ → Files → Option Run
  unfolding try_fetch
  fetch_loop attempt quits f no_open zero tried interval bad_open waited files = none
  fetch_loop attempt quits f no_open (suc fuel) tried interval bad_open waited files =
      let again =
        fetch_loop attempt quits f no_open fuel (tried + 1) (interval * 2)
          (ltb max_try_with_open (tried + 1) || bad_open) (waited + interval) in
      let (answer, left) = try_fetch f no_open bad_open (attempt tried) files in
      elim answer [
        | fetched path ↦ some (record {
          path_res = some path;
          ok_count = 1;
          fail_count = 0;
          waited = waited;
          files = left;
        })
        | failed e ↦
            if ltb max_retry_count (tried + 1)
            then some (record {
              path_res = none;
              ok_count = 0;
              fail_count = 1;
              waited = waited;
              files = left;
            })
            else if quits tried
            then some (record {
              path_res = none;
              ok_count = 0;
              fail_count = 0;
              waited = waited;
              files = left;
            })
            else again left
      ]

  -- The goroutine of fetchFile.
  unfoldable pub fetch_file : (ℕ → Attempt) → (ℕ → Bool) → FileInfo → Bool → Files → Option Run
  unfolding fetch_loop
  fetch_file attempt quits f no_open files =
      fetch_loop attempt quits f no_open max_retry_count 1 second false 0 files
