-- ===== src/Handler.antt =====
-- handler.go: the signature of a link, the routes of the mirror, and the download of a file.
-- The query's values, strconv's parser, the clock and the hash function are parameters.
pub mod Failover
pub mod Signature
pub mod Routes
pub mod Tests
use Prim.Native.String.{◌++◌}
use go_openbmclapi.Prelude.{
  ℕ, zero, suc, ◌+◌, String, Bool, true, false, ◌&&◌, ◌||◌, not, Option, none, some, List, [], ◌∷◌,
  if◌then◌else◌, length,
}
use go_openbmclapi.Prelude.Int.{ℤ, pos, ltb_ℤ, pos_part}
use go_openbmclapi.Prelude.Eq.{string_eq}
use go_openbmclapi.Util.{for_each_from_random_index_with_possibility}
use go_openbmclapi.Cluster.KeepAlive.{Counters, count_served}

module _ (parse36 : String → Option ℤ) (digest : String → String) where
  -- checkQuerySign: `s` and `e` are the values of the query, `now` is in milliseconds, and `digest` is
  -- the base64 form of the SHA-1 of what is written to it.
  unfoldable pub check_query_sign : Bool → String → String → ℤ → String → String → Bool
  check_query_sign skip s e now hash secret =
      if skip
      then true
      else if string_eq.test s "" || string_eq.test e ""
      then false
      else (elim (parse36 e) [
        | none ↦ false
        | some before ↦
            if ltb_ℤ before now then false else string_eq.test (digest (secret ++ (hash ++ e))) s
      ])

-- What a storage's ServeDownload gives: the bytes that it has sent, or -1 where it does not tell; or an
-- error.
pub data ServeError : Type 0 where
  not_exist http_status not_working other_error : ServeError

pub data Serve : Type 0 where
  serves : ℤ → Serve
  breaks : ServeError → Serve

abbrev pub is_served : Serve → Bool
is_served (serves sz) = true
is_served (breaks e) = false

-- The reply to a download: the empty file; nothing written, where there is no storage; a storage's; or an
-- error by its status; the program may exit after the error.
pub data Downloaded : Type 0 where
  empty_file no_storage : Downloaded
  served_by : ℕ → Downloaded
  status : ℕ → Downloaded
  exits : Downloaded

abbrev pub on_error : ServeError → Downloaded
on_error not_exist = status 404
on_error http_status = status 502
on_error not_working = exits
on_error other_error = status 500

-- The variable `sto`: the storage of the last call.
unfoldable pub last_tried : List ℕ → Option ℕ
last_tried [] = none
last_tried (i ∷ []) = some i
last_tried (i ∷ (j ∷ l)) = last_tried (j ∷ l)

-- The counting of what a storage has sent.
unfoldable pub count_sent : Bool → Serve → Counters → Counters
unfolding count_served
count_sent stat_only (breaks e) c = c
count_sent stat_only (serves sz) c =
    if ltb_ℤ sz (pos 0) then c else count_served (stat_only, pos_part sz) c

unfoldable pub reply_of : Bool → Option ℕ → (ℕ → Serve) → Downloaded
reply_of found none serve = no_storage
reply_of found (some i) serve = elim (serve i) [
  | serves sz ↦ served_by i
  | breaks e ↦ if found then served_by i else on_error e
]

unfoldable pub count_last : Bool → Option ℕ → (ℕ → Serve) → Counters → Counters
unfolding count_sent
count_last stat_only none serve c = c
count_last stat_only (some i) serve c = count_sent stat_only (serve i) c

-- A request: whether its hash is that of the empty file, whether it counts for statistics only, whether
-- DownloadFile works for it, and the random number.
pub record Request : Type 0 where
  pub wants_empty : Bool
  pub stat_only : Bool
  pub downloads : Bool
  pub random : ℕ

-- The loop over the storages and what follows it.
unfoldable pub serve_file : Request → List ℕ → ℕ → (ℕ → Serve) → Counters → Downloaded × Counters
unfolding for_each_from_random_index_with_possibility reply_of count_last last_tried
serve_file r weights total serve c =
    let (found, tried) =
      for_each_from_random_index_with_possibility r.random weights total
        (λ i. is_served (serve i)) in
    (reply_of found (last_tried tried) serve, count_last r.stat_only (last_tried tried) serve c)

-- handleDownload: the second argument is what CachedFileSize gives. After a download the size that the
-- storages are given is still 0.
unfoldable pub handle_download :
    Request → Option ℤ → List ℕ → ℕ → (ℤ → ℕ → Serve) → Counters → Downloaded × Counters
unfolding serve_file count_served
handle_download r cached weights total serve c =
    if r.wants_empty then (empty_file, count_served (r.stat_only, 0) c) else (elim cached [
      | some size ↦ serve_file r weights total (serve size) c
      | none ↦ if r.downloads then serve_file r weights total (serve (pos 0)) c else (status 500, c)
    ])
