-- ===== src/Hijacker.antt =====
-- hijacker.go: the proxy for the download sites, and utils/crypto.go's comparison of passwords. The hash
-- function, the files of the cache and the remote server's answer are arguments.
pub mod Auth
pub mod Tests
use go_openbmclapi.Prelude.{
  ℕ, String, Bool, true, false, ◌&&◌, ◌||◌, not, Option, none, some, List, [], ◌∷◌, if◌then◌else◌,
}
use go_openbmclapi.Prelude.Int.{ℤ, pos, leb_ℤ, eqb_ℤ, sub_int64}
use go_openbmclapi.Prelude.Eq.{string_eq}
use go_openbmclapi.Prelude.GoMap.{GoMap, lookup, insert}

-- ComparePasswd: ConstantTimeCompare gives 1 for equal slices, and 0 for others.
unfoldable pub compare_passwd : (String → String) → String → String → Bool
compare_passwd sha256 p1 p2 = not (string_eq.test (sha256 p1) (sha256 p2))

-- The configuration of the hijacking: a user has a name and a password.
pub record Hijack : Type 0 where
  pub enable : Bool
  pub require_auth : Bool
  pub auth_users : List (String × String)

pub record CacheStat : Type 0 where
  pub size : ℤ
  pub expires_at : ℤ

-- A request: its method and path, the user and password that it gives, whether a record of a file has
-- its path, what the cache's file is like (its size, if it is there, and whether it opens), and whether
-- the remote server answers.
pub record Request : Type 0 where
  pub is_get_or_head : Bool
  pub path : String
  pub basic_auth : Option (String × String)
  pub file_hash : Option String
  pub cached_size : Option ℤ
  pub cached_opens : Bool
  pub remote_answers : Bool

pub data Reply : Type 0 where
  -- nothing is written: an empty reply with status 200
  empty : Reply
  unavailable unauthorized bad_gateway : Reply
  -- the download handler serves the hash, without counting it for the keep-alive
  downloads : String → Reply
  -- the file of the cache, with the max-age that the client is told
  from_cache : Option ℤ → Reply
  from_remote : Reply

-- hjResponseWithCache; none is its false.
unfoldable pub response_with_cache : Request → Option CacheStat → ℤ → Bool → Option Reply
response_with_cache r none now force = none
response_with_cache r (some c) now force =
    let age = sub_int64 c.expires_at now in
    if not force && leb_ℤ age (pos 0) then none else (elim r.cached_size [
      | none ↦ none
      | some size ↦
          if not (eqb_ℤ size c.size)
          then none
          else if not r.cached_opens
          then none
          else some (from_cache (if leb_ℤ age (pos 0) then none else some age))
    ])

-- The loop over the users: whether it returns.
unfoldable pub auth_loop : (String → String) → String → String → List (String × String) → Bool
unfolding compare_passwd
auth_loop sha256 user passwd [] = false
auth_loop sha256 user passwd ((name, password) ∷ users) =
    let rest = auth_loop sha256 user passwd users in
    if string_eq.test name user && compare_passwd sha256 password passwd then true else rest

-- What the authorisation replies; none where the request goes on.
unfoldable pub check_auth : (String → String) → Hijack → Request → Option Reply
unfolding auth_loop
check_auth sha256 config r = if not config.require_auth then none else (elim r.basic_auth [
  | none ↦ some unauthorized
  | some (user, passwd) ↦
      if auth_loop sha256 user passwd config.auth_users then some empty else some unauthorized
])

-- From the look at the cache on.
unfoldable pub proxy : GoMap String CacheStat → ℤ → Request → Reply
unfolding response_with_cache
proxy cache now r = elim (response_with_cache r (lookup cache r.path) now false) [
  | some reply ↦ reply
  | none ↦
      if r.remote_answers
      then from_remote
      else (elim (response_with_cache r (lookup cache r.path) now true) [
        | some reply ↦ reply
        | none ↦ bad_gateway
      ])
]

-- HjProxy.ServeHTTP
unfoldable pub serve_http :
    (String → String) → Hijack → GoMap String CacheStat → ℤ → Request → Reply
unfolding check_auth proxy
serve_http sha256 config cache now r =
    let proxied = proxy cache now r in
    if not config.enable then unavailable else (elim (check_auth sha256 config r) [
      | some reply ↦ reply
      | none ↦
          if r.is_get_or_head
          then (elim r.file_hash [ some hash ↦ downloads hash | none ↦ proxied ])
          else proxied
    ])
