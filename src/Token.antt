-- ===== src/Token.antt =====
-- token.go: the authorization token of a cluster, and when it is fetched or refreshed. A time is
-- nanoseconds; the clock readings, what fetchToken and refreshToken get from the server (none is an
-- error), and what other goroutines do between two locks are arguments.
pub mod Stored
pub mod Tests
use go_openbmclapi.Prelude.{
  ℕ, ◌+◌, ◌*◌, String, Bool, true, false, Option, none, some, ltb, if◌then◌else◌,
}

pub record ClusterToken : Type 0 where
  pub token : String
  pub expire_at : ℕ

-- cr.authToken; none is nil.
abbrev pub AuthToken : Type 0
AuthToken = Option ClusterToken

abbrev pub is_expired : AuthToken → ℕ → Bool
is_expired none now = true
is_expired (some tk) now = ltb tk.expire_at now

abbrev pub ten_minutes : ℕ
ten_minutes = 600000000000

-- ExpireAt.Add(-10*time.Minute).Before(now)
abbrev pub is_almost_expired : AuthToken → ℕ → Bool
is_almost_expired none now = false
is_almost_expired (some tk) now = ltb tk.expire_at (now + ten_minutes)

-- What a caller gets: the token, or fetchToken's error; and whether a refresh is started behind it.
pub record Answer : Type 0 where
  pub token : Option String
  pub refreshes : Bool

-- Under the write lock: the token is fetched if it is still expired. An error leaves no token.
unfoldable pub fetch_if_expired : ℕ → Option ClusterToken → AuthToken → Answer × AuthToken
fetch_if_expired now fetched none = elim fetched [
  | none ↦ (record { token = none; refreshes = false }, none)
  | some tk ↦ (record { token = some tk.token; refreshes = false }, some tk)
]
fetch_if_expired now fetched (some tk) =
    if ltb tk.expire_at now
    then (elim fetched [
      | none ↦ (record { token = none; refreshes = false }, none)
      | some new ↦ (record { token = some new.token; refreshes = false }, some new)
    ])
    else (record { token = some tk.token; refreshes = false }, some tk)

-- GetAuthToken up to where it gives up its last lock: the two clock readings under the read lock, and
-- the one under the write lock.
unfoldable pub locked_get :
    ℕ → ℕ → (AuthToken → AuthToken) → ℕ → Option ClusterToken → AuthToken → Answer × AuthToken
unfolding fetch_if_expired
locked_get now again others later fetched none = fetch_if_expired later fetched (others none)
locked_get now again others later fetched (some tk) =
    if ltb tk.expire_at now
    then fetch_if_expired later fetched (others (some tk))
    else (record { token = some tk.token; refreshes = is_almost_expired (some tk) again }, some tk)

-- GetAuthToken: other goroutines, the one that it starts among them, may store another token between
-- its two locks, and between its last lock and its return.
unfoldable pub get_auth_token :
    ℕ
    → ℕ
    → (AuthToken → AuthToken)
    → ℕ
    → Option ClusterToken
    → (AuthToken → AuthToken)
    → AuthToken
    → Answer × AuthToken
unfolding locked_get
get_auth_token now again others later fetched others_after s =
    let (answer, stored) = locked_get now again others later fetched s in
    (answer, others_after stored)

-- The goroutine that GetAuthToken starts; a failed refresh keeps the token.
unfoldable pub refresh_if_needed : ℕ → Option ClusterToken → AuthToken → AuthToken
refresh_if_needed now refreshed s =
    if is_almost_expired s now then (elim refreshed [ none ↦ s | some tk ↦ some tk ]) else s
