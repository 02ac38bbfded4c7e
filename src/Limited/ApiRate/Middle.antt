-- ===== src/Limited/ApiRate/Middle.antt =====
-- limited/api_rate.go: the middleware with its two limit sets, the cleaner's tick, and ServeMiddle.
-- Times are nanoseconds since the Unix epoch; the clock's reading is an argument. What the context
-- and the handler behind the middleware give is an argument too.
use go_openbmclapi.Prelude.{
  ℕ, ◌+◌, ◌-◌, ◌*◌, ◌/◌, ◌%◌, String, Bool, true, false, ◌||◌, Option, none, some, ltb, ◌==◌,
  if◌then◌else◌,
}
use go_openbmclapi.Prelude.Int.{ℤ, pos, add_int64, eqb_ℤ}
use go_openbmclapi.Prelude.Eq.{string_eq}
use go_openbmclapi.Limited.ApiRate.{
  LimitSet, RateLimit, make_limit_set, Tried, tried, panicked, try, release, clean,
}

pub record ApiRateMiddleWare : Type 0 where
  pub annoy_set : LimitSet
  pub logged_set : LimitSet
  pub start_at : ℕ
  pub count : ℕ

unfoldable pub new_api_rate_middle_ware : RateLimit → RateLimit → ℕ → ApiRateMiddleWare
new_api_rate_middle_ware annoy logged now = record {
  annoy_set = make_limit_set annoy;
  logged_set = make_limit_set logged;
  start_at = now;
  count = 0;
}

pub set_anonymous_rate_limit : RateLimit → ApiRateMiddleWare → ApiRateMiddleWare
set_anonymous_rate_limit v a = record a { annoy_set = record a.annoy_set { limit = v } }

pub set_logged_rate_limit : RateLimit → ApiRateMiddleWare → ApiRateMiddleWare
set_logged_rate_limit v a = record a { logged_set = record a.logged_set { limit = v } }

pub clean_sets : ApiRateMiddleWare → Bool → ApiRateMiddleWare
clean_sets a hour = record a {
  logged_set = clean a.logged_set hour;
  annoy_set = clean a.annoy_set hour;
}

-- One minute of the ticker.
unfoldable pub tick : ApiRateMiddleWare → ApiRateMiddleWare
unfolding clean_sets
tick a =
    if ltb 60 (a.count + 1)
    then clean_sets (record a { count = 0 }) true
    else clean_sets (record a { count = a.count + 1 }) false

-- What ServeMiddle reads of a request.
pub record Request : Type 0 where
  pub skip_value : Bool
  pub logged : Option String
  pub real_ip : String
  pub remote_host : String

-- What the handler behind does: the status of its first WriteHeader on the wrapper, none where it has only
-- written or has hijacked the connection; and whether it has set the skip flag by then.
pub record Reply : Type 0 where
  pub status : Option ℕ
  pub skip : Bool

pub record Headers : Type 0 where
  pub limit_minute : ℤ
  pub limit_hour : ℤ
  pub remaining_minute : ℤ
  pub remaining_hour : ℤ
  pub reset_after : ℕ

pub data Served : Type 0 where
  skipped crashed : Served
  too_many_requests : Headers → ℕ → Served
  -- with the status that WriteHeader was called with, where it was
  served : Headers → Option ℕ → Served

unfoldable pub request_id : Request → String
request_id r = elim r.logged [
  | some user ↦ user
  | none ↦ if string_eq.test r.real_ip "" then r.remote_host else r.real_ip
]

abbrev pub is_logged : Request → Bool
is_logged r = elim r.logged [ some _ ↦ true | none ↦ false ]

abbrev pub set_of : ApiRateMiddleWare → Request → LimitSet
set_of a r = if is_logged r then a.logged_set else a.annoy_set

abbrev pub with_set : ApiRateMiddleWare → Request → LimitSet → ApiRateMiddleWare
with_set a r s = if is_logged r then record a { logged_set = s } else record a { annoy_set = s }

unfoldable pub retry_after : ℤ → ℕ → ℕ
retry_after hour_left elapsed =
    if eqb_ℤ hour_left (pos 0)
    then 3600 - elapsed / 1000000000 % 3600
    else 60 - elapsed / 1000000000 % 60

-- The test of the callback that WriteHeader runs.
abbrev pub gives_back : Bool → Option ℕ → Bool
gives_back skip none = false
gives_back skip (some status) = skip || (status / 100 == 3) || (status / 100 == 1)

-- Whether the request is given back: WriteHeader is called, and the handler has asked for it, or the status
-- is 1xx or 3xx.
abbrev pub uncharged : Reply → Bool
uncharged p = gives_back p.skip p.status

unfoldable pub headers : LimitSet → ℕ → ℕ → ℤ → ℤ → Headers
headers s wait now min_left hour_left = record {
  limit_minute = s.per_min;
  limit_hour = s.per_hour;
  remaining_minute = min_left;
  remaining_hour = hour_left;
  reset_after = (now + wait * 1000000000) / 1000000000;
}

-- What follows `try`, whose answer is matched, in the state `s` that it has left.
unfoldable pub answer : LimitSet → String → ℕ → ℕ → Reply → Tried → Served × LimitSet
answer s id elapsed now p panicked = (crashed, s)
answer s id elapsed now p (tried hour_left min_left clean_id) =
    let wait = retry_after hour_left elapsed in
    if eqb_ℤ clean_id (pos 0)
    then (too_many_requests (headers s wait now min_left hour_left) (wait + 1), s)
    else if uncharged p
    then (
      served (headers s wait now (add_int64 min_left (pos 1)) (add_int64 hour_left (pos 1)))
          p.status,
      release s id clean_id,
    )
    else (served (headers s wait now min_left hour_left) p.status, s)

unfoldable pub serve_middle : ApiRateMiddleWare → Request → ℕ → Reply → Served × ApiRateMiddleWare
unfolding answer request_id
serve_middle a r now p =
    if r.skip_value
    then (skipped, a)
    else (let (t, s) = try (set_of a r) (request_id r) in
        let (out, s') = answer s (request_id r) (now - a.start_at) now p t in
        (out, with_set a r s'))
