-- ===== src/Limited/ApiRate/Serving.antt =====
-- What a client of the middleware sees, and what it is charged for.
use go_openbmclapi.Prelude.{
  ℕ, ◌+◌, ◌-◌, ◌≤◌, String, ◌≡◌, ◌≢◌, refl, inl, inr, true, false, Option, none, some, arith,
  if◌then◌else◌, Bool-cases,
}
use go_openbmclapi.Prelude.Int.{ℤ, pos, negsuc, pos_part}
use go_openbmclapi.Limited.ApiRate.{LimitSet, tried, counter, try, check_hour, check_min, release}
use go_openbmclapi.Limited.ApiRate.Stages.{InQuota, room, admits, left}
use go_openbmclapi.Limited.ApiRate.Admission.{try_answer}
use go_openbmclapi.Limited.ApiRate.Cleaning.{release-try_hour, release-try_min}
use go_openbmclapi.Limited.ApiRate.Middle.{
  ApiRateMiddleWare, Request, Reply, Served, served, too_many_requests, request_id, set_of,
  with_set, retry_after, uncharged, answer, serve_middle,
}

-- The wait that a refused client is told, and the status that WriteHeader is called with for another one.
abbrev pub told_to_wait : Served → Option ℕ
told_to_wait (too_many_requests _ w) = some w
told_to_wait _ = none

abbrev pub status_of : Served → Option (Option ℕ)
status_of (served _ st) = some st
status_of _ = none

-- The wait after an answer with a natural number left in the hour is between 1 and 3600 seconds.
pub retry_after_bounds :
    (left elapsed : ℕ)
    → (1 ≤ retry_after (pos left) elapsed) × (retry_after (pos left) elapsed ≤ 3600)
unfolding retry_after
retry_after_bounds left elapsed = ground arith

set_of-with_set :
    (a : ApiRateMiddleWare) (r : Request) (s : LimitSet) → set_of (with_set a r s) r ≡ s
set_of-with_set a r s = ground arith

-- The answer to what `try` says, by its three forms.
module _ (s : LimitSet) (id : String) (elapsed now : ℕ) (p : Reply) where
  answer_passed :
      (h m : ℤ) (c : ℕ)
      → c ≢ 0
      → (status_of (answer s id elapsed now p (tried h m (pos c))).0 ≡ some p.status)
        × ((answer s id elapsed now p (tried h m (pos c))).1
            ≡ (if uncharged p then release s id (pos c) else s))
  unfolding answer
  answer_passed h m c nz = ground arith

  answer_refused :
      (h m : ℤ)
      → told_to_wait (answer s id elapsed now p (tried h m (pos 0))).0
        ≡ some (retry_after h elapsed + 1)
  unfolding answer
  answer_refused h m = refl

module _ (a : ApiRateMiddleWare) (r : Request) (now h m : ℕ) (p : Reply)
    (q : InQuota (set_of a r) (request_id r) h m) (on : check_hour (set_of a r) ≡ true)
    (c : (set_of a r).clean_count ≢ 0) (asks : r.skip_value ≡ false) where
  answered : Served × LimitSet
  answered =
      answer (try (set_of a r) (request_id r)).1 (request_id r) (now - a.start_at) now p
        (try (set_of a r) (request_id r)).0

  serve_middle-answered : serve_middle a r now p ≡ (answered.0, with_set a r answered.1)
  unfolding serve_middle answered
  serve_middle-answered = rw asks

  passes :
      admits (set_of a r) h m ≡ true
      → (status_of answered.0 ≡ some p.status)
        × (answered.1 ≡ (
            if uncharged p
            then release
                (try (set_of a r) (request_id r)).1
                (request_id r)
                (pos (set_of a r).clean_count)
            else (try (set_of a r) (request_id r)).1))
  unfolding answered
  passes ok =
      rw (try_answer (set_of a r) (request_id r) h m q on, ok)
        (answer_passed _ (request_id r) _ now p _ _ _ c)

  -- Let the client of a request that does not skip the limit have counters h and m far from
  -- overflow, in a set whose hour limit is on and whose clean count is not 0. If the limits have
  -- room, ServeMiddle calls the handler behind and its status is the reply's.
  pub serve_middle-room :
      admits (set_of a r) h m ≡ true → status_of (serve_middle a r now p).0 ≡ some p.status
  serve_middle-room ok = rw serve_middle-answered (passes ok).0

  refused :
      admits (set_of a r) h m ≡ false
      → (l : ℕ) × (k : ℤ) × ((try (set_of a r) (request_id r)).0 ≡ tried (pos l) k (pos 0))
  refused full = elim (Bool-cases (room (set_of a r).per_hour h)) [
    | inl some_left ↦ (
      pos_part (set_of a r).per_hour - h - 1,
      pos 0,
      rw (try_answer (set_of a r) (request_id r) h m q on, full) (ground arith),
    )
    | inr none_left ↦ (
      0,
      (if check_min (set_of a r) then pos 0 else negsuc 0),
      rw (try_answer (set_of a r) (request_id r) h m q on, full, none_left),
    )
  ]

  -- Let the client of a request that does not skip the limit have counters h and m far from
  -- overflow, in a set whose hour limit is on and whose clean count is not 0. If a limit has no
  -- room, the reply is 429 with a Retry-After between 2 and 3601 seconds.
  pub serve_middle-full :
      admits (set_of a r) h m ≡ false
      → (w : ℕ) × (told_to_wait (serve_middle a r now p).0 ≡ some w) × (2 ≤ w) × (w ≤ 3601)
  unfolding answered
  serve_middle-full full =
      let (l, k, e) = refused full in
      (
        retry_after (pos l) (now - a.start_at) + 1,
        rw (serve_middle-answered, e)
            (answer_refused _ (request_id r) (now - a.start_at) now p (pos l) k),
        omega (arith, retry_after_bounds l (now - a.start_at)),
        omega (arith, retry_after_bounds l (now - a.start_at)),
      )

  -- Let the client of a request that does not skip the limit have counters h and m far from
  -- overflow, in a set whose hour limit is on and whose clean count is not 0. If the limits have
  -- room, the handler calls WriteHeader, and it has set the skip flag or the status is 1xx or 3xx,
  -- every counter of the set is afterwards what it was before.
  pub serve_middle-uncharged :
      (j : String)
      → admits (set_of a r) h m ≡ true
      → uncharged p ≡ true
      → (counter (set_of (serve_middle a r now p).1 r).access_hour j
          ≡ counter (set_of a r).access_hour j)
        × (counter (set_of (serve_middle a r now p).1 r).access_min j
            ≡ counter (set_of a r).access_min j)
  serve_middle-uncharged j ok free =
      rw (serve_middle-answered, set_of-with_set, (passes ok).1, free)
        (
          release-try_hour (set_of a r) (request_id r) h m q on ok c j,
          release-try_min (set_of a r) (request_id r) h m q on ok c j,
        )
