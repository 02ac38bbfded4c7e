-- ===== src/Limited/ApiRate/Cleaning.antt =====
-- A request given back, and the clean-up that opens a new period.
use go_openbmclapi.Prelude.{
  ℕ, zero, suc, ◌+◌, ◌*◌, ◌/◌, ◌%◌, String, ◌≡◌, ◌≢◌, Bool, true, false, arith, if◌then◌else◌,
}
use go_openbmclapi.Prelude.Int.{pos}
use go_openbmclapi.Prelude.Eq.{string_eq, ==-self}
use go_openbmclapi.Limited.ApiRate.{
  LimitSet, counter, try, check_hour, release, clean, min_bits, hour_bits,
}
use go_openbmclapi.Limited.ApiRate.Counters.{counter-drop_one, has_of_counter, sub_one}
use go_openbmclapi.Limited.ApiRate.Stages.{InQuota, admits}
use go_openbmclapi.Limited.ApiRate.Admission.{try_hour_counts, try_min_counts}
use go_openbmclapi.Limited.ApiRate.Periods.{try-keeps}
use go_openbmclapi.Limited.ApiRate.Middle.{ApiRateMiddleWare, tick}

module _ (s : LimitSet) (id : String) (h m : ℕ) (q : InQuota s id h m) (on : check_hour s ≡ true)
    (ok : admits s h m ≡ true) (c : s.clean_count ≢ 0) where
  -- Let the counters of a client be natural numbers h and m far from overflow, and the hour limit
  -- be on. After a request that is let through by a set with a clean count other than 0, release
  -- with its clean id gives every hour counter its value from before the request.
  pub release-try_hour :
      (j : String)
      → counter (release (try s id).1 id (pos s.clean_count)).access_hour j
        ≡ counter s.access_hour j
  unfolding release
  release-try_hour j = ground (
    arith,
    try-keeps s id,
    counter-drop_one (try s id).1.access_hour id j,
    try_hour_counts s id h m q on j,
    try_hour_counts s id h m q on id,
    ==-self id,
    string_eq.agrees id j,
    sub_one h q.hour_small,
    has_of_counter (try s id).1.access_hour id h,
    q.hour_at,
  )

  -- Let the counters of a client be natural numbers h and m far from overflow, and the hour limit
  -- be on. After a request that is let through by a set with a clean count other than 0, release
  -- with its clean id gives every minute counter its value from before the request.
  pub release-try_min :
      (j : String)
      → counter (release (try s id).1 id (pos s.clean_count)).access_min j ≡ counter s.access_min j
  unfolding release
  release-try_min j = ground (
    arith,
    try-keeps s id,
    counter-drop_one (try s id).1.access_min id j,
    try_min_counts s id h m q on j,
    try_min_counts s id h m q on id,
    ==-self id,
    string_eq.agrees id j,
    sub_one m q.min_small,
    has_of_counter (try s id).1.access_min id m,
    q.min_at,
  )

-- n minutes of the cleaner.
pub ticks : ℕ → ApiRateMiddleWare → ApiRateMiddleWare
ticks zero a = a
ticks (suc n) a = tick (ticks n a)

clean-clean_count :
    (s : LimitSet) (hour : Bool)
    → (clean s hour).clean_count
      ≡ (if hour then hour_bits (s.clean_count + 0x10000) else hour_bits s.clean_count)
        + min_bits (s.clean_count + 1)
unfolding clean
clean-clean_count s true = omega arith
clean-clean_count s false = omega arith

-- After n ticks of the cleaner from a new middleware (tick count 0, clean count 1), the tick count
-- is n modulo 61, so that an hour is cleaned every 61 ticks, and the clean count of the logged set
-- holds n + 1 modulo 65536 in its low 16 bits and n / 61 modulo 256 in the 8 bits above.
pub ticks-clean_count :
    (n : ℕ) (a : ApiRateMiddleWare)
    → a.count ≡ 0
    → a.logged_set.clean_count ≡ 1
    → ((ticks n a).count ≡ n % 61)
      × ((ticks n a).logged_set.clean_count ≡ n / 61 % 0x100 * 0x10000 + (n + 1) % 0x10000)
unfolding ticks tick
ticks-clean_count zero a e f = ground arith
ticks-clean_count (suc n) a e f = ground (
  arith,
  ticks-clean_count n a e f,
  clean-clean_count (ticks n a).logged_set true,
  clean-clean_count (ticks n a).logged_set false,
)
