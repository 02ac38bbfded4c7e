-- ===== src/Limited/ApiRate/Periods.antt =====
-- Many calls: requests in a row, a request given back, and the clean-up that opens a new period.
use Prim.Native.Nat.{min}
use go_openbmclapi.Prelude.{
  ℕ, zero, suc, ◌+◌, ◌-◌, ◌≤◌, ◌<◌, String, ◌≡◌, ◌≢◌, inl, inr, Bool, true, false, arith,
  if◌then◌else◌, Bool-cases,
}
use go_openbmclapi.Prelude.Int.{ℤ, pos, pos_part, ltb_ℤ}
use go_openbmclapi.Prelude.Eq.{string_eq, ==-self}
use go_openbmclapi.Limited.ApiRate.{
  LimitSet, panicked, passed, counter, ensure_hour, try_min, try_after_hour, try_hour, try,
  check_hour, check_min,
}
use go_openbmclapi.Limited.ApiRate.Counters.{counted_lem, left_lem}
use go_openbmclapi.Limited.ApiRate.Stages.{InQuota, admits}
use go_openbmclapi.Limited.ApiRate.Admission.{try_answer, try_hour_counts, try_min_counts}

try_min-keeps :
    (s : LimitSet) (id : String) (c : Bool) (l : ℤ)
    → ((try_min s id c l).1.limit ≡ s.limit) × ((try_min s id c l).1.clean_count ≡ s.clean_count)
unfolding try_min
try_min-keeps s id c l = ground arith

-- No call changes the limits or the clean count.
pub try-keeps :
    (s : LimitSet) (id : String)
    → ((try s id).1.limit ≡ s.limit) × ((try s id).1.clean_count ≡ s.clean_count)
unfolding try try_hour try_after_hour ensure_hour
try-keeps s id = ground arith

-- n requests of one client, one after another: how many pass.
pub tries : ℕ → LimitSet → String → ℕ
tries zero s id = 0
tries (suc n) s id = let (answer, s') = try s id in (if passed answer then 1 else 0) + tries n s' id

-- What is left of a limit for the next n requests.
abbrev spare : ℤ → ℕ → ℕ → ℕ
spare limit used n = if ltb_ℤ (pos 0) limit then min n (pos_part limit - used) else n

next-InQuota :
    (s : LimitSet) (id : String) (h m : ℕ) (q : InQuota s id h m)
    → check_hour s ≡ true
    → admits s h m ≡ true
    → pos_part s.per_hour < 0x7fffffffffffffff
    → pos_part s.per_min < 0x7fffffffffffffff
    → InQuota (try s id).1 id (h + 1) (if check_min s then m + 1 else m)
next-InQuota s id h m q on ok a b = record {
  hour_at = ground (arith, try_hour_counts s id h m q on id, ==-self id);
  min_at = ground (arith, try_min_counts s id h m q on id, ==-self id, q.min_at);
  hour_small = ground arith;
  min_small = ground arith;
  hour_limit = rw (try-keeps s id).0 (omega arith);
  min_limit = rw (try-keeps s id).0 (omega arith);
}

same-InQuota :
    (s : LimitSet) (id : String) (h m : ℕ) (q : InQuota s id h m)
    → check_hour s ≡ true
    → admits s h m ≡ false
    → InQuota (try s id).1 id h m
same-InQuota s id h m q on no_room = record {
  hour_at = ground (arith, try_hour_counts s id h m q on id, q.hour_at);
  min_at = ground (arith, try_min_counts s id h m q on id, q.min_at);
  hour_small = q.hour_small;
  min_small = q.min_small;
  hour_limit = rw (try-keeps s id).0 q.hour_limit;
  min_limit = rw (try-keeps s id).0 q.min_limit;
}

-- Let the counters of a client be natural numbers h and m far from overflow, and the hour limit be
-- on. Let also the limits be below the greatest int64 and the clean count not be 0. Of n requests
-- in a row by the client, exactly as many are let through as are left in both limits, or all n if
-- that is fewer.
pub tries-eq-spare :
    (n : ℕ) (s : LimitSet) (id : String) (h m : ℕ)
    → InQuota s id h m
    → check_hour s ≡ true
    → s.clean_count ≢ 0
    → pos_part s.per_hour < 0x7fffffffffffffff
    → pos_part s.per_min < 0x7fffffffffffffff
    → tries n s id ≡ spare s.per_min m (spare s.per_hour h n)
unfolding tries
tries-eq-spare zero s id h m q on c a b = ground arith
tries-eq-spare (suc n) s id h m q on c a b = elim (Bool-cases (admits s h m)) [
  | inl ok ↦ ground (
    arith,
    try_answer s id h m q on,
    try-keeps s id,
    tries-eq-spare n (try s id).1 id (h + 1) (if check_min s then m + 1 else m)
        (next-InQuota s id h m q on ok a b),
  )
  | inr full ↦ ground (
    arith,
    try_answer s id h m q on,
    try-keeps s id,
    tries-eq-spare n (try s id).1 id h m (same-InQuota s id h m q on full),
  )
]

-- If the hour limit is off, the minute limit on, and the client has used up the minute, try panics
-- on the missing hour counter, and the minute's count keeps the refused request.
pub try_panics :
    (s : LimitSet) (id : String) (m : ℕ)
    → check_hour s ≡ false
    → check_min s ≡ true
    → counter s.access_min id ≡ pos m
    → pos_part s.per_min ≤ m
    → m < 0x7fffffffffffffff
    → ((try s id).0 ≡ panicked) × (counter (try s id).1.access_min id ≡ pos (m + 1))
unfolding try
try_panics s id m off on at full small =
    ground (arith, counted_lem s.access_min id m at small, left_lem (pos_part s.per_min) (m + 1))

-- Let the counters of a client be natural numbers h and m far from overflow, and the hour limit be
-- on. If the clean count is 0, the request is refused, whatever was counted.
pub zero_clean_count_refuses :
    (s : LimitSet) (id : String) (h m : ℕ)
    → InQuota s id h m
    → check_hour s ≡ true
    → s.clean_count ≡ 0
    → passed (try s id).0 ≡ false
zero_clean_count_refuses s id h m q on z = ground (arith, try_answer s id h m q on)
