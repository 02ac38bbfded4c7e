-- ===== src/Limited/ApiRate/Admission.antt =====
-- `try` against an independent description: which requests pass, and what each counter is afterwards.
use go_openbmclapi.Prelude.{
  ℕ, ◌∙◌, ◌+◌, ◌<◌, String, ◌≡◌, inl, inr, true, ◌&&◌, arith, if◌then◌else◌, ltb, Bool-cases,
}
use go_openbmclapi.Prelude.Int.{pos, negsuc, pos_part}
use go_openbmclapi.Prelude.Eq.{string_eq, ◌==◌}
use go_openbmclapi.Limited.ApiRate.{LimitSet, tried, counter, try, check_hour, check_min}
use go_openbmclapi.Limited.ApiRate.Stages.{
  InQuota, room, admits, left, counted, after_hour_answer, after_hour_hour, after_hour_min,
  counted_hour, counted_back, try-passes, try-refuses, ensure_hour-min, ensure_hour-limit,
}

module _ (s : LimitSet) (id : String) (h m : ℕ) (q : InQuota s id h m)
    (on : check_hour s ≡ true) where
  min_at' : counter (counted s id).access_min id ≡ pos m
  min_at' = ensure_hour-min s id id ∙ q.min_at

  min_limit' : pos_part (counted s id).per_min < 0x8000000000000000
  min_limit' = rw (ensure_hour-limit s id).0 q.min_limit

  -- Let the counters of a client be natural numbers h and m far from overflow, and the hour limit
  -- be on. try lets the request through exactly if each limit that is on leaves room for one more,
  -- and answers what is then left of each limit (-1 for a minute limit that is off) with the clean
  -- count. A refusal has clean id 0: if the hour has room it answers what is left of the hour and 0
  -- for the minute, and otherwise 0 for the hour, and 0 for the minute (-1 if its limit is off).
  pub try_answer : (try s id).0 ≡ (
      if admits s h m
      then tried (left s.per_hour h) (left s.per_min m) (pos s.clean_count)
      else if room s.per_hour h
      then tried (left s.per_hour h) (pos 0) (pos 0)
      else tried (pos 0) (if check_min s then pos 0 else negsuc 0) (pos 0))
  try_answer = elim (Bool-cases (ltb h (pos_part s.per_hour))) [
    | inl r ↦ rw (try-passes s id h m q on r) (
        ground (
          arith,
          after_hour_answer (counted s id) id m min_at' q.min_small min_limit' (left s.per_hour h),
          ensure_hour-limit s id,
        ))
    | inr r ↦ rw (try-refuses s id h m q on r) (ground arith)
  ]

  -- Let the counters of a client be natural numbers h and m far from overflow, and the hour limit
  -- be on. try counts a request in the hour of its client if it lets it through; it changes the
  -- hour's count of no other client, and of none if it refuses.
  pub try_hour_counts :
      (j : String)
      → counter (try s id).1.access_hour j
        ≡ (if admits s h m && (id == j) then pos (h + 1) else counter s.access_hour j)
  try_hour_counts j = elim (Bool-cases (ltb h (pos_part s.per_hour))) [
    | inl r ↦ rw (try-passes s id h m q on r) (
        ground (
          arith,
          after_hour_hour (counted s id) id m min_at' q.min_small min_limit' (left s.per_hour h) j,
          ensure_hour-limit s id,
          counted_hour s id h m q on j,
          counted_back s id h m q on j,
        ))
    | inr r ↦ rw (try-refuses s id h m q on r) (ground (arith, counted_back s id h m q on j))
  ]

  -- Let the counters of a client be natural numbers h and m far from overflow, and the hour limit
  -- be on. try counts a request in the minute of its client if the minute limit is on and it lets
  -- the request through; it changes the minute's count of no other client, and of none if it
  -- refuses.
  pub try_min_counts :
      (j : String)
      → counter (try s id).1.access_min j ≡ (
          if (check_min s && admits s h m) && (id == j)
          then pos (m + 1)
          else counter s.access_min j)
  try_min_counts j = elim (Bool-cases (ltb h (pos_part s.per_hour))) [
    | inl r ↦ rw (try-passes s id h m q on r) (
        ground (
          arith,
          after_hour_min (counted s id) id m min_at' q.min_small min_limit' (left s.per_hour h) j,
          ensure_hour-limit s id,
          ensure_hour-min s id j,
        ))
    | inr r ↦ rw (try-refuses s id h m q on r) (ground (arith, ensure_hour-min s id j))
  ]
