-- ===== src/Limited/ApiRate/Stages.antt =====
-- The parts of `try`, the hour's and the minute's: the answer and the counters of each.
use go_openbmclapi.Prelude.{
  ℕ, ◌+◌, ◌-◌, ◌<◌, String, ◌≡◌, Bool, true, false, ◌&&◌, ◌||◌, not, arith, if◌then◌else◌, ltb,
}
use go_openbmclapi.Prelude.Int.{ℤ, pos, negsuc, pos_part, ltb_ℤ, sub_ℕ, sub_int64}
use go_openbmclapi.Prelude.Eq.{string_eq, ◌==◌, ==-self}
use go_openbmclapi.Limited.ApiRate.{
  LimitSet, tried, counter, ensure, bump, ensure_hour, try_min, try_after_hour, try_hour, try,
}
use go_openbmclapi.Limited.ApiRate.Counters.{
  counter-bump, counter-ensure, counted_lem, taken_back, left_lem,
}

-- The counters of `id` are natural numbers within the limits that are checked, far from overflow.
pub record InQuota (s : LimitSet) (id : String) (h m : ℕ) : Type 0 where
  pub hour_at : counter s.access_hour id ≡ pos h
  pub min_at : counter s.access_min id ≡ pos m
  pub hour_small : h < 0x7fffffffffffffff
  pub min_small : m < 0x7fffffffffffffff
  pub hour_limit : pos_part s.per_hour < 0x8000000000000000
  pub min_limit : pos_part s.per_min < 0x8000000000000000

-- A request passes if each limit that is on leaves room for one more.
abbrev pub room : ℤ → ℕ → Bool
room limit n = not (ltb_ℤ (pos 0) limit) || ltb n (pos_part limit)

abbrev pub admits : LimitSet → ℕ → ℕ → Bool
admits s h m = room s.per_hour h && room s.per_min m

-- What `try` answers: the limit less the requests counted with this one, or -1 for a limit that is
-- off; a refusal has clean id 0, and 0 left in each limit that was reached or not looked at.
abbrev pub left : ℤ → ℕ → ℤ
left limit n = if ltb_ℤ (pos 0) limit then pos (pos_part limit - n - 1) else negsuc 0

-- The minute's part, over the facts that it needs.
module _ (s : LimitSet) (id : String) (m : ℕ) (at : counter s.access_min id ≡ pos m)
    (small : m < 0x7fffffffffffffff) (limit : pos_part s.per_min < 0x8000000000000000) where
  try_min-passes :
      (c : Bool) (l : ℤ)
      → ltb_ℤ (pos 0) s.per_min ≡ true
      → ltb m (pos_part s.per_min) ≡ true
      → try_min s id c l ≡ (
        tried l (pos (pos_part s.per_min - m - 1)) (pos s.clean_count),
        record s { access_min = bump (ensure s.access_min id) id (pos 1) },
      )
  unfolding try_min
  try_min-passes c l on r =
      ground (arith, counted_lem s.access_min id m at small, left_lem (pos_part s.per_min) (m + 1))

  try_min-refuses :
      (l : ℤ)
      → ltb_ℤ (pos 0) s.per_min ≡ true
      → ltb m (pos_part s.per_min) ≡ false
      → try_min s id true l ≡ (
        tried l (pos 0) (pos 0),
        record s {
          access_hour = bump s.access_hour id (negsuc 0);
          access_min = bump (bump (ensure s.access_min id) id (pos 1)) id (negsuc 0);
        },
      )
  unfolding try_min
  try_min-refuses l on r =
      ground (arith, counted_lem s.access_min id m at small, left_lem (pos_part s.per_min) (m + 1))

  -- What follows a passed hour: the answer, and both maps of counters.
  pub after_hour_answer :
      (l : ℤ)
      → (try_after_hour s id true l).0 ≡ (
          if room s.per_min m
          then tried l (left s.per_min m) (pos s.clean_count)
          else tried l (pos 0) (pos 0))
  unfolding try_after_hour
  after_hour_answer l = ground (arith, try_min-passes true l, try_min-refuses l)

  pub after_hour_hour :
      (l : ℤ) (j : String)
      → counter (try_after_hour s id true l).1.access_hour j ≡ (
          if room s.per_min m
          then counter s.access_hour j
          else counter (bump s.access_hour id (negsuc 0)) j)
  unfolding try_after_hour
  after_hour_hour l j = ground (arith, try_min-passes true l, try_min-refuses l)

  pub after_hour_min :
      (l : ℤ) (j : String)
      → counter (try_after_hour s id true l).1.access_min j ≡ (
          if (ltb_ℤ (pos 0) s.per_min && ltb m (pos_part s.per_min)) && (id == j)
          then pos (m + 1)
          else counter s.access_min j)
  unfolding try_after_hour
  after_hour_min l j = ground (
    arith,
    try_min-passes true l,
    try_min-refuses l,
    taken_back s.access_min id m at small j,
    counter-bump (ensure s.access_min id) id j (pos 1),
    counter-ensure s.access_min id j,
    counted_lem s.access_min id m at small,
    string_eq.agrees id j,
  )

pub ensure_hour-hour :
    (s : LimitSet) (id : String) → (ensure_hour s id).access_hour ≡ ensure s.access_hour id
unfolding ensure_hour ensure
ensure_hour-hour s id = ground arith

pub ensure_hour-min :
    (s : LimitSet) (id j : String)
    → counter (ensure_hour s id).access_min j ≡ counter s.access_min j
unfolding ensure_hour
ensure_hour-min s id j = ground (arith, counter-ensure s.access_min id j)

pub ensure_hour-limit :
    (s : LimitSet) (id : String)
    → ((ensure_hour s id).limit ≡ s.limit) × ((ensure_hour s id).clean_count ≡ s.clean_count)
unfolding ensure_hour
ensure_hour-limit s id = ground arith

abbrev pub counted : LimitSet → String → LimitSet
counted s id = record (ensure_hour s id) {
  access_hour = bump (ensure_hour s id).access_hour id (pos 1);
}

module _ (s : LimitSet) (id : String) (h m : ℕ) (q : InQuota s id h m)
    (on : ltb_ℤ (pos 0) s.per_hour ≡ true) where
  pub counted_hour :
      (j : String)
      → counter (counted s id).access_hour j
        ≡ (if id == j then pos (h + 1) else counter s.access_hour j)
  counted_hour j = rw (ensure_hour-hour s id) (
      ground (
        arith,
        counted_lem s.access_hour id h q.hour_at q.hour_small,
        counter-bump (ensure s.access_hour id) id j (pos 1),
        counter-ensure s.access_hour id j,
        string_eq.agrees id j,
      ))

  pub counted_back :
      (j : String)
      → counter (bump (counted s id).access_hour id (negsuc 0)) j ≡ counter s.access_hour j
  counted_back j =
      rw (ensure_hour-hour s id) (taken_back s.access_hour id h q.hour_at q.hour_small j)

  counted_left :
      sub_int64 (ensure_hour s id).per_hour (counter (counted s id).access_hour id)
      ≡ sub_ℕ (pos_part s.per_hour) (h + 1)
  counted_left = ground (
    arith,
    counted_hour id,
    ==-self id,
    ensure_hour-limit s id,
    left_lem (pos_part s.per_hour) (h + 1),
  )

  pub try-passes :
      ltb h (pos_part s.per_hour) ≡ true
      → try s id ≡ try_after_hour (counted s id) id true (left s.per_hour h)
  unfolding try try_hour
  try-passes r = ground (arith, counted_left)

  pub try-refuses :
      ltb h (pos_part s.per_hour) ≡ false
      → try s id ≡ (
        tried (pos 0) (if ltb_ℤ (pos 0) s.per_min then pos 0 else negsuc 0) (pos 0),
        record (counted s id) { access_hour = bump (counted s id).access_hour id (negsuc 0) },
      )
  unfolding try try_hour
  try-refuses r = ground (arith, counted_left, ensure_hour-limit s id)
