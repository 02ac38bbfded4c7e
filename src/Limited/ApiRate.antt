-- ===== src/Limited/ApiRate.antt =====
-- limited/api_rate.go: the per-minute and per-hour request limits.
-- Each call of `try`, `release` and `clean` is one step here: the model has no two goroutines inside
-- them at once. A `*atomic.Int64` in a map is the number that it holds.
-- A mask of low bits is written as a remainder, and the union of disjoint masks as a sum.
pub mod Counters
pub mod Stages
pub mod Admission
pub mod Periods
pub mod Middle
pub mod Cleaning
pub mod Serving
pub mod Tests
use go_openbmclapi.Prelude.{
  ℕ, ◌+◌, ◌*◌, ◌/◌, ◌%◌, String, Bool, true, false, ◌&&◌, ◌||◌, not, Option, none, some, ltb, leb,
  ◌==◌, if◌then◌else◌,
}
use go_openbmclapi.Prelude.Int.{ℤ, pos, negsuc, ltb_ℤ, eqb_ℤ, add_int64, sub_int64}
use go_openbmclapi.Prelude.Eq.{string_eq}
use go_openbmclapi.Prelude.GoMap.{GoMap, make, lookup, insert}

pub record RateLimit : Type 0 where
  pub per_min : ℤ
  pub per_hour : ℤ

pub record LimitSet : Type 0 where
  pub limit : RateLimit
  pub open limit use *
  pub clean_count : ℕ
  pub access_min : GoMap String ℤ
  pub access_hour : GoMap String ℤ

unfoldable pub make_limit_set : RateLimit → LimitSet
make_limit_set l = record { limit = l; clean_count = 1; access_min = make; access_hour = make }

-- What `try` returns: the requests left in the hour and in the minute, and the clean id; or the
-- panic of a call on a nil counter.
pub data Tried : Type 0 where
  tried : ℤ → ℤ → ℤ → Tried
  panicked : Tried

abbrev pub check_hour : LimitSet → Bool
check_hour s = ltb_ℤ (pos 0) s.per_hour

abbrev pub check_min : LimitSet → Bool
check_min s = ltb_ℤ (pos 0) s.per_min

unfoldable pub has : GoMap String ℤ → String → Bool
has m id = elim (lookup m id) [ none ↦ false | some _ ↦ true ]

-- The value of a counter; a counter that is missing is made with 0 before it is used.
unfoldable pub counter : GoMap String ℤ → String → ℤ
counter m id = elim (lookup m id) [ none ↦ pos 0 | some n ↦ n ]

unfoldable pub ensure : GoMap String ℤ → String → GoMap String ℤ
unfolding has
ensure m id = if has m id then m else insert m id (pos 0)

-- Add on the counter of `id`.
unfoldable pub bump : GoMap String ℤ → String → ℤ → GoMap String ℤ
unfolding counter
bump m id d = insert m id (add_int64 (counter m id) d)

-- The first part under the lock: a missing hour counter is made, and the minute's with it.
unfoldable pub ensure_hour : LimitSet → String → LimitSet
ensure_hour s id = if has s.access_hour id then s else record s {
  access_hour = ensure s.access_hour id;
  access_min = if check_min s then ensure s.access_min id else s.access_min;
}

-- The minute's part, once the hour's has passed with `left_hour` (`checked_hour` says whether it ran).
unfoldable pub try_min : LimitSet → String → Bool → ℤ → Tried × LimitSet
try_min s id checked_hour left_hour =
    let counted = record s { access_min = bump (ensure s.access_min id) id (pos 1) } in
    let left_min = sub_int64 s.per_min (counter counted.access_min id) in
    if ltb_ℤ left_min (pos 0)
    then (if checked_hour
        then (
          tried left_hour (pos 0) (pos 0),
          record counted {
            access_hour = bump s.access_hour id (negsuc 0);
            access_min = bump counted.access_min id (negsuc 0);
          },
        )
        else (panicked, counted))
    else (tried left_hour left_min (pos s.clean_count), counted)

unfoldable pub try_after_hour : LimitSet → String → Bool → ℤ → Tried × LimitSet
unfolding try_min
try_after_hour s id checked_hour left_hour =
    if check_min s
    then try_min s id checked_hour left_hour
    else (tried left_hour (negsuc 0) (pos s.clean_count), s)

unfoldable pub try_hour : LimitSet → String → Tried × LimitSet
unfolding try_after_hour ensure_hour
try_hour s0 id =
    let s = ensure_hour s0 id in
    let counted = record s { access_hour = bump s.access_hour id (pos 1) } in
    let left_hour = sub_int64 s.per_hour (counter counted.access_hour id) in
    if ltb_ℤ left_hour (pos 0)
    then (
      tried (pos 0) (if check_min s then pos 0 else negsuc 0) (pos 0),
      record counted { access_hour = bump counted.access_hour id (negsuc 0) },
    )
    else try_after_hour counted id true left_hour

unfoldable pub try : LimitSet → String → Tried × LimitSet
unfolding try_hour
try s id =
    if check_hour s
    then try_hour s id
    else if check_min s
    then try_after_hour s id false (negsuc 0)
    else (tried (negsuc 0) (negsuc 0) (negsuc 0), s)

-- Whether the caller lets the request through: `cleanId == 0` is its refusal.
abbrev pub passed : Tried → Bool
passed (tried _ _ clean_id) = not (eqb_ℤ clean_id (pos 0))
passed panicked = false

-- cleanId & 0xffff and cleanId & 0xff0000
abbrev pub min_bits : ℕ → ℕ
min_bits c = c % 0x10000

abbrev pub hour_bits : ℕ → ℕ
hour_bits c = c / 0x10000 % 0x100 * 0x10000

-- A counter that was cleared away meanwhile is not brought back.
unfoldable pub drop_one : GoMap String ℤ → String → GoMap String ℤ
unfolding has
drop_one m id = if has m id then bump m id (negsuc 0) else m

unfoldable pub release_nat : LimitSet → String → ℕ → LimitSet
release_nat s id clean_id = if not (check_hour s) && not (check_min s) then s else (record s {
  access_hour =
      if check_hour s && (hour_bits clean_id == hour_bits s.clean_count)
      then drop_one s.access_hour id
      else s.access_hour;
  access_min =
      if check_min s && (min_bits clean_id == min_bits s.clean_count)
      then drop_one s.access_min id
      else s.access_min;
})

unfoldable pub release : LimitSet → String → ℤ → LimitSet
unfolding release_nat
release s id (pos n) = if n == 0 then s else release_nat s id n
release s id (negsuc n) = s

unfoldable pub clean : LimitSet → Bool → LimitSet
clean s hour =
    let c = hour_bits s.clean_count + min_bits (s.clean_count + 1) in
    if hour
    then record s {
      clean_count = hour_bits (c + 0x10000) + min_bits c;
      access_min = make;
      access_hour = make;
    }
    else record s { clean_count = c; access_min = make }
