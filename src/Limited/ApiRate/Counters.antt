-- ===== src/Limited/ApiRate/Counters.antt =====
-- The counters of a limit set: what each operation on one counter does to every counter.
use go_openbmclapi.Prelude.{ℕ, ◌+◌, ◌<◌, String, ◌≡◌, true, arith, if◌then◌else◌}
use go_openbmclapi.Prelude.Int.{ℤ, pos, negsuc, sub_ℕ, wrap64, add_int64, sub_int64, ◌+ℤ◌, ◌-ℤ◌}
use go_openbmclapi.Prelude.Eq.{string_eq, ◌==◌, ==-self}
use go_openbmclapi.Prelude.GoMap.{GoMap, insert, lookup-insert}
use go_openbmclapi.Limited.ApiRate.{has, counter, ensure, bump, drop_one}

module _ (m : GoMap String ℤ) (k j : String) where
  pub counter-insert : (v : ℤ) → counter (insert m k v) j ≡ (if k == j then v else counter m j)
  unfolding counter
  counter-insert v = ground (arith, lookup-insert m k j v)

  pub counter-ensure : counter (ensure m k) j ≡ counter m j
  unfolding ensure counter
  counter-ensure = ground (arith, lookup-insert m k j (pos 0), string_eq.agrees k j)

  pub has-ensure : has (ensure m k) j ≡ (if k == j then true else has m j)
  unfolding ensure
  has-ensure = ground (arith, lookup-insert m k j (pos 0), string_eq.agrees k j)

  pub counter-bump :
      (d : ℤ) → counter (bump m k d) j ≡ (if k == j then add_int64 (counter m k) d else counter m j)
  unfolding bump
  counter-bump d = ground (arith, lookup-insert m k j (add_int64 (counter m k) d))

  pub has-bump : (d : ℤ) → has (bump m k d) j ≡ (if k == j then true else has m j)
  unfolding bump has
  has-bump d = ground (arith, lookup-insert m k j (add_int64 (counter m k) d))

  pub counter-drop_one : counter (drop_one m k) j ≡ (
      if k == j
      then (if has m k then add_int64 (counter m k) (negsuc 0) else counter m j)
      else counter m j)
  unfolding drop_one
  counter-drop_one = ground (arith, counter-bump (negsuc 0))

-- One more and one less, with no wrap-around.
pub add_one : (n : ℕ) → n < 0x7fffffffffffffff → add_int64 (pos n) (pos 1) ≡ pos (n + 1)
unfolding add_int64 ◌+ℤ◌ wrap64
add_one n h = ground arith

pub sub_one : (n : ℕ) → n < 0x7fffffffffffffff → add_int64 (pos (n + 1)) (negsuc 0) ≡ pos n
unfolding add_int64 ◌+ℤ◌ wrap64
sub_one n h = ground arith

pub left_lem :
    (l n : ℕ)
    → l < 0x8000000000000000
    → n < 0x8000000000000000
    → sub_int64 (pos l) (pos n) ≡ sub_ℕ l n
unfolding sub_int64 ◌-ℤ◌ wrap64
left_lem l n h k = ground arith

-- A request counted, and taken back.
module _ (m : GoMap String ℤ) (k : String) (n : ℕ) (at : counter m k ≡ pos n)
    (fits : n < 0x7fffffffffffffff) where
  pub counted_lem : counter (bump (ensure m k) k (pos 1)) k ≡ pos (n + 1)
  counted_lem =
      rw (counter-bump (ensure m k) k k (pos 1), ==-self k, counter-ensure m k k, at)
        (add_one n fits)

  pub taken_back :
      (j : String) → counter (bump (bump (ensure m k) k (pos 1)) k (negsuc 0)) j ≡ counter m j
  taken_back j = ground (
    arith,
    counter-bump (bump (ensure m k) k (pos 1)) k j (negsuc 0),
    counted_lem,
    counter-bump (ensure m k) k j (pos 1),
    counter-ensure m k j,
    sub_one n fits,
    string_eq.agrees k j,
  )

-- A counter that stands above 0 is in the map.
pub has_of_counter :
    (m : GoMap String ℤ) (k : String) (n : ℕ) → counter m k ≡ pos (n + 1) → has m k ≡ true
unfolding counter has
has_of_counter m k n h = ground arith
