-- ===== src/Limited/Rate/PreRead.antt =====
-- What preRead grants to one connection.
use go_openbmclapi.Prelude.{ℕ, ◌/◌, ◌<◌, ◌≡◌, arith}
use go_openbmclapi.Prelude.Int.{ℤ, pos, ◌≤ℤ◌, ◌<ℤ◌}
use go_openbmclapi.Limited.Semaphore.{Semaphore, len}
use go_openbmclapi.Limited.Rate.{
  RateController, avg_rate, pre_read, grant_read, start_read, at_most,
}

grant_read-le : (n : ℤ) (l : RateController) → (grant_read n l).0 ≤ℤ n
unfolding grant_read
grant_read-le n l = ground arith

-- A read of a positive length under a positive read rate is granted at most the length, and at most
-- the rate divided among the open connections.
pub pre_read_bounds :
    (n : ℤ) (now : ℕ) (l : RateController)
    → pos 0 <ℤ n
    → pos 0 <ℤ l.read_rate
    → ((pre_read n now l).0 ≤ℤ n) × ((pre_read n now l).0 ≤ℤ avg_rate l.read_rate l.sem)
unfolding pre_read
pre_read_bounds n now l p q =
    ground (arith, grant_read-le (at_most n (avg_rate l.read_rate l.sem)) (start_read now l))

no_share : (rate : ℕ) (s : Semaphore) → rate < len s → avg_rate (pos rate) s ≡ pos 0
unfolding avg_rate
no_share rate s h = let none_left : rate / len s ≡ 0 = grind arith in ground (arith, none_left)

grant_read_zero :
    (least : ℕ) (l : RateController)
    → l.min_read_rate ≡ pos least
    → (grant_read (pos 0) l).0 ≡ pos 0
unfolding grant_read
grant_read_zero least l f = ground arith

-- If there are more open connections than the positive read rate has bytes, a read of a positive length
-- is granted 0 bytes, whatever the least read rate is.
pub pre_read_starves :
    (k now rate least : ℕ) (l : RateController)
    → l.read_rate ≡ pos rate
    → l.min_read_rate ≡ pos least
    → 0 < k
    → 0 < rate
    → rate < len l.sem
    → (pre_read (pos k) now l).0 ≡ pos 0
unfolding pre_read
pre_read_starves k now rate least l e f a b c =
    ground (arith, no_share rate l.sem c, grant_read_zero least (start_read now l))
