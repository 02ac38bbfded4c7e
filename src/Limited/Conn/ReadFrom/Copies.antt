-- ===== src/Limited/Conn/ReadFrom/Copies.antt =====
-- readFrom copies all of its source.
use Prim.Native.Nat.{min}
use go_openbmclapi.Prelude.{
  ℕ, zero, suc, ◌+◌, ◌-◌, ◌≤◌, ◌<◌, ◌≡◌, true, false, Option, none, some, arith, ltb, if◌then◌else◌,
  Bool-cases, inl, inr,
}
use go_openbmclapi.Prelude.Int.{ℤ, pos, ltb_ℤ, leb_ℤ, sub_int64, wrap64, ◌-ℤ◌}
use go_openbmclapi.Limited.Rate.{RateController, pre_write}
use go_openbmclapi.Limited.Rate.PreWrite.{
  Limits, is_fresh, granted, counted, pre_write-granted, pre_write-Limits,
}
use go_openbmclapi.Limited.Conn.{Result, Times, World, next_after}
use go_openbmclapi.Limited.Conn.Deliver.{KeepsLimits, IsPatient, never_gives_up}
use go_openbmclapi.Limited.Conn.ReadFrom.{ReaderFrom, after_copy, read_from_loop, conn_read_from}

-- The connection copies what it is asked for, or up to the end of a source of `total` bytes, and
-- never fails; lr.N is what it was asked for less what it copied.
pub record IsCopying (rf : ReaderFrom) (total : ℕ) : Type 0 where
  pub copies : (i n m : ℕ) → (rf i n m).n0 ≡ min m (total - n)
  pub leaves : (i n m : ℕ) → (rf i n m).unread ≡ m - min m (total - n)
  pub no_error : (i n m : ℕ) → (rf i n m).error ≡ none

sub_pos : (a b : ℕ) → b ≤ a → a < 0x8000000000000000 → sub_int64 (pos a) (pos b) ≡ pos (a - b)
unfolding sub_int64 wrap64 ◌-ℤ◌
sub_pos a b h k = ground arith

-- One copy of m bytes, where `go_on` ends with the whole source.
copy_step :
    (rf : ReaderFrom) (total i n m k : ℕ) (go_on : ℕ → ℤ → Option Result)
    → IsCopying rf total
    → m ≤ k
    → k < 0x8000000000000000
    → (n + m ≤ total → go_on (n + m) (pos (k - m)) ≡ some (record { n = total; error = none }))
    → n ≤ total
    → after_copy n (pos k) (rf i n m) go_on ≡ some (record { n = total; error = none })
copy_step rf total i n m k go_on ok le small later below = elim (Bool-cases (ltb (total - n) m)) [
  | inl short ↦
      let left : ltb 0 (m - min m (total - n)) ≡ true = ground arith in
      let all : n + min m (total - n) ≡ total = ground arith in
      rw (ok.no_error i n m, ok.leaves i n m, ok.copies i n m, left, all)
  | inr full ↦
      let none_left : ltb 0 (m - min m (total - n)) ≡ false = ground arith in
      let copied : min m (total - n) ≡ m = ground arith in
      rw
        (
          ok.no_error i n m,
          ok.leaves i n m,
          ok.copies i n m,
          none_left,
          copied,
          sub_pos k m le small,
        )
        (later (ground arith))
]

abbrev asked : ℕ → ℕ → ℕ
asked least r = if ltb 0 r then r else least

asked_lem :
    (least r : ℕ) (l : RateController)
    → l.min_write_rate ≡ pos least
    → (if leb_ℤ (pos r) (pos 0) then l.min_write_rate else pos r) ≡ pos (asked least r)
asked_lem least r l e = ground arith

pub read_from_loop-copies :
    (fuel i : ℕ) (w : World) (rf : ReaderFrom) (r total n : ℕ) (t : Times) (l : RateController)
    (rate least count : ℕ)
    → IsCopying rf total
    → KeepsLimits w rate least
    → 0 < least
    → least < 0x8000000000000000
    → r < 0x8000000000000000
    → Limits l rate least count
    → IsPatient t
    → n ≤ total
    → total < n + fuel
    → read_from_loop fuel i w rf (pos r) n t l ≡ some (record { n = total; error = none })
unfolding read_from_loop
read_from_loop-copies zero i w rf r total n t l rate least count ok keep positive small small' lim
      patient le enough =
    ground arith
read_from_loop-copies (suc fuel) i w rf r total n t l0 rate least count ok keep positive small
      small' lim patient le enough =
    let l = w.others i l0 in
    let kept = keep.keeps i l0 count lim in
    let k = asked least r in
    let now = (w.clock i).grant_at in
    let some_asked : 0 < k = ground arith in
    let m = granted (is_fresh l now) rate least kept.count k in
    let at : (pre_write (pos k) now l).0.0 ≡ pos m =
      pre_write-granted l rate least kept.count k now kept.limits some_asked in
    let lim' = pre_write-Limits l rate least kept.count k now kept.limits some_asked in
    let positive_m : 0 < m = ground (arith, kept.limits.rate_pos) in
    let m_le : m ≤ k = ground arith in
    let go : ltb_ℤ (pos 0) (pos m) ≡ true = ground arith in
    let next = (pre_write (pos k) now l).1 in
    let t' : Times = record t {
      after = next_after (pre_write (pos k) now l).0.1 (w.clock i).set_at;
    } in
    let small_k : k < 0x8000000000000000 = ground arith in
    rw
      (
        never_gives_up t (w.clock i).wait_at patient,
        asked_lem least r l kept.limits.least_at,
        at,
        go,
      )
      (copy_step rf total i n m k
        (λ n' remain'. read_from_loop fuel (i + 1) w rf remain' n' t' next) ok m_le small_k
        (λ fits.
          read_from_loop-copies fuel (i + 1) w rf (k - m) total (n + m) t' next rate least
            (counted (is_fresh l now) rate kept.count k) ok keep positive small (omega arith) lim'
            patient fits (omega arith))
        le)

-- Let the connection copy what it is asked for up to the end of a source of `total` bytes, and
-- never fail; let the controller keep its limits, with a positive least rate, also whatever other
-- connections do to it between the rounds; and let no write deadline be set. Then readFrom
-- terminates, with one round for each byte and one more as fuel: it reports the whole source and no
-- error, whatever size of the source it was told before.
pub read_from_copies :
    (w : World) (rf : ReaderFrom) (r total : ℕ) (t : Times) (l : RateController)
    (rate least count : ℕ)
    → IsCopying rf total
    → KeepsLimits w rate least
    → 0 < least
    → least < 0x8000000000000000
    → r < 0x8000000000000000
    → Limits l rate least count
    → IsPatient t
    → conn_read_from (total + 1) w rf (pos r) t l ≡ some (record { n = total; error = none })
unfolding conn_read_from
read_from_copies w rf r total t l rate least count ok keep positive small small' lim patient =
    read_from_loop-copies (total + 1) 0 w rf r total 0 t l rate least count ok keep positive small
      small' lim patient (omega arith) (omega arith)
