-- ===== src/Limited/Rate/PreWrite.antt =====
-- What preWrite grants: progress, and bounds on one second.
use Prim.Native.Nat.{min}
use go_openbmclapi.Prelude.{
  ℕ, ◌+◌, ◌*◌, ◌≤◌, ◌<◌, ◌≡◌, ◌⊎◌, refl, Bool, true, false, List, [], ◌∷◌, arith, leb,
  if◌then◌else◌, Bool-cases, inl, inr, length,
}
use go_openbmclapi.Prelude.Int.{pos, pos_part, leb_ℤ, add_int64, ◌+ℤ◌, wrap64}
use go_openbmclapi.Limited.Rate.{RateController, rest_of_second, charge_write, pre_write, at_most}

-- A controller that limits writes: its rate, its least rate and its count, which is far from overflow.
pub record Limits (l : RateController) (rate least count : ℕ) : Type 0 where
  pub rate_at : l.write_rate ≡ pos rate
  pub least_at : l.min_write_rate ≡ pos least
  pub count_at : l.wrote_count ≡ pos count
  pub rate_pos : 0 < rate
  pub rate_small : rate < 0x4000000000000000
  pub count_small : count < rate + rate

-- A new second begins with this call.
abbrev pub is_fresh : RateController → ℕ → Bool
is_fresh l now = leb_ℤ (rest_of_second now l.last_write) (pos 0)

-- The bytes that are granted of k, and the count afterwards.
abbrev pub granted : Bool → ℕ → ℕ → ℕ → ℕ → ℕ
granted fresh rate least count k =
    if fresh then min k rate else if leb rate count then min least k else min k rate

abbrev pub counted : Bool → ℕ → ℕ → ℕ → ℕ
counted fresh rate count k =
    if fresh then min k rate else if leb rate count then count else count + min k rate

add_pos : (a b : ℕ) → a + b < 0x8000000000000000 → add_int64 (pos a) (pos b) ≡ pos (a + b)
unfolding add_int64 ◌+ℤ◌ wrap64
add_pos a b h = ground arith

charge_write_lem :
    (l : RateController) (rate count k : ℕ)
    → l.write_rate ≡ pos rate
    → l.wrote_count ≡ pos count
    → count + rate < 0x8000000000000000
    → ((charge_write (pos k) l).0.0 ≡ pos (min k rate))
      × ((charge_write (pos k) l).1 ≡ record l { wrote_count = pos (count + min k rate) })
unfolding charge_write
charge_write_lem l rate count k e f h = ground (arith, add_pos count rate, add_pos count k)

module _ (l : RateController) (rate least count k now : ℕ) (lim : Limits l rate least count)
    (asked : 0 < k) where
  abbrev new_second : RateController
  new_second = record l { last_write = now; wrote_count = pos 0 }

  fresh_lem : is_fresh l now ≡ true → pre_write (pos k) now l ≡ charge_write (pos k) new_second
  unfolding pre_write
  fresh_lem h = ground (arith, lim.rate_at, lim.rate_pos)

  full_lem :
      is_fresh l now ≡ false
      → leb rate count ≡ true
      → pre_write (pos k) now l
        ≡ ((at_most l.min_write_rate (pos k), rest_of_second now l.last_write), l)
  unfolding pre_write
  full_lem h f = ground (arith, lim.rate_at, lim.rate_pos, lim.count_at)

  open_lem :
      is_fresh l now ≡ false
      → leb rate count ≡ false
      → pre_write (pos k) now l ≡ charge_write (pos k) l
  unfolding pre_write
  open_lem h f = ground (arith, lim.rate_at, lim.rate_pos, lim.count_at)

  pub pre_write-granted :
      (pre_write (pos k) now l).0.0 ≡ pos (granted (is_fresh l now) rate least count k)
  pre_write-granted = elim (Bool-cases (is_fresh l now)) [
    | inl fresh ↦
        rw (fresh_lem fresh, fresh)
          (charge_write_lem new_second rate 0 k lim.rate_at refl (omega arith)).0
    | inr same ↦ elim (Bool-cases (leb rate count)) [
      | inl full ↦ rw (full_lem same full, same, full) (ground (arith, lim.least_at))
      | inr room ↦
          rw (open_lem same room, same, room)
            (charge_write_lem l rate count k lim.rate_at lim.count_at
              (ground (arith, lim.rate_small))).0
    ]
  ]

  -- The other fields, too, stay as they are.
  pub pre_write-state : (pre_write (pos k) now l).1 ≡ (
      if is_fresh l now
      then record l { last_write = now; wrote_count = pos (counted (is_fresh l now) rate count k) }
      else record l { wrote_count = pos (counted (is_fresh l now) rate count k) })
  pre_write-state = elim (Bool-cases (is_fresh l now)) [
    | inl fresh ↦
        rw (fresh_lem fresh, fresh)
          (ground (arith, (charge_write_lem new_second rate 0 k lim.rate_at refl (omega arith)).1))
    | inr same ↦ elim (Bool-cases (leb rate count)) [
      | inl full ↦ rw (full_lem same full, same, full) (ground (arith, lim.count_at))
      | inr room ↦
          rw (open_lem same room, same, room)
            (ground (arith, charge_write_lem l rate count k lim.rate_at lim.count_at))
    ]
  ]

  pub pre_write-Limits :
      Limits (pre_write (pos k) now l).1 rate least (counted (is_fresh l now) rate count k)
  pre_write-Limits = rw pre_write-state (record {
    rate_at = ground (arith, lim.rate_at);
    least_at = ground (arith, lim.least_at);
    count_at = ground arith;
    rate_pos = lim.rate_pos;
    rate_small = lim.rate_small;
    count_small = ground (arith, lim.count_small, lim.rate_pos);
  })

  -- Let the controller keep its limits (a positive rate below 2 ^ 62, and a count below twice the
  -- rate), with a positive least rate. A write of a positive length is granted at least one byte,
  -- no more than it asks for, and no more than the rate or the least rate.
  pub pre_write_bounds :
      0 < least
      → (m : ℕ) × ((pre_write (pos k) now l).0.0 ≡ pos m)
        × (0 < m)
        × (m ≤ k)
        × ((m ≤ rate) ⊎ (m ≤ least))
  pre_write_bounds positive = (
    granted (is_fresh l now) rate least count k,
    pre_write-granted,
    ground (arith, lim.rate_pos),
    ground arith,
    ground arith,
  )

-- Writes of the given lengths, asked for at the given times: how much is granted in all.
pub granted_in_all : List (ℕ × ℕ) → RateController → ℕ
granted_in_all [] l = 0
granted_in_all ((k, now) ∷ rest) l =
    let ((m, d), l') = pre_write (pos k) now l in pos_part m + granted_in_all rest l'

-- Each asks for something, within the second that began at the controller's last write.
abbrev pub WithinSecond : ℕ → List (ℕ × ℕ) → Type 0
WithinSecond last [] = Unit
WithinSecond last ((k, now) ∷ rest) =
    (0 < k) × (leb_ℤ (rest_of_second now last) (pos 0) ≡ false) × WithinSecond last rest

-- Within the second of a controller that keeps the limits (a positive rate below 2 ^ 62, a least
-- rate, and `count` bytes charged so far, fewer than twice the rate), the bytes granted to any
-- sequence of writes of positive lengths and those charged before it are together at most twice the
-- rate, plus the least rate for each write.
pub second_bounded :
    (asks : List (ℕ × ℕ)) (l : RateController) (rate least count : ℕ)
    → Limits l rate least count
    → WithinSecond l.last_write asks
    → granted_in_all asks l + count ≤ rate + rate + length asks * least
unfolding granted_in_all
second_bounded [] l rate least count lim w = omega (arith, lim.count_small)
second_bounded ((k, now) ∷ rest) l rate least count lim w =
    let next = (pre_write (pos k) now l).1 in
    let same : next.last_write ≡ l.last_write =
      rw (pre_write-state l rate least count k now lim w.0, w.1) refl in
    let ih =
      second_bounded rest next rate least (counted false rate count k)
        (rw w.1 at (pre_write-Limits l rate least count k now lim w.0)) (rw same w.2) in
    rw (pre_write-granted l rate least count k now lim w.0, w.1) (ground (arith, ih))
