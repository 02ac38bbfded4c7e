-- ===== src/Database/ReportTime.antt =====
-- database/db.go: Schedule, the time of day at which a subscriber wants the daily report.
-- Times are nanoseconds since Go's zero time, which is 0; the hour and the minute of `now` in the
-- local zone are arguments.
use go_openbmclapi.Prelude.{
  ℕ, ◌+◌, ◌-◌, ◌*◌, ◌≡◌, ◌⊎◌, ◌↔◌, ◌≤◌, ◌<◌, Bool, true, false, ◌||◌, ◌&&◌, Option, none, some,
  arith, ltb, leb, ◌==◌, if◌then◌else◌,
}
use go_openbmclapi.Prelude.Int.{ℤ, pos, ltb_ℤ, leb_ℤ}

pub record Schedule : Type 0 where
  pub hour : ℕ
  pub minute : ℕ

abbrev pub hours : ℕ → ℕ
hours n = n * 3600000000000

-- UnmarshalText, after Sscanf: what it has scanned, and whether that is kept without an error.
pub unmarshal_text : Option (ℤ × ℤ) → Option (ℤ × ℤ)
unmarshal_text none = none
unmarshal_text (some (h, m)) =
    if ltb_ℤ h (pos 0) || leb_ℤ (pos 24) h
    then none
    else if ltb_ℤ m (pos 0) || leb_ℤ (pos 60) m
    then none
    else some (h, m)

pub ready_since : Schedule → ℕ → ℕ → ℕ → ℕ → Bool
ready_since s last0 now hour min =
    let last = if last0 == 0 then now - hours 24 + 1 else last0 in
    if ltb now (last + hours 12)
    then false
    else if leb (last + hours 24) now
    then true
    else (ltb s.hour hour && ltb hour (s.hour + 3)) || ((s.hour == hour) && leb s.minute min)

-- Less than twelve hours after the last report, the schedule is not ready.
pub ready_since_early :
    (s : Schedule) (last now hour min : ℕ)
    → 0 < last
    → now < last + hours 12
    → ready_since s last now hour min ≡ false
unfolding ready_since
ready_since_early s last now hour min p h = ground arith

-- From twenty-four hours after the last report on, the schedule is ready at any time of day.
pub ready_since_late :
    (s : Schedule) (last now hour min : ℕ)
    → 0 < last
    → last + hours 24 ≤ now
    → ready_since s last now hour min ≡ true
unfolding ready_since
ready_since_late s last now hour min p h = ground arith

-- From the scheduled minute on, up to the end of the second hour after the scheduled one.
abbrev pub InWindow : Schedule → ℕ → ℕ → Type 0
InWindow s hour min = (s.hour * 60 + s.minute ≤ hour * 60 + min) × (hour < s.hour + 3)

-- If there was no report yet, or the last is at least twelve and less than twenty-four hours ago,
-- then the schedule is ready exactly from its minute of the day on, up to the end of the second
-- hour after its hour.
pub ready_since_window :
    (s : Schedule) (last now hour min : ℕ)
    → min < 60
    → s.minute < 60
    → hours 24 ≤ now
    → ((last ≡ 0) ⊎ ((last + hours 12 ≤ now) × (now < last + hours 24)))
    → (ready_since s last now hour min ≡ true) ↔ InWindow s hour min
unfolding ready_since
ready_since_window s last now hour min a b c d = ground arith
