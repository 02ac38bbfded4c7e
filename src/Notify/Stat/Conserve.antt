-- ===== src/Notify/Stat/Conserve.antt =====
-- Nothing that was counted in a year is lost, as long as the clock goes forward from month to month.
use go_openbmclapi.Prelude.{◌≡◌, ◌≢◌, refl, Bool, Option, none, some, arith, List, [], ◌∷◌}
use go_openbmclapi.Notify.Stat.{
  StatInstData, StatTime, StatData, add, roll_month, roll_day, roll_hour, roll, count_in, update,
}
use go_openbmclapi.Notify.Stat.Hours.{
  roll_hour-Rolled, roll_hour-IsTidy, roll_day-IsTidy, roll_month-IsTidy,
}
use go_openbmclapi.Notify.Stat.Rolled.{
  year_total, IsTidy, Follows, same_day, same_month, next_month, roll_day-Rolled, roll_month-Rolled,
}

update-Counted :
    (is_last_day : StatTime → Bool) (now : StatTime) (n : StatInstData) (d : StatData)
    → IsTidy d
    → d.date.year ≢ 0
    → Follows d.date now
    → (e : StatData) × (update is_last_day now n d ≡ some e)
      × (e.date ≡ now)
      × (year_total e ≡ add (year_total d) n)
      × IsTidy e
unfolding update roll
update-Counted is_last_day now n d tidy used (same_day y m dd h) = (
  count_in now n (roll_hour now d),
  ground arith,
  unfold count_in in refl,
  roll_hour-Rolled d now tidy m dd h n,
  roll_hour-IsTidy d now n tidy h,
)
update-Counted is_last_day now n d tidy used (same_month y m dd) = (
  count_in now n (roll_day now d),
  ground arith,
  unfold count_in in refl,
  roll_day-Rolled d now m dd n,
  roll_day-IsTidy d now n,
)
update-Counted is_last_day now n d tidy used (next_month y m) = (
  count_in now n (roll_month is_last_day now d),
  ground arith,
  unfold count_in in refl,
  roll_month-Rolled is_last_day d now m n,
  roll_month-IsTidy is_last_day d now n m,
)

-- Updates one after another, each at its time; `none` if one panics.
pub updates : (StatTime → Bool) → List (StatTime × StatInstData) → StatData → Option StatData
updates is_last_day [] d = some d
updates is_last_day ((now, n) ∷ rest) d = elim (update is_last_day now n d) [
  | none ↦ none
  | some e ↦ updates is_last_day rest e
]

-- Each time follows the one before it.
pub data Chain : StatTime → List (StatTime × StatInstData) → Type 0 where
  end : {t : StatTime} → Chain t []
  link :
      {t u : StatTime} {n : StatInstData} {rest : List (StatTime × StatInstData)}
      → Follows t u
      → Chain u rest
      → Chain t ((u, n) ∷ rest)

pub total_of : StatInstData → List (StatTime × StatInstData) → StatInstData
total_of acc [] = acc
total_of acc ((now, n) ∷ rest) = total_of (add acc n) rest

year_of : {t u : StatTime} → Follows t u → t.year ≡ u.year
year_of (same_day y _ _ _) = y
year_of (same_month y _ _) = y
year_of (next_month y _) = y

-- Let the statistics be of some year, with no hour counted in after the stored one. If each of a
-- sequence of updates follows the one before it (the same day and no earlier hour, a later day of
-- the same month, or the next month of the same year), all of them succeed, and the months, days
-- and hours that the statistics hold of the year sum up to what they held before, plus every update.
pub updates-year_total :
    (is_last_day : StatTime → Bool) (d : StatData) (calls : List (StatTime × StatInstData))
    → IsTidy d
    → d.date.year ≢ 0
    → Chain d.date calls
    → (e : StatData) × (updates is_last_day calls d ≡ some e)
      × (year_total e ≡ total_of (year_total d) calls)
unfolding updates total_of
updates-year_total is_last_day d [] tidy used c = (d, refl, refl)
updates-year_total is_last_day d ((now, n) ∷ rest) tidy used (link f c) =
    let (e, done, date, sum, tidy') = update-Counted is_last_day now n d tidy used f in
    let (g, done', sum') =
      updates-year_total is_last_day e rest tidy' (rw (date, ← year_of f) used) (rw date c) in
    (g, rw (done, updates) done', rw (← sum) sum')
