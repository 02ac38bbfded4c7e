-- ===== src/Notify/Stat/Tests.antt =====
-- notify/stat.go: the statistics on concrete inputs.
use go_openbmclapi.Prelude.{◌≡◌, ◌≢◌, refl, Bool, false, some, [], ◌∷◌, arith, if◌then◌else◌, ◌==◌}
use go_openbmclapi.Prelude.GoMap.{make}
use go_openbmclapi.Notify.Stat.{StatInstData, StatTime, StatData, no_data, no_slots}
use go_openbmclapi.Notify.Stat.Rolled.{year_total, IsTidy, same_day, next_month}
use go_openbmclapi.Notify.Stat.Conserve.{updates, end, link, total_of, updates-year_total}

abbrev noon : StatTime
noon = record { hour = 12; day = 3; month = 1; year = 2024 }

abbrev evening : StatTime
evening = record { hour = 20; day = 3; month = 1; year = 2024 }

abbrev april : StatTime
april = record { hour = 12; day = 3; month = 3; year = 2024 }

abbrev march : StatTime
march = record { hour = 1; day = 0; month = 2; year = 2024 }

abbrev one_hit : StatInstData
one_hit = record { hits = 1; bytes = 100 }

abbrev at_noon : StatData
at_noon = record {
  date = noon;
  hours = λ i. if i == 12 then one_hit else no_data;
  days = no_slots;
  months = no_slots;
  prev = record { hours = no_slots; days = no_slots; months = no_slots };
  years = make;
  accesses = make;
}

abbrev never_last : StatTime → Bool
never_last t = false

at_noon-IsTidy : IsTidy at_noon
at_noon-IsTidy i lt = ground arith

in_2024 : at_noon.date.year ≢ 0
in_2024 e = omega (arith, e)

updates-year_total_example :
    (e : StatData) × (updates never_last ((evening, one_hit) ∷ (march, one_hit) ∷ []) at_noon
      ≡ some e)
    × (year_total e ≡ total_of (year_total at_noon) ((evening, one_hit) ∷ (march, one_hit) ∷ []))
updates-year_total_example =
    updates-year_total never_last at_noon ((evening, one_hit) ∷ (march, one_hit) ∷ [])
      at_noon-IsTidy in_2024
      (link (same_day refl refl refl (omega arith)) (link (next_month refl refl) end))
