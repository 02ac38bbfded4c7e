-- ===== src/Notify/Stat.antt =====
-- notify/stat.go: the traffic statistics by hour, day, month and year.
-- An array is a function of its index, which the source keeps in range. A year is the key of its
-- decimal text. An int32 or int64 is its bit pattern.
pub mod Sums
pub mod Rolled
pub mod Hours
pub mod Conserve
pub mod Tests
use go_openbmclapi.Prelude.{
  ℕ, zero, suc, ◌+◌, ◌%◌, ◌≡◌, String, Bool, true, false, ◌&&◌, Option, none, some, ltb, leb, ◌==◌,
  if◌then◌else◌,
}
use go_openbmclapi.Prelude.Eq.{string_eq, nat_eq}
use go_openbmclapi.Prelude.GoMap.{GoMap, nil, table, make, lookup, assign}

pub record StatInstData : Type 0 where
  pub hits : ℕ
  pub bytes : ℕ

abbrev pub no_data : StatInstData
no_data = record { hits = 0; bytes = 0 }

-- d.update(o): the sums wrap around.
unfoldable pub add : StatInstData → StatInstData → StatInstData
add d o = record {
  hits = (d.hits + o.hits) % 0x100000000;
  bytes = (d.bytes + o.bytes) % 0x10000000000000000;
}

pub record StatTime : Type 0 where
  pub hour : ℕ
  pub day : ℕ
  pub month : ℕ
  pub year : ℕ

abbrev pub Slots : Type 0
Slots = ℕ → StatInstData

abbrev pub no_slots : Slots
no_slots i = no_data

pub record StatHistoryData : Type 0 where
  pub hours : Slots
  pub days : Slots
  pub months : Slots

pub record StatData : Type 0 where
  pub date : StatTime
  pub hours : Slots
  pub days : Slots
  pub months : Slots
  pub prev : StatHistoryData
  pub years : GoMap ℕ StatInstData
  pub accesses : GoMap String ℕ

-- for i := 0; i < n; i++ { inst.update(&slots[i]) }
unfoldable pub add_up : StatInstData → ℕ → Slots → StatInstData
add_up inst zero slots = inst
add_up inst (suc n) slots = add (add_up inst n slots) (slots n)

-- for i := last + 1; i < len(slots); i++ { slots[i] = statInstData{} }
unfoldable pub keep_to : ℕ → Slots → Slots
keep_to last slots i = if leb i last then slots i else no_data

-- for i := from + 1; i < to; i++ { slots[i] = statInstData{} }
unfoldable pub clear_between : ℕ → ℕ → Slots → Slots
clear_between from to slots i = if ltb from i && ltb i to then no_data else slots i

-- slots[k] = v
unfoldable pub put : ℕ → StatInstData → Slots → Slots
put k v slots i = if i == k then v else slots i

-- clear(m): a nil map stays nil.
abbrev pub clear_map {ℓ κ} : {K : Type ℓ} {V : Type κ} → GoMap K V → GoMap K V
clear_map nil = nil
clear_map (table l) = make

-- The year's sum: `cont` says that it is the next year, `month_cont` that December is before January.
unfoldable pub year_inst : StatData → Bool → Bool → StatInstData
year_inst d cont month_cont =
    let months = add_up no_data d.date.month d.months in
    let days = add_up months (d.date.day + 1) d.days in
    if cont then (if month_cont then add_up days (d.date.hour + 1) d.hours else days) else months

unfoldable pub month_inst : StatData → Bool → StatInstData
month_inst d cont =
    let days = add_up no_data d.date.day d.days in
    if cont then add_up days (d.date.hour + 1) d.hours else days

-- What becomes of the hours where the new day may follow the old one.
abbrev pub prev_hours : Bool → StatData → Slots
prev_hours follows d = if follows then keep_to d.date.hour d.hours else no_slots

-- Three cases of the switch. `is_last_day` stands for the calendar of package time: whether the
-- day after the stored one is the first of a month.
unfoldable pub roll_year : (StatTime → Bool) → StatTime → StatData → Option StatData
roll_year is_last_day now d =
    let cont = now.year == d.date.year + 1 in
    let month_cont = cont && ((now.month == 0) && (d.date.month + 1 == 12)) in
    let follows = (now.day == 0) && is_last_day d.date in
    elim (assign d.years d.date.year (year_inst d cont month_cont)) [
      | none ↦ none
      | some years' ↦ some (
          if cont
          then record d {
            hours = if month_cont then no_slots else d.hours;
            days = no_slots;
            months = no_slots;
            prev = record {
              hours = if month_cont then prev_hours follows d else d.prev.hours;
              days = if month_cont then keep_to d.date.day d.days else no_slots;
              months = keep_to d.date.month d.months;
            };
            years = years';
          }
          else record d {
            months = no_slots;
            prev = record d.prev { months = no_slots };
            years = years';
          })
    ]

unfoldable pub roll_month : (StatTime → Bool) → StatTime → StatData → StatData
roll_month is_last_day now d =
    let cont = now.month == d.date.month + 1 in
    let follows = (now.day == 0) && is_last_day d.date in
    record d {
      hours = if cont then no_slots else d.hours;
      days = no_slots;
      months = clear_between d.date.month now.month (put d.date.month (month_inst d cont) d.months);
      prev = record d.prev {
        hours = if cont then prev_hours follows d else d.prev.hours;
        days = if cont then keep_to d.date.day d.days else no_slots;
      };
      accesses = clear_map d.accesses;
    }

unfoldable pub roll_day : StatTime → StatData → StatData
roll_day now d = record d {
  hours = no_slots;
  days =
      clear_between d.date.day now.day
        (put d.date.day (add_up no_data (d.date.hour + 1) d.hours) d.days);
  prev = record d.prev { hours = prev_hours (now.day == d.date.day + 1) d };
}

unfoldable pub roll_hour : StatTime → StatData → StatData
roll_hour now d = record d { hours = clear_between d.date.hour now.hour d.hours }

-- The switch; a year 0 is a record that was never updated. none is the panic of a nil map of years.
unfoldable pub roll : (StatTime → Bool) → StatTime → StatData → Option StatData
roll is_last_day now d =
    if d.date.year == 0
    then some d
    else if d.date.year == now.year
    then some (
        if d.date.month == now.month
        then (if d.date.day == now.day then roll_hour now d else roll_day now d)
        else roll_month is_last_day now d)
    else roll_year is_last_day now d

-- d.Hours[now.Hour].update(newData); d.Date = now
unfoldable pub count_in : StatTime → StatInstData → StatData → StatData
count_in now new_data d = record d {
  hours = put now.hour (add (d.hours now.hour) new_data) d.hours;
  date = now;
}

-- StatData.update at the time `now`.
unfoldable pub update : (StatTime → Bool) → StatTime → StatInstData → StatData → Option StatData
update is_last_day now new_data d = elim (roll is_last_day now d) [
  | none ↦ none
  | some d' ↦ some (count_in now new_data d')
]

-- new(StatData) with its maps made.
unfoldable pub new_stat_data : StatData
new_stat_data = record {
  date = record { hour = 0; day = 0; month = 0; year = 0 };
  hours = no_slots;
  days = no_slots;
  months = no_slots;
  prev = record { hours = no_slots; days = no_slots; months = no_slots };
  years = make;
  accesses = make;
}

-- The statistics as a whole, those of each storage, and the totals since the start.
pub record Stats : Type 0 where
  pub stat_data : StatData
  pub sub_stat : GoMap String StatData
  pub total : StatInstData

-- if ss == nil { ss = new(StatData) ... }; an entry may be nil in no other way.
abbrev pub sub_of : Stats → String → StatData
sub_of s name = elim (lookup s.sub_stat name) [ none ↦ new_stat_data | some ss ↦ ss ]

abbrev pub sub_map : Stats → GoMap String StatData
sub_map s = elim s.sub_stat [ nil ↦ make | table l ↦ table l ]

-- AddHits, whose clock is read for each of its two updates.
unfoldable pub add_hits :
    (StatTime → Bool) → StatTime → StatTime → StatInstData → String → Stats → Option Stats
add_hits is_last_day now now' new_data name s = elim (update is_last_day now new_data s.stat_data) [
  | none ↦ none
  | some d ↦
      let s' = record s { stat_data = d; total = add s.total new_data } in
      if string_eq.test name ""
      then some s'
      else (elim (update is_last_day now' new_data (sub_of s name)) [
        | none ↦ none
        | some ss ↦ elim (assign (sub_map s) name ss) [
          | none ↦ none
          | some m ↦ some (record s' { sub_stat = m })
        ]
      ])
]
