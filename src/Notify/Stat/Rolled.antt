-- ===== src/Notify/Stat/Rolled.antt =====
-- What each part of the switch of update does to the year's sum.
use native.Mathlib.Nat.{zero-add}
use go_openbmclapi.Prelude.{ℕ, suc, sym, ap, ◌∙◌, ◌+◌, ◌-◌, ◌≤◌, ◌<◌, ◌≡◌, Bool, true, arith, ◌==◌}
use go_openbmclapi.Notify.Stat.{
  StatInstData, StatTime, StatData, no_data, add, Slots, no_slots, add_up, clear_between, put,
  month_inst, roll_month, roll_day, count_in,
}
use go_openbmclapi.Notify.Stat.Sums.{
  IsWord, add_assoc, add-no_data, no_data-IsWord, add_up-IsWord, add_up-add, add_up-congr,
  add_up_empty, add_up_none,
}

-- What the statistics say of the current year: the months before, the days before, and the hours.
unfoldable pub year_total : StatData → StatInstData
year_total d =
    add_up (add_up (add_up no_data d.date.month d.months) d.date.day d.days) (d.date.hour + 1)
      d.hours

-- No hour after the stored one has been counted in.
abbrev pub IsTidy : StatData → Type 0
IsTidy d = (i : ℕ) → d.date.hour < i → d.hours i ≡ no_data

-- The clock is in the same year, and in the same month or the next.
pub data Follows (t u : StatTime) : Type 0 where
  same_day : t.year ≡ u.year → t.month ≡ u.month → t.day ≡ u.day → t.hour ≤ u.hour → Follows t u
  same_month : t.year ≡ u.year → t.month ≡ u.month → t.day < u.day → Follows t u
  next_month : t.year ≡ u.year → t.month + 1 ≡ u.month → Follows t u

cleared :
    (k n : ℕ) (s : Slots) (v : StatInstData) (i : ℕ)
    → suc k ≤ i
    → i < suc k + (n - suc k)
    → clear_between k n (put k v s) i ≡ no_data
unfolding clear_between
cleared k n s v i a b = ground arith

at_slot : (k n : ℕ) (s : Slots) (v : StatInstData) → clear_between k n (put k v s) k ≡ v
unfolding clear_between put
at_slot k n s v = ground arith

below_slot :
    (k n : ℕ) (s : Slots) (v : StatInstData) (i : ℕ) → i < k → clear_between k n (put k v s) i ≡ s i
unfolding clear_between put
below_slot k n s v i h = ground arith

module _ (base new_data : StatInstData) (word : IsWord base) where
  -- One hour counted over empty ones.
  empty_hours :
      (h : ℕ) (s : Slots)
      → ((i : ℕ) → i < h → s i ≡ no_data)
      → s h ≡ add no_data new_data
      → add_up base (h + 1) s ≡ add base new_data
  unfolding add_up
  empty_hours h s before at =
      let e : h + 1 ≡ suc h = omega arith in
      let start : add_up base h s ≡ base =
        rw (← zero-add h) (add_up_empty base 0 h s word (λ i a b. before i (omega arith))) in
      rw (e, start, at)
        (sym (add_assoc base no_data new_data) ∙ ap (λ b. add b new_data) (add-no_data base word))

  -- A slot that is filled with the sum so far, and empty ones after it.
  filled :
      (k n : ℕ) (s : Slots) (v : StatInstData)
      → k < n
      → add_up base n (clear_between k n (put k v s)) ≡ add (add_up base k s) v
  unfolding add_up
  filled k n s v lt =
      let t : Slots = clear_between k n (put k v s) in
      let e : n ≡ suc k + (n - suc k) = omega arith in
      let after : (i : ℕ) → suc k ≤ i → i < suc k + (n - suc k) → t i ≡ no_data = cleared k n s v in
      let here : t k ≡ v = at_slot k n s v in
      let before : add_up base k t ≡ add_up base k s =
        add_up-congr base k t s (below_slot k n s v) in
      ap (λ m. add_up base m t) e
      ∙ (add_up_empty base (suc k) (n - suc k) t word after ∙ cc (before, here))

-- The sum that a roll leaves behind, before the new data are counted in at `now`: the hours up to
-- `now` are empty but for the stored ones.
abbrev pub Rolled : StatTime → StatData → StatData → Type 0
Rolled now d e = (n : StatInstData) → year_total (count_in now n e) ≡ add (year_total d) n

months-IsWord : (d : StatData) → IsWord (add_up no_data d.date.month d.months)
months-IsWord d = add_up-IsWord no_data d.date.month d.months no_data-IsWord

pub days-IsWord :
    (d : StatData) → IsWord (add_up (add_up no_data d.date.month d.months) d.date.day d.days)
days-IsWord d = add_up-IsWord _ d.date.day d.days (months-IsWord d)

only_at : (h : ℕ) (v : StatInstData) (i : ℕ) → i < h → put h v no_slots i ≡ no_data
unfolding put
only_at h v i lt = ground arith

pub put_at : (h : ℕ) (v : StatInstData) (s : Slots) → put h v s h ≡ v
unfolding put
put_at h v s = ground arith

pub put_ne : (h i : ℕ) (v : StatInstData) (s : Slots) → i < h → put h v s i ≡ s i
unfolding put
put_ne h i v s lt = ground arith

pub roll_day-Rolled :
    (d : StatData) (now : StatTime)
    → d.date.month ≡ now.month
    → d.date.day < now.day
    → Rolled now d (roll_day now d)
unfolding year_total roll_day count_in
roll_day-Rolled d now em lt n =
    let months = add_up no_data d.date.month d.months in
    let inst = add_up no_data (d.date.hour + 1) d.hours in
    let days' : Slots = clear_between d.date.day now.day (put d.date.day inst d.days) in
    let base = add_up (add_up no_data now.month d.months) now.day days' in
    let moved : base ≡ add_up months now.day days' =
      ap (λ m. add_up (add_up no_data m d.months) now.day days') (sym em) in
    let sum : base ≡ add_up (add_up months d.date.day d.days) (d.date.hour + 1) d.hours =
      moved
      ∙ (filled months inst (months-IsWord d) d.date.day now.day d.days inst lt
          ∙ sym (add_up-add _ (d.date.hour + 1) d.hours (days-IsWord d))) in
    empty_hours base n
      (add_up-IsWord _ now.day days' (add_up-IsWord no_data now.month d.months no_data-IsWord))
      now.hour (put now.hour (add no_data n) no_slots) (only_at now.hour (add no_data n))
      (put_at now.hour (add no_data n) no_slots)
    ∙ ap (λ b. add b n) sum

month_inst-cont :
    (d : StatData)
    → month_inst d true
      ≡ add (add_up no_data d.date.day d.days) (add_up no_data (d.date.hour + 1) d.hours)
unfolding month_inst
month_inst-cont d =
    add_up-add _ (d.date.hour + 1) d.hours (add_up-IsWord no_data d.date.day d.days no_data-IsWord)

month_sum :
    (d : StatData) → add (add_up no_data d.date.month d.months) (month_inst d true) ≡ year_total d
unfolding year_total
month_sum d =
    ap (add _) (month_inst-cont d)
    ∙ (sym (add_assoc _ (add_up no_data d.date.day d.days) _)
        ∙ (ap (λ x. add x (add_up no_data (d.date.hour + 1) d.hours))
              (sym (add_up-add _ d.date.day d.days (months-IsWord d)))
            ∙ sym (add_up-add _ (d.date.hour + 1) d.hours (days-IsWord d))))

pub roll_month-Rolled :
    (is_last_day : StatTime → Bool) (d : StatData) (now : StatTime)
    → d.date.month + 1 ≡ now.month
    → Rolled now d (roll_month is_last_day now d)
roll_month-Rolled is_last_day d now em n =
    let inst = month_inst d true in
    let months' : Slots = clear_between d.date.month now.month (put d.date.month inst d.months) in
    let base = add_up (add_up no_data now.month months') now.day no_slots in
    let word = add_up-IsWord no_data now.month months' no_data-IsWord in
    let no_days : base ≡ add_up no_data now.month months' = add_up_none _ now.day word in
    let sum : base ≡ year_total d =
      no_days
      ∙ (filled no_data inst no_data-IsWord d.date.month now.month d.months inst (omega arith)
          ∙ month_sum d) in
    shape
    ∙ (empty_hours base n (add_up-IsWord _ now.day no_slots word) now.hour
          (put now.hour (add no_data n) no_slots) (only_at now.hour (add no_data n))
          (put_at now.hour (add no_data n) no_slots)
        ∙ ap (λ b. add b n) sum)
  where
    cont : (now.month == d.date.month + 1) ≡ true
    cont = ground arith

    shape :
        year_total (count_in now n (roll_month is_last_day now d))
        ≡ add_up
            (add_up
              (add_up no_data now.month (
                clear_between d.date.month now.month
                  (put d.date.month (month_inst d true) d.months)))
              now.day
              no_slots)
            (now.hour + 1)
            (put now.hour (add no_data n) no_slots)
    shape = unfold year_total roll_month count_in in rw cont
