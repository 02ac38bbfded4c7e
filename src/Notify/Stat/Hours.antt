-- ===== src/Notify/Stat/Hours.antt =====
-- An update within the day, and the hours that each roll leaves empty.
use go_openbmclapi.Prelude.{ℕ, suc, sym, ap, ◌∙◌, ◌+◌, ◌-◌, ◌≤◌, ◌<◌, ◌≡◌, Bool, arith}
use go_openbmclapi.Notify.Stat.Sums.{add_assoc, add_up-congr, add_up_empty}
use go_openbmclapi.Notify.Stat.Rolled.{year_total, IsTidy, Rolled, put_at, put_ne, days-IsWord}
use go_openbmclapi.Notify.Stat.{
  StatInstData, StatTime, StatData, no_data, no_slots, add, Slots, add_up, clear_between, put,
  roll_month, roll_day, roll_hour, count_in,
}

-- The hours between are cleared, and the one at `h` is empty, if the clock has moved.
quiet :
    (d : StatData) (h i : ℕ)
    → IsTidy d
    → d.date.hour + 1 ≤ i
    → i < d.date.hour + 1 + (h - d.date.hour)
    → clear_between d.date.hour h d.hours i ≡ no_data
unfolding clear_between
quiet d h i tidy a b = ground (arith, tidy i (omega arith))

before :
    (d : StatData) (h i : ℕ)
    → i < d.date.hour + 1
    → clear_between d.date.hour h d.hours i ≡ d.hours i
unfolding clear_between
before d h i a = ground arith

counted_hours :
    (base n : StatInstData) (h : ℕ) (c : Slots)
    → add_up base (h + 1) (put h (add (c h) n) c) ≡ add (add_up base (h + 1) c) n
unfolding add_up
counted_hours base n h c =
    let e : h + 1 ≡ suc h = omega arith in
    rw
      (
        e,
        add_up-congr base h (put h (add (c h) n) c) c
            (λ i lt. put_ne h i (add (c h) n) c (omega arith)),
        put_at h (add (c h) n) c,
      )
      (sym (add_assoc (add_up base h c) (c h) n))

pub roll_hour-Rolled :
    (d : StatData) (now : StatTime)
    → IsTidy d
    → d.date.month ≡ now.month
    → d.date.day ≡ now.day
    → d.date.hour ≤ now.hour
    → Rolled now d (roll_hour now d)
unfolding year_total roll_hour count_in
roll_hour-Rolled d now tidy em ed le n =
    let days = add_up (add_up no_data d.date.month d.months) d.date.day d.days in
    let base = add_up (add_up no_data now.month d.months) now.day d.days in
    let same : base ≡ days = cc in
    let c : Slots = clear_between d.date.hour now.hour d.hours in
    let upto : now.hour + 1 ≡ d.date.hour + 1 + (now.hour - d.date.hour) = omega arith in
    counted_hours base n now.hour c
    ∙ ap (λ x. add x n)
        (cc same
          ∙ (ap (λ m. add_up days m c) upto
              ∙ (add_up_empty days (d.date.hour + 1) (now.hour - d.date.hour) c (days-IsWord d)
                    (λ i a b. quiet d now.hour i tidy a b)
                  ∙ add_up-congr days (d.date.hour + 1) c d.hours
                      (λ i lt. before d now.hour i lt))))

put_past : (h i : ℕ) (v : StatInstData) (s : Slots) → h < i → put h v s i ≡ s i
unfolding put
put_past h i v s lt = ground arith

pub roll_hour-IsTidy :
    (d : StatData) (now : StatTime) (n : StatInstData)
    → IsTidy d
    → d.date.hour ≤ now.hour
    → IsTidy (count_in now n (roll_hour now d))
unfolding count_in roll_hour
roll_hour-IsTidy d now n tidy le i lt =
    put_past now.hour i _ (clear_between d.date.hour now.hour d.hours) lt
    ∙ unfold clear_between in ground (arith, tidy i (omega arith))

pub roll_day-IsTidy :
    (d : StatData) (now : StatTime) (n : StatInstData) → IsTidy (count_in now n (roll_day now d))
unfolding count_in roll_day
roll_day-IsTidy d now n i lt = put_past now.hour i _ no_slots lt

pub roll_month-IsTidy :
    (is_last_day : StatTime → Bool) (d : StatData) (now : StatTime) (n : StatInstData)
    → d.date.month + 1 ≡ now.month
    → IsTidy (count_in now n (roll_month is_last_day now d))
unfolding count_in roll_month put
roll_month-IsTidy is_last_day d now n em i lt = ground arith
