-- ===== src/Limited/Semaphore/Tests.antt =====
-- limited/util.go: semaphores and slots on concrete inputs.
use mathlib.Core.List.{Perm}
use go_openbmclapi.Prelude.{ℕ, Bool, ◌≡◌, ◌≤◌, refl, true, false, none, some, [], ◌∷◌, arith, ltb}
use go_openbmclapi.Prelude.Int.{pos}
use go_openbmclapi.Limited.Semaphore.{new_semaphore, Chan, len, acquire, release, close_once}
use go_openbmclapi.Limited.Semaphore.Holders.{
  System, opens, fails, closes, count_open, get_closed, set_closed, happen, history, start,
  IsCounted, open_bounded,
}
use go_openbmclapi.Limited.Semaphore.Slots.{
  slots_from, new_buf_slots, alloc, alloc_ready, Lending, allocates, Uses, unused, then_use,
  fresh_slots, slots_conserved,
}

abbrev two_of_three : Chan
two_of_three = record { used = 2; room = 3 }

-- The context is done at the second select, after one place is taken.
abbrev ends_at_one : ℕ → Bool
ends_at_one i = ltb 0 i

abbrev never_first : ℕ → Bool
never_first i = false

abbrev one_of_three : Chan
one_of_three = record { used = 1; room = 3 }

-- The third user finds no place.
full_waits : history (opens ∷ opens ∷ opens ∷ []) (start (pos 2)) ≡ none
unfolding history happen new_semaphore acquire
full_waits = refl

abbrev one_open : System
one_open = record { sem = some (record { used = 1; room = 2 }); closed = true ∷ false ∷ [] }

open_bounded_example :
    (count_open one_open.closed ≤ 2) × (len one_open.sem ≡ count_open one_open.closed)
open_bounded_example =
    open_bounded (pos 2) (opens ∷ fails ∷ opens ∷ closes 0 ∷ closes 0 ∷ []) one_open (omega arith)
      (unfold history happen new_semaphore acquire release close_once get_closed set_closed in refl)

one_open-IsCounted : IsCounted one_open (record { used = 1; room = 2 })
unfolding count_open
one_open-IsCounted = (refl, refl, omega arith)

abbrev first_lent : Lending
first_lent = record { slots = record { size = 2; ready = 1 ∷ [] }; lent = 0 ∷ [] }

first_lent-Uses : Uses (fresh_slots 2) first_lent
unfolding new_buf_slots slots_from alloc alloc_ready
first_lent-Uses =
    then_use unused
      (allocates (fresh_slots 2) false true 0 (record { size = 2; ready = 1 ∷ [] }) refl)

slots_conserved_example : Perm (1 ∷ 0 ∷ []) (slots_from 0 2)
slots_conserved_example = slots_conserved 2 first_lent first_lent-Uses
