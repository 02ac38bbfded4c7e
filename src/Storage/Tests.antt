-- ===== src/Storage/Tests.antt =====
-- storage on concrete inputs.
use go_openbmclapi.Prelude.{◌≡◌, refl, true, false, none, some, List, [], ◌∷◌, arith}
use go_openbmclapi.Prelude.Int.{pos, add_int64, wrap64, ◌+ℤ◌}
use go_openbmclapi.Storage.Mount.{reported_size}
use go_openbmclapi.Storage.Mount.Checks.{
  System, Event, comes, request_checked, background_begins, background_checked, IsPaced, history,
  history-IsPaced,
}

abbrev fresh : System
fresh = record {
  storage = record { support_range = false; working = 1; last_check = 0 };
  checking = 0;
  begun = 0;
}

fresh-IsPaced : IsPaced fresh
fresh-IsPaced = ((λ e. ground (arith, e)), omega arith)

-- A background check fails, and a later request finds the storage working again.
abbrev one_hour : List Event
one_hour =
    comes 200000000000
    ∷ background_begins 200000000000 0
    ∷ background_checked none
    ∷ comes 500000000000
    ∷ request_checked (some true)
    ∷ []

works_again : (history one_hour fresh).storage.working ≡ 1
unfolding history
works_again = refl

history-IsPaced_example : IsPaced (history one_hour fresh)
history-IsPaced_example = history-IsPaced one_hour fresh fresh-IsPaced

half_reported : reported_size true (some (pos 40 ∷ pos 10 ∷ [])) (pos 100) ≡ pos 50
unfolding reported_size add_int64 wrap64 ◌+ℤ◌
half_reported = refl
