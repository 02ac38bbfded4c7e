-- ===== src/Handler/Failover.antt =====
-- A download goes on to the next storage where one fails.
use go_openbmclapi.Prelude.{ℕ, ◌%◌, ◌<◌, ◌≡◌, Bool, true, some, List, length, ◌==◌, if◌then◌else◌}
use go_openbmclapi.Util.{weighted_start}
use go_openbmclapi.Handler.{last_tried}

-- The last call of a loop that is done is a call that is done.
abbrev EndsDone : (ℕ → Bool) → ℕ → List ℕ → Type 0
EndsDone cb bound l = (k : ℕ) × (last_tried l ≡ some k) × (cb k ≡ true) × (k < bound)

-- The start of the rotation.
unfoldable start_at : ℕ → List ℕ → ℕ → ℕ
start_at random poss total =
    if total == 0 then random % length poss else weighted_start (random % total) 0 poss
