-- ===== src/Storage/Mount/Checks.antt =====
-- The checks of a mounted storage, among requests that come in any order.
use go_openbmclapi.Prelude.{
  ℕ, ◌+◌, ◌-◌, ◌*◌, ◌≤◌, ◌<◌, ◌≡◌, Bool, not, Option, none, some, List, [], ◌∷◌, arith, if-holds,
  ltb, ◌==◌, if◌then◌else◌,
}
use go_openbmclapi.Storage.Mount.{
  MountStorage, check_interval, Entered, refuses, serves, checks, serves_and_checks, pre_serve,
  checked, begin_check,
}

-- A storage, the requests that are checking it, and the checks that have begun so far.
pub record System : Type 0 where
  pub storage : MountStorage
  pub checking : ℕ
  pub begun : ℕ

-- A request comes; the check of a request ends; a background check, of a request that came at some time
-- and had read some last check, begins or ends.
pub data Event : Type 0 where
  comes : ℕ → Event
  request_checked : Option Bool → Event
  background_begins : ℕ → ℕ → Event
  background_checked : Option Bool → Event

unfoldable pub entered : Entered × MountStorage → System → System
entered (refuses, s) y = record y { storage = s }
entered (serves, s) y = record y { storage = s }
entered (checks, s) y = record y { storage = s; checking = y.checking + 1; begun = y.begun + 1 }
entered (serves_and_checks l, s) y = record y { storage = s }

-- A background check is begun only by a request whose time is more than the interval after the last check
-- that it has read.
unfoldable pub begins : ℕ → ℕ → System → System
unfolding begin_check
begins now last_check y =
    if ltb check_interval (now - last_check)
    then (elim (begin_check now last_check y.storage) [
      | none ↦ y
      | some s ↦ record y { storage = s; begun = y.begun + 1 }
    ])
    else y

unfoldable pub happens : Event → System → System
unfolding entered begins pre_serve checked
happens (comes now) y = entered (pre_serve now y.storage) y
happens (request_checked answer) y =
    if y.checking == 0
    then y
    else record y { storage = checked answer y.storage; checking = y.checking - 1 }
happens (background_begins now last_check) y = begins now last_check y
happens (background_checked answer) y = record y { storage = checked answer y.storage }

unfoldable pub history : List Event → System → System
unfolding happens
history [] y = y
history (e ∷ es) y = history es (happens e y)

-- A storage is in the state of checking only while a request checks it, and between two checks that begin
-- there is more than the interval.
abbrev pub IsPaced : System → Type 0
IsPaced y =
    (y.storage.working ≡ 2 → 0 < y.checking) × (check_interval * y.begun ≤ y.storage.last_check)

happens-IsPaced : (e : Event) (y : System) → IsPaced y → IsPaced (happens e y)
unfolding happens entered begins pre_serve checked begin_check
happens-IsPaced (comes now) y (held, paced) =
    if-holds (λ (r : Entered × MountStorage). IsPaced (entered r y)) (not (y.storage.working == 1))
      (λ idle.
        if-holds (λ (r : Entered × MountStorage). IsPaced (entered r y))
          (not (y.storage.working == 0)) (λ busy. (held, paced))
          (λ stopped.
            if-holds (λ (r : Entered × MountStorage). IsPaced (entered r y))
              (ltb check_interval (now - y.storage.last_check))
              (λ due. ((λ _. omega arith), ground (arith, due, paced)))
              (λ early. ((λ no. ground (arith, no)), paced))))
      (λ works.
        if-holds (λ (r : Entered × MountStorage). IsPaced (entered r y))
          (ltb check_interval (now - y.storage.last_check)) (λ due. (held, paced))
          (λ early. (held, paced)))
happens-IsPaced (request_checked none) y (held, paced) = ground (arith, held, paced)
happens-IsPaced (request_checked (some b)) y (held, paced) = ground (arith, held, paced)
happens-IsPaced (background_begins now last_check) y (held, paced) = ground (arith, held, paced)
happens-IsPaced (background_checked none) y (held, paced) = ground (arith, held, paced)
happens-IsPaced (background_checked (some b)) y (held, paced) = ground (arith, held, paced)

-- Among requests, checks of requests and background checks in any order, a storage is in the state of
-- checking only while a request checks it, so that the end of this check frees it; and as many checks
-- have begun as there are whole intervals of 3 minutes up to the last check, at most.
pub history-IsPaced : (es : List Event) (y : System) → IsPaced y → IsPaced (history es y)
unfolding history
history-IsPaced [] y p = p
history-IsPaced (e ∷ es) y p = history-IsPaced es (happens e y) (happens-IsPaced e y p)
