-- ===== src/Limited/Semaphore.antt =====
-- limited/util.go: Semaphore and BufSlots, over a buffered channel. A channel of empty structs is
-- its capacity and its length. An operation that the channel makes wait `blocks`; what a `select`
-- may choose between is an argument.
pub mod Holders
pub mod Slots
pub mod Waiting
pub mod Tests
use go_openbmclapi.Prelude.{
  ℕ, zero, suc, ◌+◌, ◌-◌, ◌≡◌, Bool, true, false, Option, none, some, arith, ltb, ◌==◌,
  if◌then◌else◌,
}
use go_openbmclapi.Prelude.Int.{ℤ, pos, pos_part, ltb_ℤ}

pub data Wait {ℓ} (A : Type ℓ) : Type ℓ where
  done : A → Wait A
  blocks : Wait A
  panics : Wait A

-- len and cap of the channel; a nil *Semaphore is none.
pub record Chan : Type 0 where
  pub used : ℕ
  pub room : ℕ

abbrev pub Semaphore : Type 0
Semaphore = Option Chan

-- Zero or a negative size means infinity space.
unfoldable pub new_semaphore : ℤ → Semaphore
new_semaphore size =
    if ltb_ℤ (pos 0) size then some (record { used = 0; room = pos_part size }) else none

unfoldable pub len : Semaphore → ℕ
len none = 0
len (some c) = c.used

unfoldable pub cap : Semaphore → ℕ
cap none = 0
cap (some c) = c.room

-- s.c <- struct{}{}
abbrev pub send : Chan → Wait Semaphore
send c = if ltb c.used c.room then done (some (record c { used = c.used + 1 })) else blocks

-- <-s.c
abbrev pub receive : Chan → Wait Semaphore
receive c = if c.used == 0 then blocks else done (some (record c { used = c.used - 1 }))

unfoldable pub acquire : Semaphore → Wait Semaphore
acquire none = done none
acquire (some c) = send c

unfoldable pub release : Semaphore → Wait Semaphore
release none = done none
release (some c) = receive c

-- AcquireWithNotify: `notified` says whether the notifier is ready, and `first` which way the select
-- goes where both are.
unfoldable pub acquire_with_notify : Bool → Bool → Semaphore → Wait (Bool × Semaphore)
acquire_with_notify notified first none = done (true, none)
acquire_with_notify false first (some c) =
    if ltb c.used c.room then done (true, some (record c { used = c.used + 1 })) else blocks
acquire_with_notify true first (some c) =
    if ltb c.used c.room
    then (if first
        then done (true, some (record c { used = c.used + 1 }))
        else done (false, some c))
    else done (false, some c)

-- AcquireWithContext: the context's Done channel is the notifier.
unfoldable pub acquire_with_context : Bool → Bool → Semaphore → Wait (Bool × Semaphore)
unfolding acquire_with_notify
acquire_with_context cancelled first none = done (true, none)
acquire_with_context cancelled first (some c) = acquire_with_notify cancelled first (some c)

-- n calls of Acquire; the first that must wait makes the whole wait.
pub acquire_times : ℕ → Semaphore → Wait Semaphore
acquire_times zero s = done s
acquire_times (suc n) s = elim (acquire s) [
  | done s' ↦ acquire_times n s'
  | blocks ↦ blocks
  | panics ↦ panics
]

-- Wait takes every place of the semaphore.
pub wait : Semaphore → Wait Semaphore
unfolding acquire_times acquire cap
wait none = panics
wait (some c) = acquire_times c.room (some c)

-- spProxyReader.Close: the flag `released`, which Swap sets, lets one call through to Release.
unfoldable pub close_once : Bool → Semaphore → Wait (Bool × Semaphore)
unfolding release
close_once true s = done (true, s)
close_once false s = elim (release s) [
  | done s' ↦ done (true, s')
  | blocks ↦ blocks
  | panics ↦ panics
]

-- The loop of WaitWithContext: `cancelled` and `first` say of the i-th select whether the context is
-- done, and which way it goes where both are ready.
unfoldable pub wait_times : ℕ → ℕ → (ℕ → Bool) → (ℕ → Bool) → Semaphore → Wait (Bool × Semaphore)
wait_times zero i cancelled first s = done (true, s)
wait_times (suc n) i cancelled first s = elim (acquire_with_context (cancelled i) (first i) s) [
  | done (true, s') ↦ wait_times n (i + 1) cancelled first s'
  | done (false, s') ↦ done (false, s')
  | blocks ↦ blocks
  | panics ↦ panics
]

unfoldable pub wait_with_context : (ℕ → Bool) → (ℕ → Bool) → Semaphore → Wait (Bool × Semaphore)
unfolding wait_times cap
wait_with_context cancelled first none = panics
wait_with_context cancelled first (some c) = wait_times c.room 0 cancelled first (some c)
