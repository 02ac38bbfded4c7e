-- ===== src/Cluster/KeepAlive/Failures.antt =====
-- The failures that the interval counts before it reconnects.
use go_openbmclapi.Prelude.{
  ℕ, zero, suc, ◌≡◌, refl, Bool, true, false, ◌||◌, List, [], ◌∷◌, arith, if◌then◌else◌,
}
use go_openbmclapi.Prelude.Int.{pos}
use go_openbmclapi.Cluster.KeepAlive.{Tick, goes_on, has_ended, kicked, reconnects, tick}

-- The interval over packets that each succeed (true) or fail (false), until it reconnects.
unfoldable pub ticks : List Bool → ℕ → Tick
unfolding tick
ticks [] failed_count = goes_on failed_count
ticks (good ∷ rest) failed_count = elim (tick (if good then pos 0 else pos 1) true failed_count) [
  | goes_on failed_now ↦ ticks rest failed_now
  | has_ended ↦ has_ended
  | kicked ↦ kicked
  | reconnects ↦ reconnects
]

-- The first `n` packets fail.
unfoldable pub all_fail : ℕ → List Bool → Bool
all_fail zero l = true
all_fail (suc n) [] = false
all_fail (suc n) (good ∷ rest) = if good then false else all_fail n rest

-- Somewhere three packets in a row fail.
unfoldable pub three_fail : List Bool → Bool
unfolding all_fail
three_fail [] = false
three_fail (good ∷ rest) = all_fail 3 (good ∷ rest) || three_fail rest

abbrev pub is_reconnect : Tick → Bool
is_reconnect (goes_on n) = false
is_reconnect has_ended = false
is_reconnect kicked = false
is_reconnect reconnects = true

fewer_fail : (l : List Bool) → all_fail 2 l ≡ true → all_fail 1 l ≡ true
unfolding all_fail
fewer_fail [] h = h
fewer_fail (true ∷ rest) h = h
fewer_fail (false ∷ rest) h = refl

-- After none, one and two failures.
ticks-at :
    (l : List Bool)
    → (is_reconnect (ticks l 0) ≡ three_fail l)
      × (is_reconnect (ticks l 1) ≡ (all_fail 2 l || three_fail l))
      × (is_reconnect (ticks l 2) ≡ (all_fail 1 l || three_fail l))
unfolding ticks tick three_fail all_fail
ticks-at [] = (refl, refl, refl)
ticks-at (true ∷ rest) =
    let (zero_failed, one_failed, two_failed) = ticks-at rest in
    (zero_failed, zero_failed, zero_failed)
ticks-at (false ∷ rest) =
    let (zero_failed, one_failed, two_failed) = ticks-at rest in
    (one_failed, ground (arith, two_failed, fewer_fail rest), refl)

-- An interval that starts with no failure, over packets that each succeed or fail, by a timeout or otherwise, while its context
-- lives, reconnects if and only if three packets in a row fail.
pub ticks-reconnect : (l : List Bool) → is_reconnect (ticks l 0) ≡ three_fail l
ticks-reconnect l = (ticks-at l).0
