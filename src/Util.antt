-- ===== src/Util.antt =====
-- util.go: the order in which a cluster tries its storages.
pub mod Pick
pub mod Rotation
pub mod Tests
use go_openbmclapi.Prelude.{
  ℕ, zero, suc, ◌+◌, ◌-◌, ◌%◌, Bool, true, false, ◌||◌, List, [], ◌∷◌, ◌++◌, ltb, ◌==◌,
  if◌then◌else◌, length,
}

-- A loop `for i := from; i < from + n; i++` that leaves at the first callback that is done. The
-- indices that were called are written down, in order.
unfoldable pub try_from : (ℕ → Bool) → ℕ → ℕ → Bool × List ℕ
try_from cb from zero = (false, [])
try_from cb from (suc n) =
    let rest = try_from cb (from + 1) n in
    if cb from then (true, from ∷ []) else (rest.0, from ∷ rest.1)

-- From `start` to the end, and then from 0 to `start`.
unfoldable pub try_around : ℕ → ℕ → (ℕ → Bool) → Bool × List ℕ
unfolding try_from
try_around start leng cb =
    let first = try_from cb start (leng - start) in
    let second = try_from cb 0 start in if first.0 then first else (second.0, first.1 ++ second.1)

-- `random` is the int32 that the generator gives; randIntn is its remainder.
unfoldable pub for_each_from_random_index : ℕ → ℕ → (ℕ → Bool) → Bool × List ℕ
for_each_from_random_index random leng cb =
    if leng == 0 then (false, []) else try_around (random % leng) leng cb

-- The loop that takes weights off `n`; `i` is the index of the first of the weights, and the index
-- is 0 if none is left.
unfoldable pub weighted_start : ℕ → ℕ → List ℕ → ℕ
weighted_start n i [] = 0
weighted_start n i (p ∷ poss) =
    let rest = weighted_start (n - p) (i + 1) poss in if ltb n p then i else rest

unfoldable pub for_each_from_random_index_with_possibility :
    ℕ → List ℕ → ℕ → (ℕ → Bool) → Bool × List ℕ
unfolding weighted_start
for_each_from_random_index_with_possibility random poss total cb =
    if length poss == 0
    then (false, [])
    else if total == 0
    then for_each_from_random_index random (length poss) cb
    else try_around (weighted_start (random % total) 0 poss) (length poss) cb

-- Whether getHashMethod knows a hash of this length: MD5 and SHA-1 in hexadecimal.
abbrev pub has_hash_method : ℕ → Bool
has_hash_method l = (l == 32) || (l == 40)
