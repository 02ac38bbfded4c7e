-- ===== src/Storage/Mount.antt =====
-- storage/storage_mount.go: whether a mounted storage works, which is checked now and then, and the size
-- that a redirection reports. The checks over the network are events with their answers.
pub mod Checks
use go_openbmclapi.Prelude.{
  ℕ, ◌+◌, ◌-◌, Bool, true, false, ◌&&◌, not, Option, none, some, List, [], ◌∷◌, ltb, ◌==◌,
  if◌then◌else◌,
}
use go_openbmclapi.Prelude.Int.{ℤ, pos, ltb_ℤ, add_int64}

-- `working` is 1 where the storage works, 0 where it does not, and 2 while a request checks it. `last_check`
-- is in nanoseconds, 0 before the first check.
pub record MountStorage : Type 0 where
  pub support_range : Bool
  pub working : ℕ
  pub last_check : ℕ

abbrev pub check_interval : ℕ
check_interval = 180000000000

-- What preServe comes to before it waits for a check: it refuses or serves; it checks first; or it serves
-- and starts a check in the background, for the last check that it has read.
pub data Entered : Type 0 where
  refuses serves checks : Entered
  serves_and_checks : ℕ → Entered

-- preServe at the time `now`.
unfoldable pub pre_serve : ℕ → MountStorage → Entered × MountStorage
pre_serve now s =
    if not (s.working == 1)
    then (if not (s.working == 0)
        then (refuses, s)
        else if ltb check_interval (now - s.last_check)
        then (checks, record s { working = 2; last_check = now })
        else (refuses, record s { working = 0 }))
    else if ltb check_interval (now - s.last_check)
    then (serves_and_checks s.last_check, s)
    else (serves, s)

-- A check has ended: none is its error, else it tells whether ranges are supported.
unfoldable pub checked : Option Bool → MountStorage → MountStorage
checked none s = record s { working = 0 }
checked (some support_range) s = record s { support_range = support_range; working = 1 }

-- The background check begins, if no other one has begun since; `now` is preServe's.
unfoldable pub begin_check : ℕ → ℕ → MountStorage → Option MountStorage
begin_check now last_check s =
    if not (s.last_check == last_check) then none else some (record s { last_check = now })

-- The sum of the lengths of the ranges.
unfoldable pub sum_lengths : ℤ → List ℤ → ℤ
sum_lengths new_size [] = new_size
sum_lengths new_size (l ∷ ls) = sum_lengths (add_int64 new_size l) ls

-- The size that serveDownload reports; none is a Range that does not parse.
unfoldable pub reported_size : Bool → Option (List ℤ) → ℤ → ℤ
unfolding sum_lengths
reported_size support_range ranges size =
    if support_range
    then (elim ranges [
      | none ↦ size
      | some rgs ↦ (elim rgs [
        | [] ↦ size
        | l ∷ ls ↦
            (let new_size = sum_lengths (pos 0) (l ∷ ls) in
              if ltb_ℤ new_size size then new_size else size)
      ])
    ])
    else size
