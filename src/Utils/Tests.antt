-- ===== src/Utils/Tests.antt =====
-- utils/util.go: a SyncMap on concrete inputs.
use go_openbmclapi.Prelude.{ℕ, [], ◌∷◌}
use go_openbmclapi.Prelude.Eq.{nat_eq}
use go_openbmclapi.Prelude.GoMap.{make, table}
use go_openbmclapi.Utils.SyncMap.{SyncMap}

-- Another goroutine sets 7 under the key 1 first.
abbrev sets_seven : SyncMap ℕ ℕ → SyncMap ℕ ℕ
sets_seven s = record { m = table ((1, 7) ∷ []) }

abbrev empty : SyncMap ℕ ℕ
empty = record { m = make }
