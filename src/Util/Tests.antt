-- ===== src/Util/Tests.antt =====
-- util.go: the choice of storages on concrete inputs.
use go_openbmclapi.Prelude.{ℕ, ◌≡◌, refl, Bool, true, false, [], ◌∷◌, leb}
use go_openbmclapi.Util.{
  try_around, for_each_from_random_index, for_each_from_random_index_with_possibility,
}

abbrev never : ℕ → Bool
never i = false

abbrev at_two : ℕ → Bool
at_two i = leb 2 i

around_from_one : for_each_from_random_index 4 3 never ≡ (false, 1 ∷ 2 ∷ 0 ∷ [])
unfolding for_each_from_random_index try_around
around_from_one = refl

weighted : for_each_from_random_index_with_possibility 5 (4 ∷ 1 ∷ 1 ∷ []) 6 at_two ≡ (true, 2 ∷ [])
unfolding for_each_from_random_index_with_possibility try_around
weighted = refl
