-- ===== src/Util/Pick.antt =====
-- util.go: the storage that forEachFromRandomIndexWithPossibility starts with.
use go_openbmclapi.Prelude.{
  ℕ, ◌+◌, ◌-◌, ◌≤◌, ◌<◌, ◌≡◌, refl, List, [], ◌∷◌, ◌++◌, arith, ltb, length, inl, inr, ap,
  Bool-cases,
}
use go_openbmclapi.Util.{weighted_start}

unfoldable pub sum : List ℕ → ℕ
sum [] = 0
sum (p ∷ poss) = p + sum poss

picked :
    (n i : ℕ) (poss : List ℕ)
    → n < sum poss
    → (before : List ℕ) × (p : ℕ) × (after : List ℕ) × (poss ≡ before ++ p ∷ after)
      × (weighted_start n i poss ≡ length before + i)
      × (sum before ≤ n)
      × (n < sum before + p)
unfolding weighted_start sum
picked n i [] lt = ground arith
picked n i (p ∷ poss) lt = elim (Bool-cases (ltb n p)) [
  | inl hit ↦ ([], p, poss, refl, ground arith, omega arith, ground arith)
  | inr miss ↦
      let ge : p ≤ n = ground arith in
      let (before, q, after, e, at, low, high) = picked (n - p) (i + 1) poss (omega arith) in
      (
        p ∷ before,
        q,
        after,
        ap (λ xs. p ∷ xs) e,
        rw miss (omega (arith, at)),
        omega arith,
        omega arith,
      )
]

-- If the random number is below the sum of the weights, the loop starts at an index whose weight
-- holds the number: the weights before it sum up to at most the number, and with its own weight
-- to more. An index is thus chosen by exactly as many numbers as its weight says.
pub weighted_start_lem :
    (n : ℕ) (poss : List ℕ)
    → n < sum poss
    → (before : List ℕ) × (p : ℕ) × (after : List ℕ) × (poss ≡ before ++ p ∷ after)
      × (weighted_start n 0 poss ≡ length before)
      × (sum before ≤ n)
      × (n < sum before + p)
weighted_start_lem n poss lt =
    let (before, p, after, e, at, low, high) = picked n 0 poss lt in
    (before, p, after, e, omega (arith, at), low, high)
