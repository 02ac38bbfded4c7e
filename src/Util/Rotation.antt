-- ===== src/Util/Rotation.antt =====
-- util.go: which indices forEachFromRandomIndex tries.
use mathlib.Core.List.{Perm, perm_append_comm}
use mathlib.Core.List.Perm
use mathlib.Core.Path.{subst}
use go_openbmclapi.Prelude.{
  ℕ, zero, suc, sym, ap, ◌∙◌, ◌+◌, ◌-◌, ◌%◌, ◌≤◌, ◌<◌, ◌≡◌, refl, Bool, true, false, List, [], ◌∷◌,
  ◌++◌, arith, ltb, ◌==◌, Bool-cases, inl, inr,
}
use go_openbmclapi.Util.{try_from, try_around, for_each_from_random_index}

-- The n indices that start with i, in order.
pub range_from : ℕ → ℕ → List ℕ
range_from i zero = []
range_from i (suc n) = i ∷ range_from (i + 1) n

range_from-append : (i m n : ℕ) → range_from i m ++ range_from (i + m) n ≡ range_from i (m + n)
unfolding range_from
range_from-append i zero n =
    let left : i + 0 ≡ i = omega arith in
    let right : 0 + n ≡ n = omega arith in rw (left, right) refl
range_from-append i (suc m) n =
    let e : i + suc m ≡ i + 1 + m = omega arith in
    let right : suc m + n ≡ suc (m + n) = omega arith in
    rw right (
      ap (λ xs. i ∷ xs)
        (ap (λ k. range_from (i + 1) m ++ range_from k n) e ∙ range_from-append (i + 1) m n))

try_from-none :
    (cb : ℕ → Bool) (from n : ℕ)
    → ((i : ℕ) → i < from + n → cb i ≡ false)
    → try_from cb from n ≡ (false, range_from from n)
unfolding try_from range_from
try_from-none cb from zero f = refl
try_from-none cb from (suc n) f =
    let here : cb from ≡ false = f from (omega arith) in
    rw (here, try_from-none cb (from + 1) n (λ i lt. f i (omega arith)))

try_from-found :
    (cb : ℕ → Bool) (from n i : ℕ)
    → from ≤ i
    → i < from + n
    → cb i ≡ true
    → (try_from cb from n).0 ≡ true
unfolding try_from
try_from-found cb from zero i a b c = ground arith
try_from-found cb from (suc n) i a b c = elim (Bool-cases (cb from)) [
  | inl hit ↦ rw hit
  | inr miss ↦
      let past : from + 1 ≤ i = ground arith in
      rw miss (try_from-found cb (from + 1) n i past (omega arith) c)
]

whole :
    (start leng : ℕ)
    → start ≤ leng
    → range_from 0 start ++ range_from start (leng - start) ≡ range_from 0 leng
whole start leng le =
    let e : 0 + start ≡ start = omega arith in
    let all : start + (leng - start) ≡ leng = omega arith in
    ap (λ k. range_from 0 start ++ range_from k (leng - start)) (sym e)
    ∙ (range_from-append 0 start (leng - start) ∙ ap (range_from 0) all)

around-none :
    (cb : ℕ → Bool) (start leng : ℕ)
    → start ≤ leng
    → ((i : ℕ) → i < leng → cb i ≡ false)
    → try_around start leng cb ≡ (false, range_from start (leng - start) ++ range_from 0 start)
unfolding try_around
around-none cb start leng le f =
    let up = try_from-none cb start (leng - start) (λ i lt. f i (omega arith)) in
    let down = try_from-none cb 0 start (λ i lt. f i (omega arith)) in rw (up, down)

pub around-found :
    (cb : ℕ → Bool) (start leng i : ℕ)
    → start ≤ leng
    → i < leng
    → cb i ≡ true
    → (try_around start leng cb).0 ≡ true
unfolding try_around
around-found cb start leng i le lt hit = elim (Bool-cases (try_from cb start (leng - start)).0) [
  | inl found ↦ rw (found, found)
  | inr missed ↦ rw missed (elim (Bool-cases (ltb i start)) [
    | inl low ↦ try_from-found cb 0 start i (omega arith) (ground arith) hit
    | inr high ↦
        let found = try_from-found cb start (leng - start) i (ground arith) (omega arith) hit in
        ground arith
  ])
]

-- If no call of the callback is done, the loops return false, after calling it on each index
-- below the length exactly once, whatever the random number.
pub random_index_tries_all :
    (random leng : ℕ) (cb : ℕ → Bool)
    → ((i : ℕ) → i < leng → cb i ≡ false)
    → (tried : List ℕ) × (for_each_from_random_index random leng cb ≡ (false, tried))
      × Perm tried (range_from 0 leng)
unfolding for_each_from_random_index range_from
random_index_tries_all random zero cb f = ([], refl, Perm.refl [])
random_index_tries_all random (suc n) cb f =
    let start = random % suc n in
    let le : start ≤ suc n = omega arith in
    let some_left : (suc n == 0) ≡ false = ground arith in
    (
      range_from start (suc n - start) ++ range_from 0 start,
      rw (some_left, around-none cb start (suc n) le f),
      Perm.trans (perm_append_comm (range_from start (suc n - start)) (range_from 0 start))
          (subst (Perm _) (whole start (suc n) le) (Perm.refl _)),
    )

-- If the callback is done on some index below the length, the loops return true, whatever the
-- random number.
pub random_index_finds :
    (random leng : ℕ) (cb : ℕ → Bool) (i : ℕ)
    → i < leng
    → cb i ≡ true
    → (for_each_from_random_index random leng cb).0 ≡ true
unfolding for_each_from_random_index
random_index_finds random leng cb i lt hit =
    let some_left : (leng == 0) ≡ false = ground arith in
    let le : random % leng ≤ leng = omega arith in
    rw some_left (around-found cb (random % leng) leng i le lt hit)
