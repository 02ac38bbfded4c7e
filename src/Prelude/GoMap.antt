-- ===== src/Prelude/GoMap.antt =====
-- Go's `map[K]V`: nil, or a table. A read of a nil map finds nothing, `delete` on it does nothing,
-- and a write to it panics. `entries` is the table in an order that the program cannot see: a
-- `range` loop visits the entries in an order that the runtime chooses.
use go_openbmclapi.Prelude.{
  ◌≡◌, refl, sym, ap, Bool, true, false, Option, none, some, List, [], ◌∷◌, arith, if◌then◌else◌,
  map,
}
use mathlib.Core.Option.{some-injective}
use go_openbmclapi.Prelude.Eq.{Eq, ◌==◌}

pub data GoMap {ℓ κ} (K : Type ℓ) (V : Type κ) : Type (ℓ ⊔ κ) where
  nil : GoMap K V
  table : List (K × V) → GoMap K V

module _ {ℓ κ} {K : Type ℓ} {V : Type κ} where
  -- make(map[K]V)
  abbrev pub make : GoMap K V
  make = table []

  abbrev pub entries : GoMap K V → List (K × V)
  entries nil = []
  entries (table l) = l

  -- The values that a `range` loop may visit, in one order.
  abbrev pub values : GoMap K V → List V
  values m = map (λ (p : K × V). p.1) (entries m)

  abbrev pub is_made : GoMap K V → Bool
  is_made nil = false
  is_made (table l) = true

  abbrev pub IsMade : GoMap K V → Type 0
  IsMade m = is_made m ≡ true

module _ {ℓ κ} {K : Type ℓ} {V : Type κ} ⦃e : Eq K⦄ where
  unfoldable pub find : K → List (K × V) → Option V
  find k [] = none
  find k ((j, v) ∷ l) = if j == k then some v else find k l

  unfoldable pub put : K → V → List (K × V) → List (K × V)
  put k v [] = (k, v) ∷ []
  put k v ((j, w) ∷ l) = let rest = put k v l in if j == k then (k, v) ∷ l else (j, w) ∷ rest

  pub without : K → List (K × V) → List (K × V)
  without k [] = []
  without k ((j, w) ∷ l) = let rest = without k l in if j == k then rest else (j, w) ∷ rest

  -- v, ok := m[k]
  unfoldable pub lookup : GoMap K V → K → Option V
  unfolding find
  lookup m k = find k (entries m)

  -- m[k] = v; none is the panic on a nil map.
  unfoldable pub assign : GoMap K V → K → V → Option (GoMap K V)
  unfolding put
  assign nil k v = none
  assign (table l) k v = some (table (put k v l))

  -- m[k] = v on a map that is known to be made.
  unfoldable pub insert : GoMap K V → K → V → GoMap K V
  unfolding put
  insert m k v = table (put k v (entries m))

  -- delete(m, k)
  unfoldable pub delete : GoMap K V → K → GoMap K V
  unfolding without
  delete nil k = nil
  delete (table l) k = table (without k l)

  find-put :
      (k j : K) (v : V) (l : List (K × V))
      → find j (put k v l) ≡ (if k == j then some v else find j l)
  unfolding find put
  find-put k j v [] = refl
  find-put k j v ((i, w) ∷ l) =
      ground (arith, find-put k j v l, e.agrees i k, e.agrees i j, e.agrees k j)

  find-without :
      (k j : K) (l : List (K × V)) → find j (without k l) ≡ (if k == j then none else find j l)
  unfolding find without
  find-without k j [] = ground arith
  find-without k j ((i, w) ∷ l) =
      ground (arith, find-without k j l, e.agrees i k, e.agrees i j, e.agrees k j)

  pub lookup-insert :
      (m : GoMap K V) (k j : K) (v : V)
      → lookup (insert m k v) j ≡ (if k == j then some v else lookup m j)
  unfolding lookup insert
  lookup-insert m k j v = find-put k j v (entries m)

  pub lookup-delete :
      (m : GoMap K V) (k j : K) → lookup (delete m k) j ≡ (if k == j then none else lookup m j)
  unfolding lookup delete
  lookup-delete nil k j = ground arith
  lookup-delete (table l) k j = find-without k j l

  -- A write to a made map succeeds.
  pub assign-insert :
      (m : GoMap K V) (k : K) (v : V) → IsMade m → assign m k v ≡ some (insert m k v)
  unfolding assign insert
  assign-insert nil k v h = cc
  assign-insert (table l) k v h = refl

  pub insert-IsMade : (m : GoMap K V) (k : K) (v : V) → IsMade (insert m k v)
  unfolding insert
  insert-IsMade m k v = refl

  pub delete-IsMade : (m : GoMap K V) (k : K) → IsMade m → IsMade (delete m k)
  unfolding delete
  delete-IsMade nil k h = h
  delete-IsMade (table l) k h = refl

  pub lookup-nil : (k : K) → lookup nil k ≡ none
  unfolding lookup
  lookup-nil k = refl

  pub lookup-make : (k : K) → lookup make k ≡ none
  unfolding lookup
  lookup-make k = refl

pub ruleset map_laws = (lookup-insert, lookup-delete, lookup-nil, lookup-make)

-- What a write that did not panic has done.
pub lookup-assign {ℓ κ} :
    {K : Type ℓ} {V : Type κ} ⦃e : Eq K⦄ (m t : GoMap K V) (k j : K) (v : V)
    → assign m k v ≡ some t
    → lookup t j ≡ (if k == j then some v else lookup m j)
unfolding assign
lookup-assign nil t k j v h = cc
lookup-assign (table l) t k j v h = rw (← some-injective _ _ h) (unfold lookup in find-put k j v l)

pub assign-IsMade {ℓ κ} :
    {K : Type ℓ} {V : Type κ} ⦃e : Eq K⦄ (m t : GoMap K V) (k : K) (v : V)
    → assign m k v ≡ some t
    → IsMade t
unfolding assign
assign-IsMade nil t k v h = cc
assign-IsMade (table l) t k v h = ap is_made (sym (some-injective _ _ h))

-- A made map takes every write.
pub assign-made {ℓ κ} :
    {K : Type ℓ} {V : Type κ} ⦃e : Eq K⦄ (m : GoMap K V) (k : K) (v : V)
    → IsMade m
    → (t : GoMap K V) × (assign m k v ≡ some t)
unfolding assign
assign-made nil k v h = cc
assign-made (table l) k v h = (table (put k v l), refl)
