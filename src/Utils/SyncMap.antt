-- ===== src/Utils/SyncMap.antt =====
-- utils/util.go: SyncMap, a map behind a lock. What other goroutines do between two locks of one
-- call is an argument.
use go_openbmclapi.Prelude.{
  ℕ, ◌≡◌, Bool, true, false, Option, none, some, arith, length, Option-cases, inl, inr,
}
use go_openbmclapi.Prelude.Eq.{Eq, ==-self}
use go_openbmclapi.Prelude.GoMap.{
  GoMap, make, entries, lookup, assign, IsMade, lookup-assign, assign-made,
}

pub record SyncMap {ℓ κ} (K : Type ℓ) (V : Type κ) : Type (ℓ ⊔ κ) where
  pub m : GoMap K V

module _ {ℓ κ} {K : Type ℓ} {V : Type κ} ⦃e : Eq K⦄ where
  pub new_sync_map : SyncMap K V
  new_sync_map = record { m = make }

  pub len : SyncMap K V → ℕ
  len s = length (entries s.m)

  abbrev pub raw_map : SyncMap K V → GoMap K V
  raw_map s = s.m

  -- none is the panic of a nil map; a SyncMap of NewSyncMap has none.
  unfoldable pub set : K → V → SyncMap K V → Option (SyncMap K V)
  set k v s = elim (assign s.m k v) [ none ↦ none | some t ↦ some (record { m = t }) ]

  -- `zero` is the value that Go gives for a missing key.
  unfoldable pub get : V → K → SyncMap K V → V
  get zero k s = elim (lookup s.m k) [ none ↦ zero | some v ↦ v ]

  unfoldable pub has : K → SyncMap K V → Bool
  has k s = elim (lookup s.m k) [ none ↦ false | some _ ↦ true ]

  -- Under the write lock: the value is set only if it is still missing; `v` is what the setter gives.
  unfoldable pub set_if_missing : K → V → SyncMap K V → Option ((V × Bool) × SyncMap K V)
  unfolding set
  set_if_missing k v s = elim (lookup s.m k) [
    | some old ↦ some ((old, true), s)
    | none ↦ elim (set k v s) [ none ↦ none | some s' ↦ some ((v, false), s') ]
  ]

  -- `others` is what happens between the read lock and the write lock.
  unfoldable pub get_or_set :
      K → V → (SyncMap K V → SyncMap K V) → SyncMap K V → Option ((V × Bool) × SyncMap K V)
  unfolding set_if_missing
  get_or_set k v others s = elim (lookup s.m k) [
    | some old ↦ some ((old, true), s)
    | none ↦ set_if_missing k v (others s)
  ]

  set_if_missing_lem :
      (k : K) (v : V) (s : SyncMap K V)
      → IsMade s.m
      → (w : V) × (found : Bool) × (t : SyncMap K V) × (set_if_missing k v s ≡ some ((w, found), t))
        × (lookup t.m k ≡ some w)
  unfolding set_if_missing set
  set_if_missing_lem k v s made =
      let (t, q) = assign-made s.m k v made in
      elim (Option-cases (lookup s.m k)) [
        | inr (old, at) ↦ (old, true, s, ground (arith, at), at)
        | inl missing ↦ (
          v,
          false,
          record { m = t },
          ground (arith, missing, q),
          ground (arith, lookup-assign s.m t k k v q, ==-self k),
        )
      ]

  -- Whatever other goroutines do between the two locks of GetOrSet, as long as the map stays made,
  -- the call does not panic, and the value that it answers is the one that is then stored under the
  -- key: a value that another goroutine has set in the meantime is answered and not overwritten.
  pub get_or_set-stored :
      (k : K) (v : V) (others : SyncMap K V → SyncMap K V) (s : SyncMap K V)
      → IsMade (others s).m
      → (w : V) × (found : Bool) × (t : SyncMap K V) × (get_or_set k v others s
          ≡ some ((w, found), t))
        × (lookup t.m k ≡ some w)
  unfolding get_or_set
  get_or_set-stored k v others s made =
      let (w, found, t, e, at) = set_if_missing_lem k v (others s) made in
      elim (Option-cases (lookup s.m k)) [
        | inr (old, before) ↦ (old, true, s, ground (arith, before), before)
        | inl missing ↦ (w, found, t, ground (arith, missing, e), at)
      ]
