-- ===== src/Database/Memory/Iterate.antt =====
-- database/memory.go: the ForEach methods. A `range` loop visits the map's values in the order
-- `order`, which the runtime chooses; the callback may change a state of its own, and answers nil
-- or an error.
use mathlib.Core.List.{Perm, filter, append_assoc, append-nil}
use mathlib.Core.List.Perm
use mathlib.Core.Bool.{Bool-discrete}
use go_openbmclapi.Prelude.{
  ◌≡◌, refl, Bool, true, Option, none, some, List, [], ◌∷◌, ◌++◌, arith, if◌then◌else◌, String,
}
use go_openbmclapi.Prelude.Eq.{string_eq}
use go_openbmclapi.Prelude.GoMap.{values}
use go_openbmclapi.Database.{
  Error, err_stop_iter, err_not_found, err_exists, err_uuid, other, Reply, ok, err, FileRecord,
  SubscribeRecord, EmailSubscriptionRecord, WebhookRecord,
}
use go_openbmclapi.Database.Memory.{MemoryDb}

abbrev pub Callback {ℓ κ} : Type ℓ → Type κ → Type (ℓ ⊔ κ)
Callback V S = V → S → Option Error × S

-- err == ErrStopIter breaks the loop and is no error of it.
unfoldable pub stopped : Error → Reply (Unit {0})
stopped err_stop_iter = ok tt
stopped err_not_found = err err_not_found
stopped err_exists = err err_exists
stopped err_uuid = err err_uuid
stopped (other n) = err (other n)

-- What the callback has answered, and what is to come.
abbrev pub after_callback {ℓ} :
    {S : Type ℓ} → Option Error × S → (S → Reply (Unit {0}) × S) → Reply (Unit {0}) × S
after_callback (none, s) rest = rest s
after_callback (some e, s) rest = (stopped e, s)

module _ {ℓ κ} {V : Type ℓ} {S : Type κ} where
  -- The loop over the values that `keep` lets through; the others are passed over by `continue`.
  pub for_each : (V → Bool) → Callback V S → List V → S → Reply (Unit {0}) × S
  for_each keep cb [] s = (ok tt, s)
  for_each keep cb (v ∷ vs) s =
      let rest = for_each keep cb vs in if keep v then after_callback (cb v s) rest else rest s

abbrev pub Order {ℓ} : Type ℓ → Type ℓ
Order V = List V → List V

module _ {κ} {S : Type κ} where
  pub for_each_file_record :
      Order FileRecord → Callback FileRecord S → MemoryDb → S → Reply (Unit {0}) × S
  for_each_file_record order cb m = for_each (λ _. true) cb (order (values m.file_records))

  pub for_each_subscribe :
      Order SubscribeRecord → Callback SubscribeRecord S → MemoryDb → S → Reply (Unit {0}) × S
  for_each_subscribe order cb m = for_each (λ _. true) cb (order (values m.subscribe_records))

  pub for_each_email_subscription :
      Order EmailSubscriptionRecord
      → Callback EmailSubscriptionRecord S
      → MemoryDb
      → S
      → Reply (Unit {0}) × S
  for_each_email_subscription order cb m =
      for_each (λ _. true) cb (order (values m.email_sub_records))

  pub for_each_users_email_subscription :
      Order EmailSubscriptionRecord
      → String
      → Callback EmailSubscriptionRecord S
      → MemoryDb
      → S
      → Reply (Unit {0}) × S
  for_each_users_email_subscription order user cb m =
      for_each (λ v. string_eq.test v.user user) cb (order (values m.email_sub_records))

  pub for_each_enabled_email_subscription :
      Order EmailSubscriptionRecord
      → Callback EmailSubscriptionRecord S
      → MemoryDb
      → S
      → Reply (Unit {0}) × S
  for_each_enabled_email_subscription order cb m =
      for_each (λ v. v.enabled) cb (order (values m.email_sub_records))

  pub for_each_webhook :
      Order WebhookRecord → Callback WebhookRecord S → MemoryDb → S → Reply (Unit {0}) × S
  for_each_webhook order cb m = for_each (λ _. true) cb (order (values m.webhook_records))

  pub for_each_users_webhook :
      Order WebhookRecord → String → Callback WebhookRecord S → MemoryDb → S → Reply (Unit {0}) × S
  for_each_users_webhook order user cb m =
      for_each (λ v. string_eq.test v.user user) cb (order (values m.webhook_records))

  pub for_each_enabled_webhook :
      Order WebhookRecord → Callback WebhookRecord S → MemoryDb → S → Reply (Unit {0}) × S
  for_each_enabled_webhook order cb m =
      for_each (λ v. v.enabled) cb (order (values m.webhook_records))

abbrev pub outcome : Option Error → Reply (Unit {0})
outcome none = ok tt
outcome (some e) = stopped e

module _ {ℓ} {V : Type ℓ} where
  -- A callback that writes down each value it is given, and answers `fails` of it.
  abbrev pub noting : (V → Option Error) → Callback V (List V)
  noting fails v seen = (fails v, seen ++ v ∷ [])

  -- The values that are visited: those let through, up to the first that fails, with it.
  unfoldable pub visited : (V → Bool) → (V → Option Error) → List V → List V
  visited keep fails [] = []
  visited keep fails (v ∷ vs) =
      let rest = visited keep fails vs in
      if keep v then v ∷ (elim (fails v) [ none ↦ rest | some _ ↦ [] ]) else rest

  -- The first failure among the values let through.
  unfoldable pub first_failure : (V → Bool) → (V → Option Error) → List V → Option Error
  first_failure keep fails [] = none
  first_failure keep fails (v ∷ vs) =
      let rest = first_failure keep fails vs in
      if keep v then (elim (fails v) [ none ↦ rest | some e ↦ some e ]) else rest

  -- The loop of the ForEach methods, over values in any order with a callback that answers by
  -- `fails` for each, calls it in that order for each value that is let through, up to and with the
  -- first that fails; its reply is that failure, but success for ErrStopIter.
  pub for_each-visited :
      (keep : V → Bool) (fails : V → Option Error) (vs seen : List V)
      → for_each keep (noting fails) vs seen
        ≡ (outcome (first_failure keep fails vs), seen ++ visited keep fails vs)
  unfolding for_each visited first_failure
  for_each-visited keep fails [] seen = ground (arith, append-nil seen)
  for_each-visited keep fails (v ∷ vs) seen = ground (
    arith,
    for_each-visited keep fails vs seen,
    for_each-visited keep fails vs (seen ++ v ∷ []),
    append_assoc seen (v ∷ []) (visited keep fails vs),
  )

  -- The values that the loop lets through, as a library filter.
  abbrev pub kept : (V → Bool) → List V → List V
  kept keep = filter (λ v. Bool-discrete (keep v) true)

  visited-kept :
      (keep : V → Bool) (fails : V → Option Error)
      → ((v : V) → fails v ≡ none)
      → (vs : List V)
      → (visited keep fails vs ≡ kept keep vs) × (first_failure keep fails vs ≡ none)
  unfolding visited first_failure
  visited-kept keep fails all [] = (refl, refl)
  visited-kept keep fails all (v ∷ vs) = ground (arith, all v, visited-kept keep fails all vs)

  -- If the order of the loop is a permutation and the callback never fails, the loop succeeds, and
  -- the values it calls back for are, up to order, exactly those that are let through.
  pub for_each-perm :
      (keep : V → Bool) (fails : V → Option Error) (order : Order V) (vs : List V)
      → ((xs : List V) → Perm (order xs) xs)
      → ((v : V) → fails v ≡ none)
      → ((for_each keep (noting fails) (order vs) []).0 ≡ ok tt)
        × Perm (for_each keep (noting fails) (order vs) []).1 (kept keep vs)
  for_each-perm keep fails order vs permutes all =
      rw
        (
          for_each-visited keep fails (order vs) [],
          (visited-kept keep fails all (order vs)).0,
          (visited-kept keep fails all (order vs)).1,
        )
        (refl, Perm.filter _ (permutes vs))
