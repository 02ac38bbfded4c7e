-- ===== src/Database/Memory/Subscribes.antt =====
-- The web push subscriptions: an empty end point keeps the one that is stored.
use go_openbmclapi.Prelude.{
  ◌≡◌, String, Option, none, some, arith, if◌then◌else◌, Option-cases, inl, inr,
}
use go_openbmclapi.Prelude.Eq.{string_eq, pair_eq, ◌==◌}
use go_openbmclapi.Prelude.GoMap.{lookup, IsMade, lookup-assign, assign-made}
use go_openbmclapi.Database.{ok, err, err_not_found, SubscribeRecord}
use go_openbmclapi.Database.Memory.{MemoryDb, set_subscribe, put_subscribe}

-- What is stored under the record's key afterwards, from what was stored before: none is ErrNotFound.
abbrev pub merged : SubscribeRecord → Option SubscribeRecord → Option SubscribeRecord
merged r old =
    if string_eq.test r.end_point ""
    then (elim old [ none ↦ none | some o ↦ some (record r { end_point = o.end_point }) ])
    else some r

abbrev pub key_of : SubscribeRecord → String × String
key_of r = (r.user, r.client)

put_subscribe-lookup :
    (m : MemoryDb) (r : SubscribeRecord) (k : String × String)
    → IsMade m.subscribe_records
    → ((put_subscribe r m).0 ≡ ok tt)
      × (lookup (put_subscribe r m).1.subscribe_records k
          ≡ (if key_of r == k then some r else lookup m.subscribe_records k))
unfolding put_subscribe
put_subscribe-lookup m r k made =
    let (t, q) = assign-made m.subscribe_records (r.user, r.client) r made in
    ground (arith, q, lookup-assign m.subscribe_records t (r.user, r.client) k r q)

-- In a database with a table of subscriptions, SetSubscribe stores under the record's key the record
-- itself, or, if it has no end point, the record with the end point stored before, and leaves all
-- other keys; it is ErrNotFound, and stores nothing new, exactly if there is neither.
pub set_subscribe-merged :
    (m : MemoryDb) (r : SubscribeRecord) (user client : String)
    → IsMade m.subscribe_records
    → ((set_subscribe r m).0 ≡ (elim (merged r (lookup m.subscribe_records (key_of r))) [
      | none ↦ err err_not_found
      | some _ ↦ ok tt
    ]))
      × (lookup (set_subscribe r m).1.subscribe_records (user, client) ≡ (
          if key_of r == (user, client)
          then merged r (lookup m.subscribe_records (key_of r))
          else lookup m.subscribe_records (user, client)))
unfolding set_subscribe
set_subscribe-merged m r user client made =
    elim (Option-cases (lookup m.subscribe_records (key_of r))) [
      | inl new ↦ ground (
        arith,
        new,
        put_subscribe-lookup m r (user, client) made,
        (pair_eq {A = String} {B = String}).agrees (key_of r) (user, client),
      )
      | inr (old, found) ↦ ground (
        arith,
        found,
        put_subscribe-lookup m r (user, client) made,
        put_subscribe-lookup m (record r { end_point = old.end_point }) (user, client) made,
      )
    ]
