-- ===== src/Database/Memory/Missing.antt =====
-- The e-mail subscriptions and the webhooks: two maps that NewMemoryDB does not make, and tests on a
-- found record that are the wrong way round.
use go_openbmclapi.Prelude.{ℕ, ◌≡◌, refl, String, none, some, List, [], ◌∷◌, arith}
use go_openbmclapi.Prelude.Eq.{string_eq, nat_eq, pair_eq}
use go_openbmclapi.Prelude.GoMap.{nil, lookup, assign, delete, lookup-delete, lookup-nil}
use go_openbmclapi.Database.{err, panic, err_not_found, EmailSubscriptionRecord, WebhookRecord}
use go_openbmclapi.Database.Memory.{
  MemoryDb, new_memory_db, get_email_subscription, add_email_subscription,
  update_email_subscription, remove_email_subscription, get_webhook, add_webhook, update_webhook,
  update_enable_webhook, remove_webhook,
}
use go_openbmclapi.Database.Memory.Frame.{perform-Frame}
use go_openbmclapi.Database.Memory.Calls.{
  Call, adds_email, updates_email, removes_email, adds_webhook, updates_webhook, enables_webhook,
  removes_webhook, perform, run,
}

abbrev pub NoneMade : MemoryDb → Type 0
NoneMade m = (m.email_sub_records ≡ nil) × (m.webhook_records ≡ nil)

perform-NoneMade :
    (hash : String → String) (c : Call) (m : MemoryDb) → NoneMade m → NoneMade (perform hash c m).1
unfolding perform add_email_subscription update_email_subscription remove_email_subscription
    add_webhook update_webhook update_enable_webhook remove_webhook assign delete
perform-NoneMade hash (adds_webhook none r) m h = ground arith
perform-NoneMade hash (adds_webhook (some i) r) m h = ground arith
perform-NoneMade hash (adds_email r) m h = ground arith
perform-NoneMade hash (updates_email r) m h = ground arith
perform-NoneMade hash (removes_email u a) m h = ground arith
perform-NoneMade hash (updates_webhook r) m h = ground arith
perform-NoneMade hash (enables_webhook u i b) m h = ground arith
perform-NoneMade hash (removes_webhook u i) m h = ground arith
perform-NoneMade hash c m h = ground (arith, perform-Frame hash c m)

run-NoneMade :
    (hash : String → String) (cs : List Call) (m : MemoryDb) → NoneMade m → NoneMade (run hash cs m)
unfolding run
run-NoneMade hash [] m h = h
run-NoneMade hash (c ∷ cs) m h =
    run-NoneMade hash cs (perform hash c m).1 (perform-NoneMade hash c m h)

-- Whatever calls were made on a database that NewMemoryDB made, adding an email subscription or a
-- webhook panics, and looking one up is ErrNotFound.
pub new_db_never_stores :
    (hash : String → String) (cs : List Call) (e : EmailSubscriptionRecord) (w : WebhookRecord)
    (id : ℕ)
    → let m = run hash cs new_memory_db in
      ((add_email_subscription e m).0 ≡ panic)
      × ((get_email_subscription e.user e.addr m).0 ≡ err err_not_found)
      × ((add_webhook hash (some id) w m).0 ≡ panic)
      × ((get_webhook w.user id m).0 ≡ err err_not_found)
unfolding new_memory_db add_email_subscription add_webhook get_email_subscription get_webhook assign
new_db_never_stores hash cs e w id = ground (
  arith,
  run-NoneMade hash cs new_memory_db (refl, refl),
  lookup-nil {K = String × String} {V = EmailSubscriptionRecord} (e.user, e.addr),
  lookup-nil {K = String × ℕ} {V = WebhookRecord} (w.user, id),
)

-- RemoveEmailSubscription and RemoveWebhook leave what is stored under every key.
pub removals_remove_nothing :
    (m : MemoryDb) (user addr : String) (id : ℕ) (k : String × String) (j : String × ℕ)
    → (lookup (remove_email_subscription user addr m).1.email_sub_records k
        ≡ lookup m.email_sub_records k)
      × (lookup (remove_webhook user id m).1.webhook_records j ≡ lookup m.webhook_records j)
unfolding remove_email_subscription remove_webhook
removals_remove_nothing m user addr id k j = ground (
  arith,
  lookup-delete m.email_sub_records (user, addr) k,
  lookup-delete m.webhook_records (user, id) j,
  (pair_eq {A = String} {B = String}).agrees (user, addr) k,
  (pair_eq {A = String} {B = ℕ}).agrees (user, id) j,
)
