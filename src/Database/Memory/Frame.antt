-- ===== src/Database/Memory/Frame.antt =====
-- Which map each call of the database may change.
use go_openbmclapi.Prelude.{◌≡◌, String, none, some, arith}
use go_openbmclapi.Database.Memory.{
  MemoryDb, cleanup, add_jti, remove_jti, set_file_record, remove_file_record, set_subscribe,
  put_subscribe, remove_subscribe, add_email_subscription, update_email_subscription,
  remove_email_subscription, add_webhook, update_webhook, update_enable_webhook, remove_webhook,
}
use go_openbmclapi.Database.Memory.Calls.{
  Call, cleans, adds_jti, removes_jti, sets_file, removes_file, sets_subscribe, removes_subscribe,
  adds_email, updates_email, removes_email, adds_webhook, updates_webhook, enables_webhook,
  removes_webhook, perform,
}

pub data Table : Type 0 where
  tokens files subscribes emails webhooks every : Table

-- The map that a call writes to.
abbrev pub table_of : Call → Table
table_of cleans = every
table_of (adds_jti _ _) = tokens
table_of (removes_jti _) = tokens
table_of (sets_file _) = files
table_of (removes_file _) = files
table_of (sets_subscribe _) = subscribes
table_of (removes_subscribe _ _) = subscribes
table_of (adds_email _) = emails
table_of (updates_email _) = emails
table_of (removes_email _ _) = emails
table_of (adds_webhook _ _) = webhooks
table_of (updates_webhook _) = webhooks
table_of (enables_webhook _ _ _) = webhooks
table_of (removes_webhook _ _) = webhooks

-- The parts of the database that a call on `t` leaves as they are.
abbrev pub Frame : Table → MemoryDb → MemoryDb → Type 0
Frame tokens m n =
    (n.file_records ≡ m.file_records)
    × (n.subscribe_records ≡ m.subscribe_records)
    × (n.email_sub_records ≡ m.email_sub_records)
    × (n.webhook_records ≡ m.webhook_records)
Frame files m n =
    (n.tokens ≡ m.tokens)
    × (n.subscribe_records ≡ m.subscribe_records)
    × (n.email_sub_records ≡ m.email_sub_records)
    × (n.webhook_records ≡ m.webhook_records)
Frame subscribes m n =
    (n.tokens ≡ m.tokens)
    × (n.file_records ≡ m.file_records)
    × (n.email_sub_records ≡ m.email_sub_records)
    × (n.webhook_records ≡ m.webhook_records)
Frame emails m n =
    (n.tokens ≡ m.tokens)
    × (n.file_records ≡ m.file_records)
    × (n.subscribe_records ≡ m.subscribe_records)
    × (n.webhook_records ≡ m.webhook_records)
Frame webhooks m n =
    (n.tokens ≡ m.tokens)
    × (n.file_records ≡ m.file_records)
    × (n.subscribe_records ≡ m.subscribe_records)
    × (n.email_sub_records ≡ m.email_sub_records)
Frame every m n =
    (n.subscribe_records ≡ m.subscribe_records)
    × (n.email_sub_records ≡ m.email_sub_records)
    × (n.webhook_records ≡ m.webhook_records)

-- Each call that changes the database leaves every map as it is but the one of its kind of record;
-- Cleanup leaves the subscriptions and the webhooks.
pub perform-Frame :
    (hash : String → String) (c : Call) (m : MemoryDb) → Frame (table_of c) m (perform hash c m).1
unfolding perform cleanup add_jti remove_jti set_file_record remove_file_record set_subscribe
    put_subscribe remove_subscribe add_email_subscription update_email_subscription
    remove_email_subscription add_webhook update_webhook update_enable_webhook remove_webhook
perform-Frame hash cleans m = ground arith
perform-Frame hash (adds_webhook none r) m = ground arith
perform-Frame hash (adds_webhook (some i) r) m = ground arith
perform-Frame hash _ m = ground arith
