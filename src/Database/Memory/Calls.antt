-- ===== src/Database/Memory/Calls.antt =====
-- database/db.go: the interface DB as one type of calls, and MemoryDB as an object that takes them
-- one after another.
use go_openbmclapi.Prelude.{ℕ, String, Bool, Option, List, [], ◌∷◌}
use go_openbmclapi.Database.{
  Reply, FileRecord, SubscribeRecord, EmailSubscriptionRecord, WebhookRecord,
}
use go_openbmclapi.Database.Memory.{
  MemoryDb, cleanup, add_jti, remove_jti, set_file_record, remove_file_record, set_subscribe,
  remove_subscribe, add_email_subscription, update_email_subscription, remove_email_subscription,
  add_webhook, update_webhook, update_enable_webhook, remove_webhook,
}

-- The calls that may change the database. The getters and the ForEach methods leave it as it is.
pub data Call : Type 0 where
  cleans : Call
  adds_jti : String → ℕ → Call
  removes_jti : String → Call
  sets_file : FileRecord → Call
  removes_file : String → Call
  sets_subscribe : SubscribeRecord → Call
  removes_subscribe : String → String → Call
  adds_email updates_email : EmailSubscriptionRecord → Call
  removes_email : String → String → Call
  adds_webhook : Option ℕ → WebhookRecord → Call
  updates_webhook : WebhookRecord → Call
  enables_webhook : String → ℕ → Bool → Call
  removes_webhook : String → ℕ → Call

unfoldable pub perform : (String → String) → Call → MemoryDb → Reply (Unit {0}) × MemoryDb
perform hash cleans = cleanup
perform hash (adds_jti j e) = add_jti j e
perform hash (removes_jti j) = remove_jti j
perform hash (sets_file r) = set_file_record r
perform hash (removes_file p) = remove_file_record p
perform hash (sets_subscribe r) = set_subscribe r
perform hash (removes_subscribe u c) = remove_subscribe u c
perform hash (adds_email r) = add_email_subscription r
perform hash (updates_email r) = update_email_subscription r
perform hash (removes_email u a) = remove_email_subscription u a
perform hash (adds_webhook id r) = add_webhook hash id r
perform hash (updates_webhook r) = update_webhook hash r
perform hash (enables_webhook u id e) = update_enable_webhook u id e
perform hash (removes_webhook u id) = remove_webhook u id

-- A program goes on after an error; the server recovers from a panic in a request.
unfoldable pub run : (String → String) → List Call → MemoryDb → MemoryDb
run hash [] m = m
run hash (c ∷ cs) m = run hash cs (perform hash c m).1
