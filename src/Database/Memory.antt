-- ===== src/Database/Memory.antt =====
-- database/memory.go: the MemoryDB. A method is a function from its arguments and the database to a
-- reply and the database that it leaves; it holds its lock throughout. A clock reading, the
-- identifier that uuid.NewV7 makes and the hash are arguments.
pub mod Iterate
pub mod Calls
pub mod Frame
pub mod Tokens
pub mod Files
pub mod Subscribes
pub mod Missing
pub mod Stays
pub mod Tests
use go_openbmclapi.Prelude.{
  ℕ, ◌≡◌, String, Bool, true, false, ◌&&◌, not, Option, none, some, ltb, if◌then◌else◌,
}
use go_openbmclapi.Prelude.Int.{eqb_ℤ}
use go_openbmclapi.Prelude.Eq.{Eq, string_eq, nat_eq, pair_eq}
use go_openbmclapi.Prelude.GoMap.{GoMap, nil, make, lookup, assign, delete}
use go_openbmclapi.Database.{
  Error, err_not_found, err_exists, err_uuid, Reply, ok, err, panic, FileRecord, SubscribeRecord,
  EmailSubscriptionRecord, WebhookRecord,
}

pub record MemoryDb : Type 0 where
  pub file_records : GoMap String FileRecord
  pub tokens : GoMap String ℕ
  pub subscribe_records : GoMap (String × String) SubscribeRecord
  pub email_sub_records : GoMap (String × String) EmailSubscriptionRecord
  pub webhook_records : GoMap (String × ℕ) WebhookRecord

-- NewMemoryDB makes three of the five maps.
pub new_memory_db : MemoryDb
new_memory_db = record {
  file_records = make;
  tokens = make;
  subscribe_records = make;
  email_sub_records = nil;
  webhook_records = nil;
}

pub cleanup : MemoryDb → Reply (Unit {0}) × MemoryDb
cleanup m = (ok tt, record m { file_records = nil; tokens = nil })

-- A write to a map of the database: `put` names the database with the new map.
abbrev store {ℓ} : {M : Type ℓ} → MemoryDb → (M → MemoryDb) → Option M → Reply (Unit {0}) × MemoryDb
store m put none = (panic, m)
store m put (some t) = (ok tt, put t)

pub valid_jti : String → ℕ → MemoryDb → Reply Bool × MemoryDb
valid_jti jti now m = elim (lookup m.tokens jti) [
  | none ↦ (err err_not_found, m)
  | some expire ↦ (ok (not (ltb expire now)), m)
]

unfoldable pub add_jti : String → ℕ → MemoryDb → Reply (Unit {0}) × MemoryDb
add_jti jti expire m = elim (lookup m.tokens jti) [
  | some _ ↦ (err err_exists, m)
  | none ↦ store m (λ t. record m { tokens = t }) (assign m.tokens jti expire)
]

unfoldable pub remove_jti : String → MemoryDb → Reply (Unit {0}) × MemoryDb
remove_jti jti m = elim (lookup m.tokens jti) [
  | none ↦ (err err_not_found, m)
  | some _ ↦ (ok tt, record m { tokens = delete m.tokens jti })
]

pub get_file_record : String → MemoryDb → Reply FileRecord × MemoryDb
get_file_record path m = elim (lookup m.file_records path) [
  | none ↦ (err err_not_found, m)
  | some record' ↦ (ok record', m)
]

-- *old == record
abbrev pub same_file : FileRecord → FileRecord → Bool
same_file a b = string_eq.test a.path b.path && string_eq.test a.hash b.hash && eqb_ℤ a.size b.size

pub set_file_record : FileRecord → MemoryDb → Reply (Unit {0}) × MemoryDb
set_file_record r m =
    let write = store m (λ t. record m { file_records = t }) (assign m.file_records r.path r) in
    elim (lookup m.file_records r.path) [
      | none ↦ write
      | some old ↦ if same_file old r then (ok tt, m) else write
    ]

pub remove_file_record : String → MemoryDb → Reply (Unit {0}) × MemoryDb
remove_file_record path m = elim (lookup m.file_records path) [
  | none ↦ (err err_not_found, m)
  | some _ ↦ (ok tt, record m { file_records = delete m.file_records path })
]

pub get_subscribe : String → String → MemoryDb → Reply SubscribeRecord × MemoryDb
get_subscribe user client m = elim (lookup m.subscribe_records (user, client)) [
  | none ↦ (err err_not_found, m)
  | some r ↦ (ok r, m)
]

unfoldable pub put_subscribe : SubscribeRecord → MemoryDb → Reply (Unit {0}) × MemoryDb
put_subscribe r m =
    store m (λ t. record m { subscribe_records = t })
      (assign m.subscribe_records (r.user, r.client) r)

-- An empty end point stands for the one that is stored.
pub set_subscribe : SubscribeRecord → MemoryDb → Reply (Unit {0}) × MemoryDb
set_subscribe r m =
    if string_eq.test r.end_point ""
    then (elim (lookup m.subscribe_records (r.user, r.client)) [
      | none ↦ (err err_not_found, m)
      | some old ↦ put_subscribe (record r { end_point = old.end_point }) m
    ])
    else put_subscribe r m

pub remove_subscribe : String → String → MemoryDb → Reply (Unit {0}) × MemoryDb
remove_subscribe user client m = elim (lookup m.subscribe_records (user, client)) [
  | none ↦ (err err_not_found, m)
  | some _ ↦ (ok tt, record m { subscribe_records = delete m.subscribe_records (user, client) })
]

pub get_email_subscription : String → String → MemoryDb → Reply EmailSubscriptionRecord × MemoryDb
get_email_subscription user addr m = elim (lookup m.email_sub_records (user, addr)) [
  | none ↦ (err err_not_found, m)
  | some r ↦ (ok r, m)
]

pub put_email : EmailSubscriptionRecord → MemoryDb → Reply (Unit {0}) × MemoryDb
put_email r m =
    store m (λ t. record m { email_sub_records = t })
      (assign m.email_sub_records (r.user, r.addr) r)

pub add_email_subscription : EmailSubscriptionRecord → MemoryDb → Reply (Unit {0}) × MemoryDb
unfolding put_email
add_email_subscription r m = elim (lookup m.email_sub_records (r.user, r.addr)) [
  | some _ ↦ (err err_exists, m)
  | none ↦ put_email r m
]

pub update_email_subscription : EmailSubscriptionRecord → MemoryDb → Reply (Unit {0}) × MemoryDb
unfolding put_email
update_email_subscription r m = elim (lookup m.email_sub_records (r.user, r.addr)) [
  | some _ ↦ (err err_not_found, m)
  | none ↦ put_email r m
]

pub remove_email_subscription : String → String → MemoryDb → Reply (Unit {0}) × MemoryDb
remove_email_subscription user addr m = elim (lookup m.email_sub_records (user, addr)) [
  | some _ ↦ (err err_not_found, m)
  | none ↦ (ok tt, record m { email_sub_records = delete m.email_sub_records (user, addr) })
]

pub get_webhook : String → ℕ → MemoryDb → Reply WebhookRecord × MemoryDb
get_webhook user id m = elim (lookup m.webhook_records (user, id)) [
  | none ↦ (err err_not_found, m)
  | some r ↦ (ok r, m)
]

-- The hash of an authorization that is not empty; `auth` is *record.Auth.
abbrev pub with_auth : (String → String) → WebhookRecord → String → WebhookRecord
with_auth as_sha256 r auth =
    if string_eq.test auth ""
    then record r { auth = some auth }
    else record r { auth = some auth; auth_hash = as_sha256 auth }

pub put_webhook : WebhookRecord → MemoryDb → Reply (Unit {0}) × MemoryDb
put_webhook r m =
    store m (λ t. record m { webhook_records = t }) (assign m.webhook_records (r.user, r.id) r)

-- `new_id` is what uuid.NewV7 gives, none its error.
pub add_webhook :
    (String → String) → Option ℕ → WebhookRecord → MemoryDb → Reply (Unit {0}) × MemoryDb
unfolding put_webhook
add_webhook as_sha256 none r m = (err err_uuid, m)
add_webhook as_sha256 (some new_id) r m = elim (lookup m.webhook_records (r.user, new_id)) [
  | some _ ↦ (err err_exists, m)
  | none ↦
      put_webhook
        (with_auth as_sha256 (record r { id = new_id })
          (elim r.auth [ none ↦ "" | some auth ↦ auth ]))
        m
]

-- Where the record is not found, `old` is nil: its `Auth` cannot be read.
pub update_webhook : (String → String) → WebhookRecord → MemoryDb → Reply (Unit {0}) × MemoryDb
unfolding put_webhook
update_webhook as_sha256 r m = elim (lookup m.webhook_records (r.user, r.id)) [
  | some _ ↦ (err err_not_found, m)
  | none ↦ elim r.auth [
    | none ↦ (panic, m)
    | some auth ↦ put_webhook (with_auth as_sha256 r auth) m
  ]
]

-- Where the record is not found, `*old` is a read of nil.
pub update_enable_webhook : String → ℕ → Bool → MemoryDb → Reply (Unit {0}) × MemoryDb
update_enable_webhook user id enabled m = elim (lookup m.webhook_records (user, id)) [
  | some _ ↦ (err err_not_found, m)
  | none ↦ (panic, m)
]

pub remove_webhook : String → ℕ → MemoryDb → Reply (Unit {0}) × MemoryDb
remove_webhook user id m = elim (lookup m.webhook_records (user, id)) [
  | some _ ↦ (err err_not_found, m)
  | none ↦ (ok tt, record m { webhook_records = delete m.webhook_records (user, id) })
]
