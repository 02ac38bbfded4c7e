-- ===== src/Database.antt =====
-- database/db.go: the records that a DB stores, its errors, and the replies of its methods.
pub mod Scopes
pub mod ReportTime
pub mod Memory
use go_openbmclapi.Prelude.{ℕ, ◌≡◌, String, Bool, true, false, ◌&&◌, Option, none, some, ◌↔◌}
use go_openbmclapi.Prelude.Int.{ℤ}
use Scopes.{NotificationScopes}
use ReportTime.{Schedule}

-- The errors of the package, those of uuid.NewV7, and those that a caller's callback makes up.
pub data Error : Type 0 where
  err_stop_iter err_not_found err_exists err_uuid : Error
  other : ℕ → Error

-- What a method gives: a value, an error, or a panic. The state comes back beside it.
pub data Reply {ℓ} (A : Type ℓ) : Type ℓ where
  ok : A → Reply A
  err : Error → Reply A
  panic : Reply A

pub record FileRecord : Type 0 where
  pub path : String
  pub hash : String
  pub size : ℤ

pub record SubscribeRecordKeys : Type 0 where
  pub auth : String
  pub p256dh : String

pub record SubscribeRecord : Type 0 where
  pub user : String
  pub client : String
  pub end_point : String
  pub keys : SubscribeRecordKeys
  pub scopes : NotificationScopes
  pub report_at : Schedule
  pub last_report : Option ℕ

pub record EmailSubscriptionRecord : Type 0 where
  pub user : String
  pub addr : String
  pub scopes : NotificationScopes
  pub enabled : Bool

-- A uuid.UUID is its 128-bit value.
pub record WebhookRecord : Type 0 where
  pub user : String
  pub id : ℕ
  pub name : String
  pub end_point : String
  pub auth : Option String
  pub auth_hash : String
  pub scopes : NotificationScopes
  pub enabled : Bool
