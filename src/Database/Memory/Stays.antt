-- ===== src/Database/Memory/Stays.antt =====
-- An email subscription or a webhook that is stored stays as it is.
use go_openbmclapi.Prelude.{ℕ, ◌≡◌, String, some}
use go_openbmclapi.Prelude.Eq.{Eq, string_eq, nat_eq, pair_eq}
use go_openbmclapi.Prelude.GoMap.{GoMap, lookup}
use go_openbmclapi.Database.{EmailSubscriptionRecord, WebhookRecord}
use go_openbmclapi.Database.Memory.{MemoryDb}

abbrev pub HasEmail : String × String → EmailSubscriptionRecord → MemoryDb → Type 0
HasEmail k r m = lookup m.email_sub_records k ≡ some r

abbrev pub HasWebhook : String × ℕ → WebhookRecord → MemoryDb → Type 0
HasWebhook k r m = lookup m.webhook_records k ≡ some r
