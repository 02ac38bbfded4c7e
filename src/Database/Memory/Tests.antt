-- ===== src/Database/Memory/Tests.antt =====
-- database/memory.go and database/db.go: the database on concrete inputs.
use go_openbmclapi.Prelude.{
  ℕ, ◌≡◌, refl, String, Bool, true, false, Option, none, some, [], ◌∷◌, arith, leb, ◌==◌,
  if◌then◌else◌,
}
use go_openbmclapi.Prelude.Int.{pos}
use go_openbmclapi.Prelude.Eq.{string_eq, nat_eq, pair_eq}
use go_openbmclapi.Prelude.GoMap.{make, table, lookup, find, assign}
use go_openbmclapi.Database.{
  Error, err_not_found, ok, err, panic, FileRecord, SubscribeRecord, EmailSubscriptionRecord,
  WebhookRecord,
}
use go_openbmclapi.Database.Scopes.{NotificationScopes}
use go_openbmclapi.Database.Memory.{
  MemoryDb, new_memory_db, valid_jti, add_jti, get_file_record, set_file_record,
  get_email_subscription, add_email_subscription, get_webhook, add_webhook,
}
use go_openbmclapi.Database.Memory.Calls.{
  adds_jti, removes_jti, sets_file, removes_file, adds_email, run,
}
use go_openbmclapi.Database.Memory.Tokens.{valid_jti_until_expiry}
use go_openbmclapi.Database.Memory.Files.{get_file_record-set}
use go_openbmclapi.Database.Memory.Missing.{new_db_never_stores}

abbrev no_scopes : NotificationScopes
no_scopes = record {
  disabled = false;
  enabled = false;
  sync_begin = false;
  sync_done = false;
  updates = false;
  daily_report = false;
}

abbrev a_file : FileRecord
a_file = record { path = "/a"; hash = "1"; size = pos 1 }

abbrev b_file : FileRecord
b_file = record { path = "/b"; hash = "2"; size = pos 2 }

abbrev email : EmailSubscriptionRecord
email = record { user = "u"; addr = "x"; scopes = no_scopes; enabled = true }

abbrev hook : WebhookRecord
hook = record {
  user = "u";
  id = 3;
  name = "n";
  end_point = "e";
  auth = none;
  auth_hash = "";
  scopes = no_scopes;
  enabled = true;
}

abbrev subscribed : SubscribeRecord
subscribed = record {
  user = "u";
  client = "c";
  end_point = "e";
  keys = record { auth = ""; p256dh = "" };
  scopes = no_scopes;
  report_at = record { hour = 8; minute = 30 };
  last_report = none;
}

abbrev db : MemoryDb
db = record {
  file_records = make;
  tokens = table (("t", 10) ∷ []);
  subscribe_records = table ((("u", "c"), subscribed) ∷ []);
  email_sub_records = table ((("u", "x"), email) ∷ []);
  webhook_records = table ((("u", 3), hook) ∷ []);
}

abbrev same_text : String → String
same_text s = s

b_differs : ◌≡◌ {A = String} "/b" "/a" → ⊥
b_differs e = ground (arith, string_eq.agrees "/b" "/a")

t_differs : ◌≡◌ {A = String} "t" "j" → ⊥
t_differs e = ground (arith, string_eq.agrees "t" "j")

valid_jti_until_expiry_example :
    (valid_jti "j" 4 (run same_text (removes_jti "t" ∷ adds_jti "k" 1 ∷ []) (add_jti "j" 5 db).1)).0
    ≡ ok true
unfolding add_jti lookup find assign
valid_jti_until_expiry_example =
    valid_jti_until_expiry same_text (removes_jti "t" ∷ adds_jti "k" 1 ∷ []) db "j" 5 4 refl
      (t_differs, (tt, tt))

get_file_record-set_example :
    (get_file_record "/a"
      (run same_text (sets_file b_file ∷ removes_file "/b" ∷ []) (set_file_record a_file db).1)).0
    ≡ ok a_file
get_file_record-set_example =
    get_file_record-set same_text (sets_file b_file ∷ removes_file "/b" ∷ []) db a_file refl
      (b_differs, (b_differs, tt))

abbrev no_end_point : SubscribeRecord
no_end_point = record subscribed { end_point = "" }

new_db_never_stores_example :
    let m = run same_text (adds_email email ∷ []) new_memory_db in
    ((add_email_subscription email m).0 ≡ panic)
    × ((get_email_subscription "u" "x" m).0 ≡ err err_not_found)
    × ((add_webhook same_text (some 3) hook m).0 ≡ panic)
    × ((get_webhook "u" 3 m).0 ≡ err err_not_found)
new_db_never_stores_example = new_db_never_stores same_text (adds_email email ∷ []) email hook 3

abbrev small : ℕ → Bool
small n = leb n 5

abbrev fails_at_two : ℕ → Option Error
fails_at_two n = if n == 2 then some err_not_found else none
