-- ===== src/Database/Memory/Tokens.antt =====
-- The tokens: what is added stays valid up to its expiry, until it is removed.
use go_openbmclapi.Prelude.{
  ℕ, ◌≡◌, ◌≢◌, String, some, List, [], ◌∷◌, arith, leb, if◌then◌else◌, All, Option-cases, inl, inr,
}
use go_openbmclapi.Prelude.Eq.{string_eq, ◌==◌, ==-self}
use go_openbmclapi.Prelude.GoMap.{lookup, assign, lookup-delete, lookup-assign}
use go_openbmclapi.Database.{ok, err, err_not_found}
use go_openbmclapi.Database.Memory.{MemoryDb, valid_jti, add_jti, remove_jti}
use go_openbmclapi.Database.Memory.Frame.{perform-Frame}
use go_openbmclapi.Database.Memory.Calls.{
  Call, cleans, adds_jti, removes_jti, sets_file, perform, run,
}

-- The calls that take the token `jti` away: its removal, and the end of the database.
abbrev pub SparesToken : String → Call → Type 0
SparesToken jti cleans = ⊥
SparesToken jti (removes_jti j) = j ≢ jti
SparesToken jti _ = Unit

-- Any other call leaves a stored token as it is; an addition of a stored one fails.
perform-token :
    (hash : String → String) (c : Call) (m : MemoryDb) (jti : String) (expire : ℕ)
    → SparesToken jti c
    → lookup m.tokens jti ≡ some expire
    → lookup (perform hash c m).1.tokens jti ≡ some expire
unfolding perform remove_jti add_jti
perform-token hash cleans m jti expire spares at = absurd spares
perform-token hash (removes_jti j) m jti expire spares at =
    ground (arith, lookup-delete m.tokens j jti, string_eq.agrees j jti)
perform-token hash (adds_jti j e) m jti expire spares at =
    elim (Option-cases (assign m.tokens j e)) [
      | inl q ↦ ground (arith, q)
      | inr (t, q) ↦ ground (arith, q, lookup-assign m.tokens t j jti e q, string_eq.agrees j jti)
    ]
perform-token hash (sets_file r) m jti expire spares at =
    ground (arith, perform-Frame hash (sets_file r) m)
perform-token hash c m jti expire spares at = ground (arith, perform-Frame hash c m)

run-token :
    (hash : String → String) (cs : List Call) (m : MemoryDb) (jti : String) (expire : ℕ)
    → All (SparesToken jti) cs
    → lookup m.tokens jti ≡ some expire
    → lookup (run hash cs m).tokens jti ≡ some expire
unfolding run
run-token hash [] m jti expire spares at = at
run-token hash (c ∷ cs) m jti expire spares at =
    run-token hash cs (perform hash c m).1 jti expire spares.1
      (perform-token hash c m jti expire spares.0 at)

added_token :
    (m : MemoryDb) (jti : String) (expire : ℕ)
    → (add_jti jti expire m).0 ≡ ok tt
    → lookup (add_jti jti expire m).1.tokens jti ≡ some expire
unfolding add_jti
added_token m jti expire h = elim (Option-cases (assign m.tokens jti expire)) [
  | inl q ↦ ground (arith, q)
  | inr (t, q) ↦ ground (arith, q, lookup-assign m.tokens t jti jti expire q, ==-self jti)
]

-- After AddJTI has succeeded, and after any calls that neither remove that id nor end the database,
-- ValidJTI finds the id and says that it is valid exactly up to its expiry.
pub valid_jti_until_expiry :
    (hash : String → String) (cs : List Call) (m : MemoryDb) (jti : String) (expire now : ℕ)
    → (add_jti jti expire m).0 ≡ ok tt
    → All (SparesToken jti) cs
    → (valid_jti jti now (run hash cs (add_jti jti expire m).1)).0 ≡ ok (leb now expire)
unfolding valid_jti
valid_jti_until_expiry hash cs m jti expire now added spares = ground (
  arith,
  run-token hash cs (add_jti jti expire m).1 jti expire spares (added_token m jti expire added),
)

-- Where RemoveJTI succeeds, ValidJTI then answers ErrNotFound for the removed id and what it answered
-- before for every other, and a second RemoveJTI of the id is ErrNotFound.
pub removed_jti :
    (m : MemoryDb) (jti j : String) (now : ℕ)
    → (remove_jti jti m).0 ≡ ok tt
    → ((valid_jti j now (remove_jti jti m).1).0
        ≡ (if jti == j then err err_not_found else (valid_jti j now m).0))
      × ((remove_jti jti (remove_jti jti m).1).0 ≡ err err_not_found)
unfolding valid_jti remove_jti
removed_jti m jti j now h =
    ground (arith, lookup-delete m.tokens jti j, lookup-delete m.tokens jti jti, ==-self jti)
