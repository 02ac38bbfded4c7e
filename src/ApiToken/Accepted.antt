-- ===== src/ApiToken/Accepted.antt =====
-- Which tokens the dashboard's interface accepts.
use go_openbmclapi.Prelude.{
  ℕ, ◌+◌, ◌*◌, ◌≡◌, refl, String, Bool, true, false, ◌&&◌, not, Option, none, some, List, arith,
  leb, ltb, if◌then◌else◌, Option-cases, inl, inr, ◌⊎◌, All,
}
use go_openbmclapi.Prelude.Eq.{string_eq, ==-self}
use go_openbmclapi.Database.{Error, Reply, ok, err, panic}
use go_openbmclapi.Database.Memory.{MemoryDb, add_jti, remove_jti}
use go_openbmclapi.Database.Memory.Calls.{Call, run}
use go_openbmclapi.Database.Memory.Tokens.{SparesToken, valid_jti_until_expiry, removed_jti}
use go_openbmclapi.ApiToken.{
  Claims, auth_token_subject, api_token_subject, second, numeric_date, not_parsed,
  client_id_not_match, jti_not_exists, strict_path_not_match, strict_query_not_match, generated,
  Verified, verified, rejected, query_matches, sign_and_store, auth_claims, generate_auth_token,
  common_error, verify_auth_token, api_claims, generate_api_token, verify_api_token,
}

-- A parser gives back the claims of a signed token where it has the wanted subject and issuer, was issued
-- by now and has not expired.
abbrev pub is_current : String → String → ℕ → Claims → Bool
is_current subject issuer now c =
    string_eq.test c.subject subject
    && string_eq.test c.issuer issuer
    && leb c.issued_at now
    && ltb now c.expires_at

Reply-cases : (r : Reply (Unit {0})) → (r ≡ ok tt) ⊎ (((e : Error) × (r ≡ err e)) ⊎ (r ≡ panic))
Reply-cases (ok x) = inl refl
Reply-cases (err e) = inr (inl (e, refl))
Reply-cases panic = inr (inr refl)

abbrev pub is_rejected : Verified → Bool
is_rejected (verified id user) = false
is_rejected (rejected e) = true

module _ (sign : Claims → Option String) (parse : String → String → ℕ → String → Option Claims)
    (issuer : String)
    (parses : (c : Claims) (token subject iss : String) (now : ℕ)
      → sign c ≡ some token
      → parse subject iss now token ≡ (if is_current subject iss now c then some c else none)) where
  -- A generated token is signed, and its id stored.
  generated_token :
      (c : Claims) (exp : ℕ) (db : MemoryDb) (token : String)
      → (sign_and_store sign parse issuer c exp db).0 ≡ generated token
      → (sign c ≡ some token)
        × ((add_jti c.id exp db).0 ≡ ok tt)
        × ((sign_and_store sign parse issuer c exp db).1 ≡ (add_jti c.id exp db).1)
  unfolding sign_and_store
  generated_token c exp db token h = elim (Option-cases (sign c)) [
    | inl unsigned ↦ ground (arith, h, unsigned)
    | inr (t, signed) ↦ elim (Reply-cases (add_jti c.id exp db).0) [
      | inl added ↦ ground (arith, h, signed, added)
      | inr (inl (e, fails)) ↦ ground (arith, h, signed, fails)
      | inr (inr panics) ↦ ground (arith, h, signed, panics)
    ]
  ]

  -- The tests of a token whose id is stored.
  stored-common_error :
      (hash : String → String) (cs : List Call) (c : Claims) (exp : ℕ) (db : MemoryDb)
      (client : String) (now : ℕ)
      → (add_jti c.id exp db).0 ≡ ok tt
      → All (SparesToken c.id) cs
      → common_error sign parse issuer client c now (run hash cs (add_jti c.id exp db).1) ≡ (
          if not (string_eq.test c.client client)
          then some client_id_not_match
          else if string_eq.test c.user ""
          then some jti_not_exists
          else if leb now exp
          then none
          else some jti_not_exists)
  unfolding common_error
  stored-common_error hash cs c exp db client now added spares =
      ground (arith, valid_jti_until_expiry hash cs db c.id exp now added spares)

  -- A time at which a token that was made at `start`, for `life` nanoseconds, is neither early nor late.
  abbrev pub is_alive : ℕ → ℕ → ℕ → Bool
  is_alive start life now = leb (numeric_date start) now && ltb now (numeric_date (start + life))

  -- A token that generateAuthToken has made and stored, after any calls of the database that neither
  -- remove its id nor end the database, is verified for its id and user exactly if it is given with its
  -- client, between the second of its making and the second 24 hours later, and its user is not empty;
  -- otherwise it is rejected, with the error of the first test that it fails.
  pub verify_auth_token-generated :
      (hash : String → String) (cs : List Call) (db : MemoryDb) (jti client user token : String)
      (start : ℕ) (cli : String) (now : ℕ)
      → (generate_auth_token sign parse issuer (some jti) client user start db).0 ≡ generated token
      → All (SparesToken jti) cs
      → verify_auth_token sign parse issuer cli token now
          (run hash cs (generate_auth_token sign parse issuer (some jti) client user start db).1)
        ≡ (if not (is_alive start (86400 * second) now)
            then rejected not_parsed
            else if not (string_eq.test client cli)
            then rejected client_id_not_match
            else if string_eq.test user ""
            then rejected jti_not_exists
            else verified jti user)
  unfolding verify_auth_token generate_auth_token
  verify_auth_token-generated hash cs db jti client user token start cli now h spares =
      let c = auth_claims sign parse issuer jti client user start in
      let (signed, added, at) = generated_token c (start + 86400 * second) db token h in
      ground (
        arith,
        at,
        parses c token auth_token_subject issuer now signed,
        string_eq.agrees auth_token_subject auth_token_subject,
        string_eq.agrees issuer issuer,
        stored-common_error hash cs c (start + 86400 * second) db cli now added spares,
      )

  -- The same for generateAPIToken, whose tokens live for 10 minutes, and are verified only for the path
  -- that they were made for and a query that has the values that they were made with.
  pub verify_api_token-generated :
      (hash : String → String) (cs : List Call) (db : MemoryDb)
      (jti client user path token : String) (strict : List (String × String)) (start : ℕ)
      (cli request_path : String) (query : List (String × String)) (now : ℕ)
      → (generate_api_token sign parse issuer (some jti) client user path strict start db).0
        ≡ generated token
      → All (SparesToken jti) cs
      → verify_api_token sign parse issuer cli token request_path query now (
          run hash cs
            (generate_api_token sign parse issuer (some jti) client user path strict start db).1)
        ≡ (if not (is_alive start (600 * second) now)
            then rejected not_parsed
            else if not (string_eq.test client cli)
            then rejected client_id_not_match
            else if string_eq.test user ""
            then rejected jti_not_exists
            else if not (string_eq.test path request_path)
            then rejected strict_path_not_match
            else if not (query_matches strict query)
            then rejected strict_query_not_match
            else verified jti user)
  unfolding verify_api_token generate_api_token
  verify_api_token-generated hash cs db jti client user path token strict start cli request_path
        query now h spares =
      let c = api_claims sign parse issuer jti client user path strict start in
      let (signed, added, at) = generated_token c (start + 600 * second) db token h in
      ground (
        arith,
        at,
        parses c token api_token_subject issuer now signed,
        string_eq.agrees api_token_subject api_token_subject,
        string_eq.agrees issuer issuer,
        stored-common_error hash cs c (start + 600 * second) db cli now added spares,
      )

  -- Once RemoveJTI has removed the id of a signed token, neither verifyAuthToken nor verifyAPIToken
  -- accepts it, for any client, path, query and time.
  pub remove_jti-is_rejected :
      (c : Claims) (token cli path : String) (query : List (String × String)) (now : ℕ)
      (db : MemoryDb)
      → sign c ≡ some token
      → (remove_jti c.id db).0 ≡ ok tt
      → (is_rejected (verify_auth_token sign parse issuer cli token now (remove_jti c.id db).1)
          ≡ true)
        × (is_rejected
              (verify_api_token sign parse issuer cli token path query now (remove_jti c.id db).1)
            ≡ true)
  unfolding verify_api_token verify_auth_token common_error
  remove_jti-is_rejected c token cli path query now db signed removed = (
    ground (
      arith,
      parses c token auth_token_subject issuer now signed,
      (removed_jti db c.id c.id now removed).0,
      ==-self c.id,
    ),
    ground (
      arith,
      parses c token api_token_subject issuer now signed,
      (removed_jti db c.id c.id now removed).0,
      ==-self c.id,
    ),
  )
