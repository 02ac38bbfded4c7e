-- ===== src/ApiToken.antt =====
-- api_token.go: the tokens of the dashboard's interface. Signing and parsing a token is a package of its
-- own, and a parameter here; the database is a MemoryDB. A time is a number of nanoseconds.
pub mod Accepted
pub mod Tests
use go_openbmclapi.Prelude.{
  ℕ, ◌+◌, ◌*◌, ◌/◌, String, Bool, true, false, ◌&&◌, not, Option, none, some, List, [], ◌∷◌, leb,
  ltb, if◌then◌else◌,
}
use go_openbmclapi.Prelude.Eq.{string_eq}
use go_openbmclapi.Prelude.GoMap.{GoMap, entries, lookup}
use go_openbmclapi.Database.{Error, Reply, ok, err, panic}
use go_openbmclapi.Database.Memory.{MemoryDb, add_jti, valid_jti}

-- The claims of a token. Each of the three kinds has some of the fields; in the others it has what a
-- field is after parsing where the token does not have it.
pub record Claims : Type 0 where
  pub id : String
  pub subject : String
  pub issuer : String
  pub issued_at : ℕ
  pub expires_at : ℕ
  pub client : String
  pub action : String
  pub user : String
  pub strict_path : String
  pub strict_query : List (String × String)

abbrev pub challenge_token_subject : String
challenge_token_subject = "GOBA-challenge"

abbrev pub auth_token_subject : String
auth_token_subject = "GOBA-auth"

abbrev pub api_token_subject : String
api_token_subject = "GOBA-API"

abbrev pub second : ℕ
second = 1000000000

-- jwt.NewNumericDate drops the part of a second.
abbrev pub numeric_date : ℕ → ℕ
numeric_date t = t / second * second

pub data TokenError : Type 0 where
  not_parsed client_id_not_match jti_not_exists strict_path_not_match strict_query_not_match :
      TokenError

-- What a generation gives: a token, the error of the random numbers or of the signature, or the reply of
-- the database.
pub data Generated : Type 0 where
  generated : String → Generated
  no_random not_signed : Generated
  not_stored : Reply (Unit {0}) → Generated

-- The answer of a verification: the id of the token and its user, or an error.
pub data Verified : Type 0 where
  verified : String → String → Verified
  rejected : TokenError → Verified

-- query.Get: the first value of the name, or "".
unfoldable pub get_value : List (String × String) → String → String
get_value [] k = ""
get_value ((j, v) ∷ query) k =
    let rest = get_value query k in if string_eq.test j k then v else rest

-- The loop over StrictQuery.
unfoldable pub query_matches : List (String × String) → List (String × String) → Bool
unfolding get_value
query_matches [] query = true
query_matches ((k, v) ∷ strict) query =
    let rest = query_matches strict query in
    if string_eq.test (get_value query k) v then rest else false

-- `sign` is token.SignedString with the cluster's key; `parse` is jwt.ParseWithClaims with that key, for
-- a subject and an issuer, at a time.
module _ (sign : Claims → Option String) (parse : String → String → ℕ → String → Option Claims)
    (issuer : String) where
  abbrev pub challenge_claims : String → String → ℕ → Claims
  challenge_claims client action now = record {
    id = "";
    subject = challenge_token_subject;
    issuer = issuer;
    issued_at = numeric_date now;
    expires_at = numeric_date (now + 60 * second);
    client = client;
    action = action;
    user = "";
    strict_path = "";
    strict_query = [];
  }

  -- generateChallengeToken
  unfoldable pub generate_challenge_token : String → String → ℕ → Generated
  generate_challenge_token client action now = elim (sign (challenge_claims client action now)) [
    | none ↦ not_signed
    | some token ↦ generated token
  ]

  -- verifyChallengeToken; none is its success.
  unfoldable pub verify_challenge_token : String → String → String → ℕ → Option TokenError
  verify_challenge_token client action token now =
      elim (parse challenge_token_subject issuer now token) [
        | none ↦ some not_parsed
        | some claims ↦
            if not (string_eq.test claims.client client)
            then some client_id_not_match
            else if not (string_eq.test claims.action action)
            then some jti_not_exists
            else none
      ]

  -- From the signature on: the id of a signed token is stored up to its expiry.
  unfoldable pub sign_and_store : Claims → ℕ → MemoryDb → Generated × MemoryDb
  sign_and_store claims exp db = elim (sign claims) [
    | none ↦ (not_signed, db)
    | some token ↦
        (let (reply, stored) = add_jti claims.id exp db in
          elim reply [
            | ok _ ↦ (generated token, stored)
            | err e ↦ (not_stored (err e), stored)
            | panic ↦ (not_stored panic, stored)
          ])
  ]

  abbrev pub auth_claims : String → String → String → ℕ → Claims
  auth_claims jti client user now = record {
    id = jti;
    subject = auth_token_subject;
    issuer = issuer;
    issued_at = numeric_date now;
    expires_at = numeric_date (now + 86400 * second);
    client = client;
    action = "";
    user = user;
    strict_path = "";
    strict_query = [];
  }

  -- generateAuthToken; the first argument is utils.GenRandB64's.
  unfoldable pub generate_auth_token :
      Option String → String → String → ℕ → MemoryDb → Generated × MemoryDb
  unfolding sign_and_store
  generate_auth_token none client user now db = (no_random, db)
  generate_auth_token (some jti) client user now db =
      sign_and_store (auth_claims jti client user now) (now + 86400 * second) db

  abbrev pub is_valid : Reply Bool → Bool
  is_valid (ok valid) = valid
  is_valid (err e) = false
  is_valid panic = false

  -- The tests that the auth tokens and the API tokens share.
  unfoldable pub common_error : String → Claims → ℕ → MemoryDb → Option TokenError
  common_error client claims now db =
      if not (string_eq.test claims.client client)
      then some client_id_not_match
      else if string_eq.test claims.user ""
      then some jti_not_exists
      else if not (is_valid (valid_jti claims.id now db).0)
      then some jti_not_exists
      else none

  -- verifyAuthToken
  unfoldable pub verify_auth_token : String → String → ℕ → MemoryDb → Verified
  unfolding common_error
  verify_auth_token client token now db = elim (parse auth_token_subject issuer now token) [
    | none ↦ rejected not_parsed
    | some claims ↦ (elim (common_error client claims now db) [
      | some e ↦ rejected e
      | none ↦ verified claims.id claims.user
    ])
  ]

  abbrev pub api_claims : String → String → String → String → List (String × String) → ℕ → Claims
  api_claims jti client user path query now = record {
    id = jti;
    subject = api_token_subject;
    issuer = issuer;
    issued_at = numeric_date now;
    expires_at = numeric_date (now + 600 * second);
    client = client;
    action = "";
    user = user;
    strict_path = path;
    strict_query = query;
  }

  -- generateAPIToken
  unfoldable pub generate_api_token :
      Option String
      → String
      → String
      → String
      → List (String × String)
      → ℕ
      → MemoryDb
      → Generated × MemoryDb
  unfolding sign_and_store
  generate_api_token none client user path query now db = (no_random, db)
  generate_api_token (some jti) client user path query now db =
      sign_and_store (api_claims jti client user path query now) (now + 600 * second) db

  -- verifyAPIToken
  unfoldable pub verify_api_token :
      String → String → String → List (String × String) → ℕ → MemoryDb → Verified
  unfolding common_error query_matches
  verify_api_token client token path query now db =
      elim (parse api_token_subject issuer now token) [
        | none ↦ rejected not_parsed
        | some claims ↦ (elim (common_error client claims now db) [
          | some e ↦ rejected e
          | none ↦
              if not (string_eq.test claims.strict_path path)
              then rejected strict_path_not_match
              else if not (query_matches claims.strict_query query)
              then rejected strict_query_not_match
              else verified claims.id claims.user
        ])
      ]
