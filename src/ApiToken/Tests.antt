-- ===== src/ApiToken/Tests.antt =====
-- api_token.go on concrete inputs, with a signer that knows the claims of one token.
use go_openbmclapi.Prelude.{
  ℕ, ◌≡◌, refl, String, Bool, true, false, ◌&&◌, Option, none, some, List, [], ◌∷◌, arith, ◌==◌,
  if◌then◌else◌, Bool-cases, inl, inr,
}
use go_openbmclapi.Prelude.Eq.{string_eq}
use go_openbmclapi.Prelude.GoMap.{make, lookup, find, assign}
use go_openbmclapi.Database.{ok}
use go_openbmclapi.Database.Memory.{MemoryDb, add_jti, remove_jti}
use go_openbmclapi.Database.Memory.Calls.{Call, adds_jti, removes_jti, run}
use go_openbmclapi.ApiToken.{
  Claims, verified, rejected, strict_path_not_match, generated, generate_auth_token,
  generate_api_token, verify_auth_token, verify_api_token,
}
use go_openbmclapi.ApiToken.Accepted.{
  is_current, verify_auth_token-generated, verify_api_token-generated, is_rejected,
  remove_jti-is_rejected,
}

abbrev no_query : List (String × String) → Bool
no_query [] = true
no_query (p ∷ l) = false

abbrev same_claims : Claims → Claims → Bool
same_claims a b =
    string_eq.test a.id b.id
    && string_eq.test a.subject b.subject
    && string_eq.test a.issuer b.issuer
    && a.issued_at == b.issued_at
    && a.expires_at == b.expires_at
    && string_eq.test a.client b.client
    && string_eq.test a.action b.action
    && string_eq.test a.user b.user
    && string_eq.test a.strict_path b.strict_path
    && no_query a.strict_query
    && no_query b.strict_query

no_query-nil : (l : List (String × String)) → no_query l ≡ true → l ≡ []
no_query-nil [] h = refl
no_query-nil (p ∷ l) h = ground (arith, h)

same_claims-eq : (a b : Claims) → same_claims a b ≡ true → a ≡ b
same_claims-eq a b h = ground (
  arith,
  h,
  string_eq.agrees a.id b.id,
  string_eq.agrees a.subject b.subject,
  string_eq.agrees a.issuer b.issuer,
  string_eq.agrees a.client b.client,
  string_eq.agrees a.action b.action,
  string_eq.agrees a.user b.user,
  string_eq.agrees a.strict_path b.strict_path,
  no_query-nil a.strict_query,
  no_query-nil b.strict_query,
)

abbrev sign_only : Claims → Claims → Option String
sign_only known c = if same_claims c known then some "t" else none

abbrev parse_only : Claims → String → String → ℕ → String → Option Claims
parse_only known subject issuer now token =
    if string_eq.test token "t" && is_current subject issuer now known then some known else none

parses :
    (known c : Claims) (token subject iss : String) (now : ℕ)
    → sign_only known c ≡ some token
    → parse_only known subject iss now token
      ≡ (if is_current subject iss now c then some c else none)
parses known c token subject iss now signed = elim (Bool-cases (same_claims c known)) [
  | inr other ↦ ground (arith, signed, other)
  | inl same ↦ ground (arith, signed, same, same_claims-eq c known same, string_eq.agrees token "t")
]

abbrev day : Claims
day = record {
  id = "j";
  subject = "GOBA-auth";
  issuer = "cluster";
  issued_at = 5000000000;
  expires_at = 86405000000000;
  client = "browser";
  action = "";
  user = "admin";
  strict_path = "";
  strict_query = [];
}

abbrev ten_minutes : Claims
ten_minutes = record day { subject = "GOBA-API"; expires_at = 605000000000; strict_path = "/logs" }

abbrev db : MemoryDb
db = record {
  file_records = make;
  tokens = make;
  subscribe_records = make;
  email_sub_records = make;
  webhook_records = make;
}

abbrev same_text : String → String
same_text s = s

abbrev other_token : List Call
other_token = adds_jti "k" 1 ∷ removes_jti "k" ∷ []

k_differs : ◌≡◌ {A = String} "k" "j" → ⊥
k_differs e = ground (arith, string_eq.agrees "k" "j")

day_generated :
    (generate_auth_token
      (sign_only day)
      (parse_only day)
      "cluster"
      (some "j")
      "browser"
      "admin"
      5400000000
      db).0
    ≡ generated "t"
unfolding generate_auth_token add_jti lookup find assign
day_generated = refl

verify_auth_token-generated_example :
    verify_auth_token (sign_only day) (parse_only day) "cluster" "browser" "t" 6000000000 (
      run same_text other_token
        (generate_auth_token
          (sign_only day)
          (parse_only day)
          "cluster"
          (some "j")
          "browser"
          "admin"
          5400000000
          db).1)
    ≡ verified "j" "admin"
verify_auth_token-generated_example =
    verify_auth_token-generated (sign_only day) (parse_only day) "cluster" (parses day) same_text
      other_token db "j" "browser" "admin" "t" 5400000000 "browser" 6000000000 day_generated
      (tt, (k_differs, tt))

ten_minutes_generated :
    (generate_api_token
      (sign_only ten_minutes)
      (parse_only ten_minutes)
      "cluster"
      (some "j")
      "browser"
      "admin"
      "/logs"
      []
      5400000000
      db).0
    ≡ generated "t"
unfolding generate_api_token add_jti lookup find assign
ten_minutes_generated = refl

verify_api_token-generated_example :
    verify_api_token
      (sign_only ten_minutes)
      (parse_only ten_minutes)
      "cluster"
      "browser"
      "t"
      "/stat"
      []
      6000000000
      (run same_text other_token
        (generate_api_token
          (sign_only ten_minutes)
          (parse_only ten_minutes)
          "cluster"
          (some "j")
          "browser"
          "admin"
          "/logs"
          []
          5400000000
          db).1)
    ≡ rejected strict_path_not_match
verify_api_token-generated_example =
    verify_api_token-generated (sign_only ten_minutes) (parse_only ten_minutes) "cluster"
      (parses ten_minutes) same_text other_token db "j" "browser" "admin" "/logs" "t" [] 5400000000
      "browser" "/stat" [] 6000000000 ten_minutes_generated (tt, (k_differs, tt))

abbrev stored : MemoryDb
stored = (add_jti "j" 86405400000000 db).1

j_removed : (remove_jti "j" stored).0 ≡ ok tt
unfolding remove_jti add_jti lookup find assign
j_removed = refl

remove_jti-is_rejected_example :
    (is_rejected (
        verify_auth_token
          (sign_only day)
          (parse_only day)
          "cluster"
          "browser"
          "t"
          6000000000
          (remove_jti "j" stored).1)
      ≡ true)
    × (is_rejected (
          verify_api_token
            (sign_only day)
            (parse_only day)
            "cluster"
            "browser"
            "t"
            "/logs"
            []
            6000000000
            (remove_jti "j" stored).1)
        ≡ true)
remove_jti-is_rejected_example =
    remove_jti-is_rejected (sign_only day) (parse_only day) "cluster" (parses day) day "t" "browser"
      "/logs" [] 6000000000 stored refl j_removed
