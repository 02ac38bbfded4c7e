-- ===== src/Hijacker/Auth.antt =====
-- The authorisation of the hijacking proxy.
use go_openbmclapi.Prelude.{
  ◌≡◌, refl, String, Bool, true, false, ◌&&◌, not, none, some, List, [], ◌∷◌, arith, if◌then◌else◌,
  inl, inr, Option-cases, ◌||◌,
}
use go_openbmclapi.Prelude.Int.{ℤ}
use go_openbmclapi.Prelude.Eq.{string_eq}
use go_openbmclapi.Prelude.GoMap.{GoMap}
use go_openbmclapi.Hijacker.{
  Hijack, CacheStat, Request, empty, unauthorized, compare_passwd, auth_loop, check_auth,
  serve_http,
}

-- Some user has the name, and not that password.
unfoldable pub has_wrong_passwd :
    (String → String) → String → String → List (String × String) → Bool
has_wrong_passwd sha256 user passwd [] = false
has_wrong_passwd sha256 user passwd ((name, password) ∷ users) =
    (string_eq.test name user && not (string_eq.test (sha256 password) (sha256 passwd)))
    || has_wrong_passwd sha256 user passwd users

auth_loop-wrong :
    (sha256 : String → String) (user passwd : String) (users : List (String × String))
    → auth_loop sha256 user passwd users ≡ has_wrong_passwd sha256 user passwd users
unfolding auth_loop compare_passwd has_wrong_passwd
auth_loop-wrong sha256 user passwd [] = refl
auth_loop-wrong sha256 user passwd ((name, password) ∷ users) =
    ground (arith, auth_loop-wrong sha256 user passwd users)

-- Where the proxy is enabled and requires an authorisation, no request is ever served: one whose user is
-- configured with a password of another hash gets an empty reply, and every other one, also that of a
-- user with the right password, is unauthorized.
pub serve_http-refuses :
    (sha256 : String → String) (config : Hijack) (cache : GoMap String CacheStat) (now : ℤ)
    (r : Request)
    → config.enable ≡ true
    → config.require_auth ≡ true
    → serve_http sha256 config cache now r ≡ (elim r.basic_auth [
      | none ↦ unauthorized
      | some (user, passwd) ↦
          if has_wrong_passwd sha256 user passwd config.auth_users then empty else unauthorized
    ])
unfolding serve_http check_auth
serve_http-refuses sha256 config cache now r enabled required = elim (Option-cases r.basic_auth) [
  | inl without ↦ ground (arith, enabled, required, without)
  | inr (auth, given) ↦
      ground
        (arith, enabled, required, given, auth_loop-wrong sha256 auth.0 auth.1 config.auth_users)
]
