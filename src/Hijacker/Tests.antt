-- ===== src/Hijacker/Tests.antt =====
-- hijacker.go on concrete inputs.
use go_openbmclapi.Prelude.{◌≡◌, refl, String, true, false, none, some, [], ◌∷◌, if◌then◌else◌}
use go_openbmclapi.Prelude.Int.{pos}
use go_openbmclapi.Prelude.GoMap.{make}
use go_openbmclapi.Hijacker.{Hijack, Request, empty, unauthorized, downloads, serve_http}
use go_openbmclapi.Hijacker.Auth.{has_wrong_passwd, serve_http-refuses}

abbrev same_text : String → String
same_text s = s

abbrev one_user : Hijack
one_user = record { enable = true; require_auth = true; auth_users = ("admin", "secret") ∷ [] }

abbrev with_passwd : String → Request
with_passwd passwd = record {
  is_get_or_head = true;
  path = "/a";
  basic_auth = some ("admin", passwd);
  file_hash = some "h";
  cached_size = none;
  cached_opens = false;
  remote_answers = true;
}

right_passwd : serve_http same_text one_user make (pos 0) (with_passwd "secret") ≡ unauthorized
unfolding serve_http
right_passwd = refl

wrong_passwd : serve_http same_text one_user make (pos 0) (with_passwd "guess") ≡ empty
unfolding serve_http
wrong_passwd = refl

without_auth :
    serve_http same_text
      (record one_user { require_auth = false })
      make
      (pos 0)
      (with_passwd "guess")
    ≡ downloads "h"
unfolding serve_http
without_auth = refl

serve_http-refuses_example : serve_http same_text one_user make (pos 0) (with_passwd "secret") ≡ (
    if has_wrong_passwd same_text "admin" "secret" (("admin", "secret") ∷ [])
    then empty
    else unauthorized)
serve_http-refuses_example =
    serve_http-refuses same_text one_user make (pos 0) (with_passwd "secret") refl refl
