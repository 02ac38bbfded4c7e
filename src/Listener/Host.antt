-- ===== src/Listener/Host.antt =====
-- http_listener.go: the host that a request over plain HTTP is redirected to. The functions of package
-- strings are parameters: `has_suffix s t` is HasSuffix, and `cut_wildcard h` is CutPrefix of "*.".
use go_openbmclapi.Prelude.{
  String, Bool, true, false, not, Option, none, some, List, [], ◌∷◌, if◌then◌else◌, ◌&&◌, ◌||◌,
}
use go_openbmclapi.Prelude.Eq.{string_eq}

module _ (has_suffix : String → String → Bool) (cut_wildcard : String → Option String) where
  -- Whether a host is one of the public hosts, one of which may stand for all under it.
  unfoldable pub in_hosts : String → List String → Bool
  in_hosts host [] = false
  in_hosts host (h ∷ hosts) =
      let rest = in_hosts host hosts in
      elim (cut_wildcard h) [
        | some domain ↦ if has_suffix host domain then true else rest
        | none ↦ if string_eq.test h host then true else rest
      ]

  -- The first public host that does not end in "*.".
  unfoldable pub first_host : String → List String → String
  first_host host [] = host
  first_host host (h ∷ hosts) =
      let rest = first_host host hosts in if not (has_suffix h "*.") then h else rest

  -- The host of the redirection, "" where there is none; `host` is in lower case.
  unfoldable pub redirect_host : String → List String → String
  unfolding in_hosts first_host
  redirect_host host hosts =
      if not (string_eq.test host "") && in_hosts host hosts then host else first_host host hosts

  -- The same for a request over TLS, in GetHandler: none where it is served and not redirected.
  unfoldable pub secure_host : String → List String → Option String
  unfolding in_hosts first_host
  secure_host host [] = none
  secure_host host (h ∷ hosts) =
      let target = first_host "" (h ∷ hosts) in
      if string_eq.test host "" || in_hosts host (h ∷ hosts)
      then none
      else if string_eq.test target ""
      then none
      else some target
