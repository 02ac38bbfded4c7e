-- ===== src/Token/Tests.antt =====
-- token.go: the token of a cluster on concrete inputs.
use go_openbmclapi.Prelude.{◌≡◌, refl, some}
use go_openbmclapi.Token.{ClusterToken, AuthToken, get_auth_token, locked_get, fetch_if_expired}
use go_openbmclapi.Token.Stored.{IsFresh, get_auth_token-stored}

abbrev old : ClusterToken
old = record { token = "old"; expire_at = 5 }

abbrev new : ClusterToken
new = record { token = "new"; expire_at = 50 }

abbrev no_others : AuthToken → AuthToken
no_others s = s

-- Another call has stored a third token by the return.
abbrev replaced : AuthToken → AuthToken
replaced s = some (record { token = "third"; expire_at = 90 })

get_auth_token-stored_example :
    (tk : ClusterToken) × ((get_auth_token 6 6 no_others 7 (some new) replaced (some old)).1
      ≡ replaced (some tk))
    × (tk.token ≡ "new")
    × IsFresh 6 7 (some new) tk
get_auth_token-stored_example =
    get_auth_token-stored 6 6 7 no_others replaced (some new) (some old) "new"
      (unfold get_auth_token locked_get fetch_if_expired in refl)
