-- ===== src/Token/Stored.antt =====
-- What GetAuthToken answers, and what is stored when it returns.
use go_openbmclapi.Prelude.{
  ℕ, ◌+◌, ◌<◌, ◌≡◌, ap, refl, String, false, Option, none, some, arith, ltb, ◌⊎◌, inl, inr,
  Bool-cases,
}
use go_openbmclapi.Token.{
  ClusterToken, AuthToken, is_expired, ten_minutes, fetch_if_expired, locked_get, get_auth_token,
  refresh_if_needed,
}

-- A token that is not expired at one of the two times, or has just been fetched.
abbrev pub IsFresh : ℕ → ℕ → Option ClusterToken → ClusterToken → Type 0
IsFresh now later fetched tk =
    (is_expired (some tk) now ≡ false)
    ⊎ ((is_expired (some tk) later ≡ false) ⊎ (fetched ≡ some tk))

fetch-Fresh :
    (now later : ℕ) (fetched s : Option ClusterToken) (token : String)
    → (fetch_if_expired later fetched s).0.token ≡ some token
    → (tk : ClusterToken) × ((fetch_if_expired later fetched s).1 ≡ some tk)
      × (tk.token ≡ token)
      × IsFresh now later fetched tk
unfolding fetch_if_expired
fetch-Fresh now later none none token e = ground arith
fetch-Fresh now later (some new) none token e = (new, refl, ground arith, inr (inr refl))
fetch-Fresh now later none (some tk) token e = elim (Bool-cases (ltb tk.expire_at later)) [
  | inl late ↦ ground (arith, late)
  | inr fresh ↦ (tk, ground (arith, fresh), ground (arith, fresh), inr (inl fresh))
]
fetch-Fresh now later (some new) (some tk) token e = elim (Bool-cases (ltb tk.expire_at later)) [
  | inl late ↦ (new, ground (arith, late), ground (arith, late), inr (inr refl))
  | inr fresh ↦ (tk, ground (arith, fresh), ground (arith, fresh), inr (inl fresh))
]

locked_get-stored :
    (now again later : ℕ) (others : AuthToken → AuthToken) (fetched s : Option ClusterToken)
    (token : String)
    → (locked_get now again others later fetched s).0.token ≡ some token
    → (tk : ClusterToken) × ((locked_get now again others later fetched s).1 ≡ some tk)
      × (tk.token ≡ token)
      × IsFresh now later fetched tk
unfolding locked_get
locked_get-stored now again later others fetched none token e =
    fetch-Fresh now later fetched (others none) token e
locked_get-stored now again later others fetched (some tk) token e =
    elim (Bool-cases (ltb tk.expire_at now)) [
      | inl late ↦
          let (found, at, same, fresh) =
            fetch-Fresh now later fetched (others (some tk)) token (ground (arith, late)) in
          (found, ground (arith, late), same, fresh)
      | inr valid ↦ (tk, ground (arith, valid), ground (arith, valid), inl valid)
    ]

-- A token that GetAuthToken answers is the one that was stored when it gave up its last lock, so that
-- what is stored at its return is what the others have made of that token since; and it was not expired
-- at one of the call's clock readings or has just been fetched, whatever other goroutines do between
-- its locks.
pub get_auth_token-stored :
    (now again later : ℕ) (others others_after : AuthToken → AuthToken)
    (fetched s : Option ClusterToken) (token : String)
    → (get_auth_token now again others later fetched others_after s).0.token ≡ some token
    → (tk : ClusterToken) × ((get_auth_token now again others later fetched others_after s).1
        ≡ others_after (some tk))
      × (tk.token ≡ token)
      × IsFresh now later fetched tk
unfolding get_auth_token
get_auth_token-stored now again later others others_after fetched s token e =
    let (tk, at, same, fresh) = locked_get-stored now again later others fetched s token e in
    (tk, ap others_after at, same, fresh)

-- A refresh never leaves a cluster without the token that it had: it stores the refreshed token, or
-- keeps the old one if the refresh fails or the old one has more than ten minutes left.
pub refresh_keeps :
    (now : ℕ) (refreshed : Option ClusterToken) (tk : ClusterToken)
    → (refresh_if_needed now refreshed (some tk) ≡ some tk)
      ⊎ ((tk.expire_at < now + ten_minutes)
          × (refresh_if_needed now refreshed (some tk) ≡ refreshed))
unfolding refresh_if_needed
refresh_keeps now none tk = ground arith
refresh_keeps now (some new) tk = ground arith
