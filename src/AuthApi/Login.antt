-- ===== src/AuthApi/Login.antt =====
-- `login` of api/v1/routes/auth.py.
use backend_template.Prelude.{
  ℕ, ◌+◌, ◌*◌, ◌≤◌, String, ◌≡◌, refl, sym, ◌∙◌, ap, true, false, ◌&&◌, not, Option, none, some,
  List, arith, Bool-cases, inl, inr, ◌==◌,
}
use backend_template.Security.{
  Libs, Lawful, Settings, verify_password, create_access_token, verify_token,
}
use backend_template.Security.Tokens.{access, access_check, mint, checked-mint}
use backend_template.Server.{User, World, Error, ok, err}
use backend_template.Users.{matching}
use backend_template.Users.Unique.{Distinct}
use backend_template.Users.Passwords.{named, authenticate_user_lem}
use backend_template.Sessions.{Redis}
use backend_template.AuthApi.{Cookie, claims, issue_for, login}
use backend_template.AuthApi.Refresh.{new_tokens, issue-ok, issue_users}

module _ {S : Type 0} (l : Libs) (cfg : Settings) (r : Redis S) where
  login-named :
      (name : String) (pw : List ℕ) (w : World S)
      → Distinct w.users
      → login l cfg r name pw w ≡ issue_for l cfg r (matching l pw (named name w.users)) w
  unfolding login
  login-named name pw w d = rw (authenticate_user_lem l name pw w d) refl

  issue_for_ok :
      (o : Option User) (w w' : World S) (x : String × Cookie)
      → issue_for l cfg r o w ≡ (ok x, w')
      → (u : User) × (o ≡ some u)
        × ((cfg.auth_login_require_active && not u.is_active) ≡ false)
        × ((cfg.auth_login_require_verified && not u.is_verified) ≡ false)
        × (x ≡ new_tokens l cfg r u.id (some (cfg.access_token_expire_minutes * 60)) w)
        × (w'.users ≡ w.users)
  issue_for_ok none w w' x e = absurd (ground arith)
  issue_for_ok (some u) w w' x e =
      let delta = some (cfg.access_token_expire_minutes * 60) in
      let made = issue-ok l cfg r u.id delta w in
      let rows = issue_users l cfg r u.id delta w in
      (u, refl, ground arith, ground arith, ground arith, ground arith)

  issue_for_err :
      (o : Option User) (w w' : World S) (e : Error) → issue_for l cfg r o w ≡ (err e, w') → w' ≡ w
  issue_for_err none w w' e h = ground arith
  issue_for_err (some u) w w' e h =
      let made = issue-ok l cfg r u.id (some (cfg.access_token_expire_minutes * 60)) w in
      ground arith

  matched :
      (pw : List ℕ) (o : Option User) (u : User)
      → matching l pw o ≡ some u
      → (o ≡ some u) × (verify_password l pw u.hashed_password ≡ true)
  matched pw none u e = ground arith
  matched pw (some v) u e = ground arith

  -- Over distinct rows, a login that returns tokens names a row by its username, or else by its
  -- email; the password verifies against that row's hash, the flags that the settings require are
  -- set, the tokens are made for the row's id, and no row is changed.
  pub login_sound :
      (name : String) (pw : List ℕ) (w w' : World S) (x : String × Cookie)
      → Distinct w.users
      → login l cfg r name pw w ≡ (ok x, w')
      → (u : User) × (named name w.users ≡ some u)
        × (verify_password l pw u.hashed_password ≡ true)
        × ((cfg.auth_login_require_active && not u.is_active) ≡ false)
        × ((cfg.auth_login_require_verified && not u.is_verified) ≡ false)
        × (x ≡ new_tokens l cfg r u.id (some (cfg.access_token_expire_minutes * 60)) w)
        × (w'.users ≡ w.users)
  login_sound name pw w w' x d e =
      let (u, row, active, verified, made, rows) =
        issue_for_ok (matching l pw (named name w.users)) w w' x
          (sym (login-named name pw w d) ∙ e) in
      let (is, same) = matched pw (named name w.users) u row in
      (u, is, same, active, verified, made, rows)

  -- Over distinct rows, a login that is refused writes nothing.
  login_refused :
      (name : String) (pw : List ℕ) (w w' : World S) (e : Error)
      → Distinct w.users
      → login l cfg r name pw w ≡ (err e, w')
      → w' ≡ w
  login_refused name pw w w' e d h =
      issue_for_err (matching l pw (named name w.users)) w w' e (sym (login-named name pw w d) ∙ h)

  same_token :
      (now n : ℕ) (id : String)
      → create_access_token l cfg now n (claims id) (some (cfg.access_token_expire_minutes * 60))
        ≡ mint l cfg access now n id
  unfolding create_access_token
  same_token now n id =
      let delta = cfg.access_token_expire_minutes * 60 in
      elim (Bool-cases (delta == 0)) [
        | inl e ↦ rw (create_access_token, e) refl
        | inr e ↦ rw (create_access_token, e) refl
      ]

  verify_token-mint :
      (law : Lawful l) (now n : ℕ) (id : String) (later : ℕ)
      → now ≤ later
      → later ≤ now + cfg.access_token_expire_minutes * 60
      → verify_token l cfg later (mint l cfg access now n id) ≡ some id
  verify_token-mint law now n id later before soon =
      let check = checked-mint l cfg law access_check access now n id later before soon in
      ground arith

  -- Over distinct rows, the access token that a login returns passes the check for access tokens
  -- for the configured time, as the id of the row that the login name stands for, whatever Redis
  -- does.
  verify_token-login :
      (law : Lawful l) (name : String) (pw : List ℕ) (w w' : World S) (x : String × Cookie)
      (later : ℕ)
      → Distinct w.users
      → login l cfg r name pw w ≡ (ok x, w')
      → w.now ≤ later
      → later ≤ w.now + cfg.access_token_expire_minutes * 60
      → (u : User) × (named name w.users ≡ some u) × (verify_token l cfg later x.0 ≡ some u.id)
  verify_token-login law name pw w w' x later d e before soon =
      let (u, is, _, _, _, made, _) = login_sound name pw w w' x d e in
      let same = same_token w.now w.drawn u.id in
      (
        u,
        is,
        ap (λ y. verify_token l cfg later y.0) made
            ∙ ap (verify_token l cfg later) same
            ∙ verify_token-mint law w.now w.drawn u.id later before soon,
      )
