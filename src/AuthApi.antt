-- ===== src/AuthApi.antt =====
-- inference_core/api/v1/routes/auth.py: the endpoints that work on accounts and refresh sessions. A
-- handler returns its body and what it does to the refresh cookie, or raises.
pub mod Refresh
pub mod Rotation
pub mod Replay
pub mod Login
pub mod Accounts
use backend_template.Prelude.{
  ℕ, ◌*◌, String, Bool, true, false, ◌&&◌, ◌||◌, not, Option, none, some, List, ◌==◌, str_eq,
  if◌then◌else◌,
}
use backend_template.Security.{
  Payload, Libs, Settings, truthy, has_kind, verify_password, create_access_token,
  create_refresh_token, decode, generate_email_verification_token,
}
use backend_template.Server.{
  User, World, http, raised, ok, err, Action, pure, raise, gets, catch, raise_if, draw, ◌>>=◌, ◌>>◌,
}
use backend_template.Sessions
use backend_template.Sessions.{Redis}
use backend_template.Users
use backend_template.Users.{
  get_user_by_id, get_user_by_email, get_user_by_username, authenticate_user, create_user,
  update_user_password, request_password_reset, send_verification_email, request_verification_email,
  update_user_profile,
}

-- What a response does to the refresh cookie.
pub data Cookie : Type 0 where
  untouched cleared : Cookie
  set_to : String → Cookie

-- the claims `{"sub": subject}`
abbrev pub claims : String → Payload
claims s = record { sub = some s; kind = none; jti = none; exp = none; nbf = none }

-- `RegisterRequest`
pub record RegisterRequest : Type 0 where
  pub username : String
  pub email : String
  pub password : List ℕ
  pub first_name : Option String
  pub last_name : Option String

-- `RefreshIntrospection`
pub record Introspection : Type 0 where
  pub active : Bool
  pub user_id : Option String
  pub expires_at : Option ℕ

abbrev pub inactive : Introspection
inactive = record { active = false; user_id = none; expires_at = none }

module _ {S : Type 0} (l : Libs) (cfg : Settings) where
  abbrev pub try_verification_mail : User → Action S Unit
  try_verification_mail user = do
    now ← gets (λ w. w.now)
    catch (send_verification_email l cfg user (generate_email_verification_token l cfg now user.id))
        (pure tt)

  -- `register`
  unfoldable pub register : RegisterRequest → Action S User
  register user_data = do
    raise_if (not cfg.auth_register_endpoint_enabled) (http 404 "Not Found")
    by_email ← get_user_by_email user_data.email
    raise_if (Users.is_found by_email) (http 400 "Email already registered")
    by_name ← get_user_by_username user_data.username
    raise_if (Users.is_found by_name) (http 400 "Username already taken")
    user ←
        create_user l user_data.username user_data.email user_data.password user_data.first_name
          user_data.last_name cfg.auth_register_default_active false false
    if cfg.auth_send_verification_email_on_register then try_verification_mail user else pure tt
    pure user

  -- `change_password`, for the id of the current user
  unfoldable pub change_password : String → List ℕ → List ℕ → Action S Bool
  change_password user_id current_password new_password = do
    user ← get_user_by_id l user_id
    raise_if (not (Users.is_found (Users.matching l current_password user)))
        (http 400 "Incorrect current password")
    update_user_password l user_id new_password
    pure true

  -- `forgot_password`
  unfoldable pub forgot_password : String → Action S String
  forgot_password email = do
    raise_if (not cfg.auth_forgot_password_endpoint_enabled) (http 404 "Not Found")
    request_password_reset l cfg email
    pure "Password reset instructions sent to email"

  -- `request_verification_email`
  unfoldable pub request_verification : String → Action S String
  request_verification email = do
    request_verification_email l cfg email
    pure "Verification email sent if account exists"

  -- `update_profile`, for the id of the current user
  unfoldable pub update_profile :
      String → Option String → Option String → Option String → Action S User
  update_profile user_id first_name last_name email = do
    user ← update_user_profile l user_id first_name last_name email
    elim user [ none ↦ raise (raised "ValidationError") | some u ↦ pure u ]

  -- `reset_password`
  unfoldable pub reset_password : String → List ℕ → Action S String
  reset_password token new_password = do
    success ← Users.reset_password l cfg token new_password
    raise_if (not success) (http 400 "Invalid or expired reset token")
    pure "Password reset successfully"

  -- `verify_email`
  unfoldable pub verify_email : String → Action S String
  verify_email token = do
    success ← Users.verify_email_with_token l cfg token
    raise_if (not success) (http 400 "Invalid or expired verification token")
    pure "Email verified successfully"

module _ {S : Type 0} (l : Libs) (cfg : Settings) (r : Redis S) where
  -- The block of `login` and `refresh_tokens` that registers a new session: `if jti and exp`;
  -- whatever is raised in it is dropped.
  abbrev pub register_claims : String → Option String → Option ℕ → Action S Unit
  register_claims user_id (some jti) (some exp) =
      if str_eq jti "" || exp == 0 then pure tt else Sessions.add r cfg jti user_id exp
  register_claims user_id _ _ = pure tt

  abbrev pub register_payload : String → Option Payload → Action S Unit
  register_payload user_id none = pure tt
  register_payload user_id (some p) = register_claims user_id p.jti p.exp

  unfoldable pub register_session : String → String → Action S Unit
  register_session user_id token w = register_payload user_id (decode l cfg w.now token) w

  -- the new pair of tokens: the access token, and the refresh token behind it
  unfoldable pub issue : String → Option ℕ → Action S (String × Cookie)
  issue user_id expires_delta = do
    now ← gets (λ w. w.now)
    n ← draw
    let access_token = create_access_token l cfg now n (claims user_id) expires_delta
    m ← draw
    let refresh_token = create_refresh_token l cfg now m (claims user_id)
    register_session user_id refresh_token
    pure (access_token, set_to refresh_token)

  abbrev pub issue_for : Option User → Action S (String × Cookie)
  issue_for none = raise (http 401 "Incorrect username or password")
  issue_for (some user) = do
    raise_if (cfg.auth_login_require_active && not user.is_active) (http 400 "Inactive user")
    raise_if (cfg.auth_login_require_verified && not user.is_verified)
        (http 400 "Email not verified")
    issue user.id (some (cfg.access_token_expire_minutes * 60))

  -- `login`
  unfoldable pub login : String → List ℕ → Action S (String × Cookie)
  login username password = do user ← authenticate_user l username password; issue_for user

  abbrev pub check_session : String → String → Action S (String × String)
  check_session jti sub = do
    found ← Sessions.exists r cfg jti
    raise_if (not found) (http 401 "Refresh token revoked")
    pure (jti, sub)

  abbrev pub check_claims : Option String → Option String → Action S (String × String)
  check_claims (some jti) (some sub) =
      if str_eq jti "" || str_eq sub ""
      then raise (http 400 "Malformed refresh token")
      else check_session jti sub
  check_claims _ _ = raise (http 400 "Malformed refresh token")

  abbrev pub check_payload : Option Payload → Action S (String × String)
  check_payload none = raise (http 401 "Invalid refresh token")
  check_payload (some decoded) =
      if has_kind "refresh" decoded
      then check_claims decoded.jti decoded.sub
      else raise (http 400 "Invalid token type")

  -- the first part of `refresh_tokens`: the session and the subject of the cookie
  unfoldable pub check_refresh : Option String → Action S (String × String)
  check_refresh none w = (err (http 401 "Refresh token not found in cookie"), w)
  check_refresh (some token) w =
      if str_eq token ""
      then (err (http 401 "Refresh token not found in cookie"), w)
      else check_payload (decode l cfg w.now token) w

  -- the second part: revoke the old session, issue and register a new pair
  unfoldable pub rotate : String → String → Action S (String × Cookie)
  rotate jti sub = do Sessions.revoke r cfg jti; issue sub none

  -- `refresh_tokens`
  unfoldable pub refresh_tokens : Option String → Action S (String × Cookie)
  refresh_tokens cookie = do (jti, sub) ← check_refresh cookie; rotate jti sub

  abbrev pub introspect_claims : Option String → Option String → Option ℕ → Action S Introspection
  introspect_claims (some jti) (some sub) (some exp) =
      if str_eq jti "" || str_eq sub "" || exp == 0 then pure inactive else do
        found ← Sessions.exists r cfg jti
        pure (
            if found
            then record { active = true; user_id = some sub; expires_at = some exp }
            else inactive)
  introspect_claims _ _ _ = pure inactive

  abbrev pub introspect_payload : Option Payload → Action S Introspection
  introspect_payload none = pure inactive
  introspect_payload (some decoded) =
      if has_kind "refresh" decoded
      then introspect_claims decoded.jti decoded.sub decoded.exp
      else pure inactive

  -- `introspect_refresh_token`
  unfoldable pub introspect : Option String → Action S Introspection
  introspect none w = (ok inactive, w)
  introspect (some token) w =
      if str_eq token "" then (ok inactive, w) else introspect_payload (decode l cfg w.now token) w

  abbrev pub revoke_payload : Option Payload → Action S Unit
  revoke_payload none = pure tt
  revoke_payload (some decoded) =
      if has_kind "refresh" decoded && truthy decoded.jti
      then elim decoded.jti [ none ↦ pure tt | some jti ↦ Sessions.revoke r cfg jti ]
      else pure tt

  -- the best-effort revocation of `logout`
  abbrev pub revoke_cookie : Option String → Action S Unit
  revoke_cookie none w = (ok tt, w)
  revoke_cookie (some token) w =
      if str_eq token "" then (ok tt, w) else revoke_payload (decode l cfg w.now token) w

  -- `logout`
  unfoldable pub logout : Option String → Action S (String × Cookie)
  logout cookie = do revoke_cookie cookie; pure ("Logged out successfully", cleared)
