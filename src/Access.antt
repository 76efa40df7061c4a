-- ===== src/Access.antt =====
-- inference_core/core/dependecies.py and core/public_user.py: who calls an endpoint. A caller is the row of
-- the user, whose columns the code copies into a dict.
pub mod Callers
use backend_template.Prelude.{
  String, Bool, true, false, ◌&&◌, not, Option, none, some, str_eq, if◌then◌else◌,
}
use backend_template.Security.{Libs, Settings, verify_token}
use backend_template.Server.{
  User, World, http, raised, Result, ok, err, Action, pure, raise, gets, raise_if, ◌>>=◌, ◌>>◌,
}
use backend_template.Users.{select, one_or_none}

abbrev pub public_user_id : String
public_user_id = "00000000-0000-0000-0000-000000000001"

-- the dict of a caller, with the key `is_public_anonymous`
pub record Caller : Type 0 where
  pub user : User
  pub is_public_anonymous : Bool

module _ {S : Type 0} (l : Libs) (cfg : Settings) where
  -- `select(User).where(User.id == …)`, and `scalar_one_or_none()`
  unfoldable pub row_of : String → Action S (Option User)
  unfolding select
  row_of id w = (one_or_none (select (λ u. str_eq u.id id) w.users), w)

  -- the row of the user whose UUID a token has as its text
  abbrev pub user_of : Option String → Action S (Option User)
  user_of none = raise (raised "ValueError")
  user_of (some id) = row_of id

  abbrev pub or_not_found : Option User → Action S User
  or_not_found none = raise (http 404 "User not found")
  or_not_found (some user) = pure user

  abbrev pub or_unauthorized : String → Option String → Action S String
  or_unauthorized detail none = raise (http 401 detail)
  or_unauthorized detail (some user_id) = pure user_id

  -- `get_current_user_token`
  unfoldable pub get_current_user_token : String → Action S String
  get_current_user_token credentials = do
    now ← gets (λ w. w.now)
    or_unauthorized "Could not validate credentials" (verify_token l cfg now credentials)

  -- `get_current_user`
  unfoldable pub get_current_user : String → Action S User
  get_current_user credentials = do
    user_id ← get_current_user_token credentials
    user ← user_of (l.uuid user_id)
    or_not_found user

  -- `get_current_active_user`
  unfoldable pub get_current_active_user : String → Action S User
  get_current_active_user credentials = do
    current_user ← get_current_user credentials
    raise_if (not current_user.is_active) (http 400 "Inactive user")
    pure current_user

  -- `get_current_superuser`
  unfoldable pub get_current_superuser : String → Action S User
  get_current_superuser credentials = do
    current_user ← get_current_user credentials
    raise_if (not current_user.is_superuser) (http 403 "Not enough permissions")
    pure current_user

  -- the end of the branch of `get_current_user_or_public` with no credentials
  abbrev pub public_caller : Option User → Action S Caller
  public_caller none =
      raise
        (http 503 "Public user not seeded. Run alembic upgrade head to enable public access mode.")
  public_caller (some user) = do
    raise_if (not user.is_active) (http 503 "Public user is disabled")
    pure (record { user = user; is_public_anonymous = true })

  -- the branch with credentials
  abbrev pub credentials_caller : String → Action S Caller
  credentials_caller credentials = do
    now ← gets (λ w. w.now)
    user_id ← or_unauthorized "Invalid or expired token" (verify_token l cfg now credentials)
    found ← user_of (l.uuid user_id)
    user ← or_not_found found
    raise_if (not user.is_active) (http 400 "Inactive user")
    raise_if (str_eq cfg.llm_api_access_mode "superuser" && not user.is_superuser)
        (http 403 "Not enough permissions")
    pure (record { user = user; is_public_anonymous = false })

  -- `get_current_user_or_public`
  unfoldable pub get_current_user_or_public : Option String → Action S Caller
  get_current_user_or_public none = do
    raise_if (not (str_eq cfg.llm_api_access_mode "public")) (http 401 "Not authenticated")
    public_user ← row_of public_user_id
    public_caller public_user
  get_current_user_or_public (some credentials) = credentials_caller credentials
