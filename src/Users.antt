-- ===== src/Users.antt =====
-- inference_core/services/auth_service.py: the account operations of `AuthService`.
pub mod Unique
pub mod Steps
pub mod Histories
pub mod Passwords
pub mod Resets
use backend_template.Prelude.{
  ℕ, String, Bool, true, false, ◌&&◌, ◌||◌, not, Option, none, some, List, [], ◌∷◌, ◌++◌, str_eq,
  if◌then◌else◌,
}
use backend_template.Security.{
  Libs, Settings, verify_password, get_password_hash, generate_password_reset_token,
  verify_password_reset_token, generate_email_verification_token, verify_email_verification_token,
  truthy,
}
use backend_template.Server.{
  User, Mail, reset_mail, verification_mail, World, Error, raised, Result, ok, err, Action, pure,
  raise, gets, catch, or_raise, from_result, draw, put_users, put_mail, ◌>>=◌, ◌>>◌,
}

-- `select(User).where(…)`
unfoldable pub select : (User → Bool) → List User → List User
select p [] = []
select p (u ∷ us) = let rest = select p us in if p u then u ∷ rest else rest

-- `result.scalar_one_or_none()`
abbrev pub one_or_none : List User → Result (Option User)
one_or_none [] = ok none
one_or_none (u ∷ []) = ok (some u)
one_or_none (u ∷ v ∷ us) = err (raised "MultipleResultsFound")

-- the constraints `unique=True` and the primary key, of two rows
unfoldable pub collide : User → User → Bool
collide u v = str_eq u.id v.id || str_eq u.email v.email || str_eq u.username v.username

-- of a row against the others
unfoldable pub clashes : User → List User → Bool
clashes u [] = false
clashes u (v ∷ us) = collide u v || clashes u us

-- the rows without those of an id
pub others : String → List User → List User
others id [] = []
others id (u ∷ us) = let rest = others id us in if str_eq u.id id then rest else u ∷ rest

-- the row of an id replaced
unfoldable pub replace : User → List User → List User
replace u [] = []
replace u (v ∷ us) = (if str_eq v.id u.id then u else v) ∷ replace u us

module _ {S : Type 0} where
  -- `db.add(user); commit()`
  unfoldable pub insert_user : User → Action S Unit
  unfolding collide clashes
  insert_user u w =
      if clashes u w.users
      then (err (raised "IntegrityError"), w)
      else (ok tt, record w { users = w.users ++ u ∷ [] })

  -- `commit()` of a changed row
  unfoldable pub save_user : User → Action S Unit
  unfolding collide clashes others replace
  save_user u w =
      if clashes u (others u.id w.users)
      then (err (raised "IntegrityError"), w)
      else (ok tt, record w { users = replace u w.users })

  unfoldable pub get_user_by_email : String → Action S (Option User)
  unfolding select
  get_user_by_email email w = (one_or_none (select (λ u. str_eq u.email email) w.users), w)

  unfoldable pub get_user_by_username : String → Action S (Option User)
  unfolding select
  get_user_by_username username w =
      (one_or_none (select (λ u. str_eq u.username username) w.users), w)

  -- `get_user_by_id`: the query raises for a text that is no UUID, since the column holds UUIDs
  unfoldable pub get_user_by_id : Libs → String → Action S (Option User)
  unfolding select
  get_user_by_id l user_id w = elim (l.uuid user_id) [
    | none ↦ (err (raised "StatementError"), w)
    | some id ↦ (one_or_none (select (λ u. str_eq u.id id) w.users), w)
  ]

  -- the change of one row found by id, and whether there was one
  abbrev pub change_found : (User → User) → Option User → Action S (Option User)
  change_found f none = pure none
  change_found f (some u) = do save_user (f u); pure (some (f u))

  -- `if not user: user = …` over an optional row
  abbrev pub or_else : Option User → Action S (Option User) → Action S (Option User)
  or_else none m = m
  or_else (some u) m = pure (some u)

-- `if value is not None: user.field = value`
abbrev pub given : {A : Type 0} → Option A → A → A
given none old = old
given (some new) old = new

-- the last two tests of `authenticate_user`
abbrev pub matching : Libs → List ℕ → Option User → Option User
matching l password none = none
matching l password (some u) = if verify_password l password u.hashed_password then some u else none

abbrev pub is_found : Option User → Bool
is_found none = false
is_found (some u) = true

abbrev pub mark_verified : Settings → User → User
mark_verified cfg u = record u {
  is_active = if cfg.auth_email_verification_makes_active then true else u.is_active;
  is_verified = true;
}

module _ {S : Type 0} (l : Libs) where
  unfoldable pub authenticate_user : String → List ℕ → Action S (Option User)
  authenticate_user username password = do
    by_name ← get_user_by_username username
    user ← or_else by_name (get_user_by_email username)
    pure (matching l password user)

  -- a hash, or the exception of making it
  abbrev pub hash : List ℕ → Action S String
  hash password = do n ← draw; or_raise (get_password_hash l n password) (raised "ValueError")

  unfoldable pub create_user :
      String → String → List ℕ → Option String → Option String → Bool → Bool → Bool → Action S User
  create_user username email password first_name last_name is_active is_superuser is_verified = do
    hashed_password ← hash password
    n ← draw
    let user : User = record {
      id = l.uuid4 n;
      email = email;
      username = username;
      hashed_password = hashed_password;
      first_name = first_name;
      last_name = last_name;
      is_active = is_active;
      is_superuser = is_superuser;
      is_verified = is_verified;
    }
    insert_user user
    pure user

  unfoldable pub update_user_profile :
      String → Option String → Option String → Option String → Action S (Option User)
  update_user_profile user_id first_name last_name email = do
    user ← get_user_by_id l user_id
    change_found
        (λ u. record u {
          first_name = elim first_name [ none ↦ u.first_name | some x ↦ some x ];
          last_name = elim last_name [ none ↦ u.last_name | some x ↦ some x ];
          email = given email u.email;
        })
        user

  -- `user.hashed_password = get_password_hash(new_password)` of a row that was found
  abbrev pub set_password : List ℕ → Option User → Action S Bool
  set_password new_password none = pure false
  set_password new_password (some u) = do
    hashed ← hash new_password
    save_user (record u { hashed_password = hashed })
    pure true

  unfoldable pub update_user_password : String → List ℕ → Action S Bool
  update_user_password user_id new_password = do
    user ← get_user_by_id l user_id
    set_password new_password user

  unfoldable pub deactivate_user : String → Action S Bool
  deactivate_user user_id = do
    user ← get_user_by_id l user_id
    changed ← change_found (λ u. record u { is_active = false }) user
    pure (is_found changed)

  unfoldable pub activate_user : String → Action S Bool
  activate_user user_id = do
    user ← get_user_by_id l user_id
    changed ← change_found (λ u. record u { is_active = true }) user
    pure (is_found changed)

-- `if not value: return False`, for the text of a token check; its exception is a KeyError
abbrev pub with_subject :
    {S : Type 0} → Option (Option String) → (String → Action S Bool) → Action S Bool
with_subject none f = raise (raised "KeyError")
with_subject (some none) f = pure false
with_subject (some (some s)) f = if str_eq s "" then pure false else f s

module _ {S : Type 0} (l : Libs) (cfg : Settings) where
  unfoldable pub reset_password : String → List ℕ → Action S Bool
  reset_password token new_password = do
    now ← gets (λ w. w.now)
    with_subject (verify_password_reset_token l cfg now token)
        (λ email. do user ← get_user_by_email email; set_password l new_password user)

  unfoldable pub verify_email_with_token : String → Action S Bool
  verify_email_with_token token = do
    now ← gets (λ w. w.now)
    with_subject (verify_email_verification_token l cfg now token) (λ user_id. do
      user ← get_user_by_id l user_id
      changed ← change_found (mark_verified cfg) user
      pure (is_found changed))

  -- `_send_password_reset_email`: queued by Celery, or else sent by the email service if there is one
  abbrev pub send_password_reset_email : String → String → Action S Unit
  send_password_reset_email email reset_token w =
      if not cfg.email_available
      then (ok tt, w)
      else if w.queue_up || cfg.direct_email
      then put_mail (reset_mail email reset_token) w
      else (ok tt, w)

  unfoldable pub request_password_reset : String → Action S Bool
  request_password_reset email = do
    user ← get_user_by_email email
    elim user [
      | none ↦ pure true
      | some u ↦ do
        now ← gets (λ w. w.now)
        catch (send_password_reset_email email (generate_password_reset_token l cfg now email))
            (pure tt)
        pure true
    ]

  -- `send_verification_email`: queued by Celery, or an exception
  unfoldable pub send_verification_email : User → String → Action S Unit
  send_verification_email user verification_token w =
      if not cfg.email_available
      then (ok tt, w)
      else if w.queue_up
      then put_mail (verification_mail user.email verification_token) w
      else (err (raised "OperationalError"), w)

  unfoldable pub request_verification_email : String → Action S Bool
  unfolding send_verification_email
  request_verification_email email = do
    user ← get_user_by_email email
    elim user [
      | none ↦ pure true
      | some u ↦ do
        now ← gets (λ w. w.now)
        catch (send_verification_email u (generate_email_verification_token l cfg now u.id))
            (pure tt)
        pure true
    ]
