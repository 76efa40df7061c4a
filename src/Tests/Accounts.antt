-- ===== src/Tests/Accounts.antt =====
-- Two accounts, and what the account operations do to them.
use backend_template.Prelude.{
  ℕ, String, ◌≡◌, refl, true, false, ◌&&◌, not, ◌⊎◌, inl, none, some, List, [], ◌∷◌, ◌++◌, arith,
  str_eq, eq_iff, if◌then◌else◌,
}
use backend_template.Security.{
  Settings, get_password_hash, verify_password, generate_password_reset_token, verify_token,
}
use backend_template.Server.{User, World, http, ok, err}
use backend_template.Users.{create_user, authenticate_user, reset_password, replace}
use backend_template.Users.Unique.{Distinct, find, In}
use backend_template.Users.Histories.{
  Operation, create, profile, deactivate, reset, history, KeepsAccounts, history-KeepsAccounts,
  history-is_superuser,
}
use backend_template.Users.Passwords.{named, authenticate_user_lem, authenticate_user-create_user}
use backend_template.Users.Resets.{reset_password_lem}
use backend_template.AuthApi.{
  RegisterRequest, Cookie, issue, register, login, change_password, forgot_password,
}
use backend_template.AuthApi.Refresh.{new_tokens, issue-ok}
use backend_template.AuthApi.Login.{login_sound}
use backend_template.AuthApi.Accounts.{forgot_password_same, register_sound, change_password_lem}
use backend_template.Tests.Fixture.{libs, libs-Lawful, settings, hash_bytes, write_nat, redis}

abbrev Sessions : Type 0
Sessions = List (String × String)

abbrev old_password : List ℕ
old_password = 112 ∷ []

abbrev new_password : List ℕ
new_password = 113 ∷ []

abbrev alice : User
alice = record {
  id = "1";
  email = "a@x";
  username = "alice";
  hashed_password = hash_bytes old_password;
  first_name = none;
  last_name = none;
  is_active = true;
  is_superuser = true;
  is_verified = false;
}

abbrev bob : User
bob = record alice { id = "2"; email = "b@x"; username = "bob"; is_superuser = false }

abbrev world : World Sessions
world = record {
  users = alice ∷ bob ∷ [];
  redis = [];
  now = 1000;
  drawn = 5;
  queue_up = true;
  outbox = [];
}

distinct : Distinct world.users
unfolding backend_template.Users.clashes backend_template.Users.collide
distinct = (refl, (refl, tt))

-- bob takes another email, and the username bob for a new account is refused
abbrev some_calls : List Operation
some_calls =
    profile "2" none none (some "c@x")
    ∷ create "bob" "d@x" new_password none none true
    ∷ deactivate "1"
    ∷ reset "bad" new_password
    ∷ []

history-KeepsAccounts_example :
    Distinct (history libs settings some_calls world).users
    × KeepsAccounts world.users (history libs settings some_calls world).users
history-KeepsAccounts_example = history-KeepsAccounts libs settings some_calls world distinct

hashed : get_password_hash libs 5 new_password ≡ some (hash_bytes new_password)
unfolding get_password_hash backend_template.Security.encode_password backend_template.Security.utf8
    backend_template.Security.utf8_char
hashed = refl

alice_by_email : find (λ v. str_eq v.email "a@x") world.users ≡ some alice
unfolding find
alice_by_email = refl

reset_password_lem_example :
    let (r, w') =
      reset_password libs settings
        (generate_password_reset_token libs settings 900 "a@x")
        new_password
        world in
    (r ≡ ok true)
    × (authenticate_user libs "alice" new_password w'
        ≡ (ok (some (record alice { hashed_password = hash_bytes new_password })), w'))
    × (authenticate_user libs "alice" old_password w' ≡ (
      ok (
          if verify_password libs old_password (hash_bytes new_password)
          then some (record alice { hashed_password = hash_bytes new_password })
          else none),
      w',
    ))
reset_password_lem_example =
    reset_password_lem libs settings libs-Lawful "a@x" (hash_bytes new_password) new_password
      old_password 900 world alice distinct (λ e. ground (arith, eq_iff "a@x" "")) alice_by_email
      (omega arith) (omega arith) hashed

history-is_superuser_example :
    (u : User) × In u world.users × (u.id ≡ "1") × (u.is_superuser ≡ true)
unfolding history
history-is_superuser_example =
    history-is_superuser libs settings [] world alice distinct (inl refl) refl

abbrev carol : User
carol = record {
  id = write_nat 6 "";
  email = "c@x";
  username = "carol";
  hashed_password = hash_bytes new_password;
  first_name = none;
  last_name = none;
  is_active = true;
  is_superuser = false;
  is_verified = false;
}

abbrev with_carol : World Sessions
with_carol = record world { users = alice ∷ bob ∷ carol ∷ []; drawn = 7 }

created :
    create_user libs "carol" "c@x" new_password none none true false false world
    ≡ (ok carol, with_carol)
unfolding create_user backend_template.Users.insert_user backend_template.Users.clashes
    backend_template.Users.collide get_password_hash backend_template.Security.encode_password
    backend_template.Security.utf8 backend_template.Security.utf8_char write_nat
created = refl

authenticate_user-create_user_example :
    (authenticate_user libs "carol" new_password with_carol ≡ (ok (some carol), with_carol))
    × (authenticate_user libs "carol" old_password with_carol ≡ (
      ok (if verify_password libs old_password carol.hashed_password then some carol else none),
      with_carol,
    ))
authenticate_user-create_user_example =
    authenticate_user-create_user libs libs-Lawful "carol" "c@x" new_password none none true false
      false world with_carol carol old_password distinct created

forgot_password_same_example :
    ((forgot_password libs settings "a@x" world).0
      ≡ (forgot_password libs settings "nobody@x" world).0)
    × ((forgot_password libs settings "a@x" world).1.users ≡ world.users)
forgot_password_same_example = forgot_password_same libs settings "a@x" "nobody@x" world distinct

abbrev request : RegisterRequest
request = record {
  username = "carol";
  email = "c@x";
  password = new_password;
  first_name = none;
  last_name = none;
}

registered : register libs settings request world ≡ (ok carol, with_carol)
unfolding register create_user backend_template.Users.get_user_by_email
    backend_template.Users.get_user_by_username backend_template.Users.select
    backend_template.Users.insert_user backend_template.Users.clashes backend_template.Users.collide
    get_password_hash backend_template.Security.encode_password backend_template.Security.utf8
    backend_template.Security.utf8_char write_nat
registered = refl

register_sound_example :
    (settings.auth_register_endpoint_enabled ≡ true)
    × (find (λ v. str_eq v.email "c@x") world.users ≡ none)
    × (find (λ v. str_eq v.username "carol") world.users ≡ none)
    × (with_carol.users ≡ world.users ++ carol ∷ [])
    × (carol.email ≡ request.email)
    × (carol.username ≡ request.username)
    × (get_password_hash libs 5 new_password ≡ some (hash_bytes new_password))
    × (carol.is_superuser ≡ false)
    × (carol.is_verified ≡ false)
    × (carol.is_active ≡ settings.auth_register_default_active)
register_sound_example =
    register_sound libs settings request world with_carol carol distinct registered

change_password_lem_example :
    let (r, w') = change_password libs settings "1" old_password new_password world in
    let changed : User = record alice { hashed_password = hash_bytes new_password } in
    ((verify_password libs old_password alice.hashed_password ≡ true)
      × (r ≡ ok true)
      × (authenticate_user libs "alice" new_password w' ≡ (ok (some changed), w'))
      × (authenticate_user libs "alice" old_password w' ≡ (
        ok (
            if verify_password libs old_password (hash_bytes new_password)
            then some changed
            else none),
        w',
      )))
    ⊎ ((verify_password libs old_password alice.hashed_password ≡ false)
        × (r ≡ err (http 400 "Incorrect current password"))
        × (w' ≡ world))
unfolding find
change_password_lem_example =
    change_password_lem libs settings "1" "1" (hash_bytes new_password) old_password new_password
      world alice distinct refl refl hashed libs-Lawful old_password

abbrev tokens : String × Cookie
tokens = new_tokens libs settings redis "1" (some 1800) world

abbrev logged_in_world : World Sessions
logged_in_world = (issue libs settings redis "1" (some 1800) world).1

verifies : verify_password libs old_password alice.hashed_password ≡ true
unfolding verify_password backend_template.Security.encode_password backend_template.Security.utf8
    backend_template.Security.utf8_char
verifies = (eq_iff alice.hashed_password alice.hashed_password).1 refl

logged_in : login libs settings redis "alice" old_password world ≡ (ok tokens, logged_in_world)
unfolding login find
logged_in =
    rw (authenticate_user_lem libs "alice" old_password world distinct, verifies)
      (issue-ok libs settings redis "1" (some 1800) world)

login_sound_example :
    (u : User) × (named "alice" world.users ≡ some u)
    × (verify_password libs old_password u.hashed_password ≡ true)
    × ((true && not u.is_active) ≡ false)
    × ((false && not u.is_verified) ≡ false)
    × (tokens ≡ new_tokens libs settings redis u.id (some 1800) world)
    × (logged_in_world.users ≡ world.users)
login_sound_example =
    login_sound libs settings redis "alice" old_password world logged_in_world tokens distinct
      logged_in

refused :
    login libs settings redis "dora" old_password world
    ≡ (err (http 401 "Incorrect username or password"), world)
unfolding login find
refused = rw (authenticate_user_lem libs "dora" old_password world distinct) refl
