-- ===== src/Tests/Calls.antt =====
-- Callers with tokens, and without.
use backend_template.Prelude.{
  String, ◌≡◌, refl, true, false, ◌&&◌, not, none, some, [], ◌∷◌, arith, str_eq,
}
use backend_template.Security.{Settings, verify_token}
use backend_template.Security.Tokens.{access, access_check, mint, checked-mint}
use backend_template.Server.{User, World, ok}
use backend_template.Users.Unique.{Distinct, find}
use backend_template.Access.{
  public_user_id, Caller, get_current_active_user, get_current_superuser,
  get_current_user_or_public,
}
use backend_template.Access.Callers.{credentials_sound}
use backend_template.Tests.Fixture.{libs, libs-Lawful, settings}

abbrev public_user : User
public_user = record {
  id = public_user_id;
  email = "public@inference-core.local";
  username = "public";
  hashed_password = "!locked!public-user-no-login!";
  first_name = some "Public";
  last_name = some "User";
  is_active = true;
  is_superuser = false;
  is_verified = true;
}

abbrev world : World Unit
world = record {
  users = public_user ∷ [];
  redis = tt;
  now = 1000;
  drawn = 5;
  queue_up = true;
  outbox = [];
}

distinct : Distinct world.users
unfolding backend_template.Users.clashes
distinct = (refl, tt)

abbrev open_settings : Settings
open_settings = record settings { llm_api_access_mode = "public" }

abbrev anonymous : Caller
anonymous = record { user = public_user; is_public_anonymous = true }

let_in : get_current_user_or_public libs open_settings none world ≡ (ok anonymous, world)
unfolding get_current_user_or_public backend_template.Access.row_of backend_template.Users.select
let_in = refl

abbrev token : String
token = mint libs settings access 900 3 public_user_id

known : verify_token libs settings 1000 token ≡ some public_user_id
known =
    let check =
      checked-mint libs settings libs-Lawful access_check access 900 3 public_user_id 1000
        (omega arith) (omega arith) in
    ground arith

abbrev called : Caller
called = record { user = public_user; is_public_anonymous = false }

let_in_by_token : get_current_user_or_public libs settings (some token) world ≡ (ok called, world)
unfolding get_current_user_or_public backend_template.Access.row_of backend_template.Users.select
let_in_by_token = rw known refl

credentials_sound_example :
    (user_id : String) × (id : String) × (verify_token libs settings 1000 token ≡ some user_id)
    × (libs.uuid user_id ≡ some id)
    × (find (λ u. str_eq u.id id) world.users ≡ some public_user)
    × (called.user.is_active ≡ true)
    × ((str_eq settings.llm_api_access_mode "superuser" && not called.user.is_superuser) ≡ false)
    × (called.is_public_anonymous ≡ false)
    × (world ≡ world)
credentials_sound_example =
    credentials_sound libs settings world distinct token called world let_in_by_token
