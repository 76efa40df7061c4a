-- ===== src/Tests/Refreshing.antt =====
-- A refresh cookie under a concrete Redis: refreshed, presented twice, and logged out.
use backend_template.Prelude.{
  ◌+◌, String, ◌≡◌, ◌≢◌, ◌↔◌, refl, true, false, none, some, List, [], ◌∷◌, arith, eq_iff,
}
use backend_template.Security.{Payload, create_refresh_token}
use backend_template.Security.Tokens.{refresh, mint, minted, decode-mint}
use backend_template.Server.{World, http, ok, err}
use backend_template.Sessions
use backend_template.Sessions.Laws.{answer}
use backend_template.AuthApi.{
  Cookie, cleared, refresh_tokens, introspect, logout, check_refresh, rotate,
}
use backend_template.AuthApi.Refresh.{IsRefresh, new_jti, new_tokens}
use backend_template.AuthApi.Rotation.{introspect_agrees}
use backend_template.AuthApi.Replay.{refresh_rotates, both_refresh, LoggedOut, logout_ends}
use backend_template.Tests.Fixture.{
  libs, libs-Lawful, settings, redis, redis-Lawful, has_key, write_nat, write_text, write_claims,
  write_text_filled,
}

abbrev token : String
token = mint libs settings refresh 900 3 "1"

abbrev claims : Payload
claims = minted libs settings refresh 900 3 "1"

abbrev jti : String
jti = libs.token_urlsafe 24 3

abbrev entry : String
entry = Sessions.key redis settings jti

abbrev world : World (List (String × String))
world = record {
  users = [];
  redis = (entry, "1") ∷ [];
  now = 1000;
  drawn = 5;
  queue_up = true;
  outbox = [];
}

token_filled : token ≢ ""
unfolding create_refresh_token
token_filled = write_text_filled "key" (write_text "HS256" (write_claims claims))

good :
    IsRefresh libs settings 1000 token
      (minted libs settings refresh 900 3 "1")
      jti
      "1"
      (900 + 604800)
unfolding write_nat
good = record {
  filled = token_filled;
  decodes =
      decode-mint libs settings libs-Lawful refresh 900 3 "1" 1000 (omega arith) (omega arith);
  is_refresh = refl;
  has_jti = refl;
  has_sub = refl;
  has_exp = refl;
  jti_filled = λ e. ground (arith, eq_iff jti "");
  sub_filled = λ e. ground (arith, eq_iff "1" "");
  exp_set = λ e. ground arith;
}

present : answer (redis.exists entry world.redis).0 ≡ true
present = rw ((eq_iff entry entry).1 refl) refl

abbrev new_entry : String
new_entry = Sessions.key redis settings (new_jti libs settings redis world)

other : new_entry ≢ entry
unfolding Sessions.key write_nat
other e = ground (arith, eq_iff new_entry entry)

introspect_agrees_example :
    (((introspect libs settings redis (some token) world).0
        ≡ ok (record { active = true; user_id = some "1"; expires_at = some 605700 }))
      ↔ ((x : String × Cookie) × ((refresh_tokens libs settings redis (some token) world).0
            ≡ ok x)))
    × ((j : String)
        → has_key j (introspect libs settings redis (some token) world).1.redis
          ≡ has_key j world.redis)
    × ((introspect libs settings redis (some token) world).1.users ≡ [])
    × ((introspect libs settings redis (some token) world).1.drawn ≡ 5)
introspect_agrees_example =
    introspect_agrees libs settings redis has_key redis-Lawful world token claims jti "1" 605700
      good

refresh_rotates_example :
    ((refresh_tokens libs settings redis (some token) world).0
      ≡ ok (new_tokens libs settings redis "1" none world))
    × (has_key entry (refresh_tokens libs settings redis (some token) world).1.redis ≡ false)
    × (has_key new_entry (refresh_tokens libs settings redis (some token) world).1.redis ≡ true)
    × ((refresh_tokens libs settings redis
          (some token)
          (refresh_tokens libs settings redis (some token) world).1).0
        ≡ err (http 401 "Refresh token revoked"))
unfolding write_nat
refresh_rotates_example =
    refresh_rotates libs settings redis has_key redis-Lawful world token claims jti "1" 605700 good
      libs-Lawful present (λ e. ground (arith, eq_iff (new_jti libs settings redis world) ""))
      (λ e. ground arith) other refl refl

abbrev checked : World (List (String × String))
checked = (Sessions.exists redis settings jti world).1

both_refresh_example :
    ((check_refresh libs settings redis (some token) world).0 ≡ ok (jti, "1"))
    × ((check_refresh libs settings redis (some token) checked).0 ≡ ok (jti, "1"))
    × ((x : String × Cookie) × ((rotate libs settings redis jti "1"
            (Sessions.exists redis settings jti checked).1).0
          ≡ ok x))
    × ((x : String × Cookie) × ((rotate libs settings redis jti "1"
            (rotate libs settings redis jti "1" (Sessions.exists redis settings jti checked).1).1).0
          ≡ ok x))
unfolding Sessions.exists
both_refresh_example =
    both_refresh libs settings redis has_key redis-Lawful world token claims jti "1" 605700 good
      present present

logout_ends_example :
    ((logout libs settings redis (some token) world).0 ≡ ok ("Logged out successfully", cleared))
    × LoggedOut libs settings redis has_key redis-Lawful world token claims jti "1" 605700 good
        (redis.delete entry world.redis).0
        (logout libs settings redis (some token) world).1
logout_ends_example =
    logout_ends libs settings redis has_key redis-Lawful world token claims jti "1" 605700 good
