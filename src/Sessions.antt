-- ===== src/Sessions.antt =====
-- inference_core/services/refresh_session_store.py: the refresh sessions kept in Redis.
pub mod Laws
use Prim.Native.String.{◌++◌}
use backend_template.Prelude.{
  ℕ, ◌-◌, ◌<◌, String, ◌≡◌, ◌≢◌, Bool, true, false, Option, none, some, ltb, if◌then◌else◌,
}
use backend_template.Security.{Settings}
use backend_template.Server.{
  World, Error, raised, Result, ok, err, Action, pure, raise, catch, ◌>>=◌, ◌>>◌,
}

-- The Redis commands that the store sends. A command that raises gives `none` or `false`.
pub record Redis (S : Type 0) : Type 0 where
  -- HSET key sub … exp …
  pub hset : String → String → ℕ → S → Bool × S
  -- EXPIRE key seconds
  pub expire : String → ℕ → S → Bool × S
  -- EXISTS key, whether the answer is 1
  pub exists : String → S → Option Bool × S
  -- DEL key
  pub delete : String → S → Bool × S
  -- HGETALL key, with the field `sub` of the answer
  pub hgetall : String → S → Option (Option String) × S

module _ {S : Type 0} (r : Redis S) where
  -- a command as an action: what it does to Redis, or an exception
  abbrev pub send : (S → Bool × S) → Action S Unit
  send c w =
      let (done, s) = c w.redis in
      (if done then ok tt else err (raised "RedisError"), record w { redis = s })

  abbrev pub ask : {A : Type 0} → (S → Option A × S) → Action S A
  ask c w =
      let (answer, s) = c w.redis in
      (elim answer [ none ↦ err (raised "RedisError") | some a ↦ ok a ], record w { redis = s })

  module _ (cfg : Settings) where
    -- `_key`
    unfoldable pub key : String → String
    key jti = cfg.redis_refresh_prefix ++ jti

    -- `add`, with `max(0, exp - now)` as the subtraction of natural numbers
    unfoldable pub add : String → String → ℕ → Action S Unit
    add jti user_id exp w =
        let ttl = exp - w.now in
        catch
          (do
            send (r.hset (key jti) user_id exp)
            if ltb 0 ttl then send (r.expire (key jti) ttl) else pure tt)
          (pure tt) w

    -- `exists`
    unfoldable pub exists : String → Action S Bool
    exists jti = catch (ask (r.exists (key jti))) (pure false)

    -- `revoke`
    unfoldable pub revoke : String → Action S Unit
    revoke jti = catch (send (r.delete (key jti))) (pure tt)

    -- `get_subject`
    unfoldable pub get_subject : String → Action S (Option String)
    get_subject jti = catch (ask (r.hgetall (key jti))) (pure none)
