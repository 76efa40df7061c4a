-- ===== src/Sessions/Laws.antt =====
-- What the session store promises over a Redis that keeps its documented behaviour.
use backend_template.Prelude.{
  ℕ, ◌-◌, ◌<◌, String, ◌≡◌, ◌≢◌, ap, Bool, true, false, Option, none, some, arith,
}
use backend_template.Security.{Settings}
use backend_template.Server.{World, ok}
use backend_template.Sessions.{Redis, key, add, exists, revoke}

-- `live k s`: the key `k` is present and has not expired. A command on one key leaves every other
-- key alone, whether it raises or not.
pub record Lawful {S : Type 0} (r : Redis S) (live : String → S → Bool) : Type 0 where
  pub exists_answers : (k : String) (s : S) (b : Bool) → (r.exists k s).0 ≡ some b → b ≡ live k s
  pub exists_keeps : (k j : String) (s : S) → live j (r.exists k s).1 ≡ live j s
  pub hset_self :
      (k sub : String) (e : ℕ) (s : S)
      → (r.hset k sub e s).0 ≡ true
      → live k (r.hset k sub e s).1 ≡ true
  pub hset_ne : (k j sub : String) (e : ℕ) (s : S) → k ≢ j → live j (r.hset k sub e s).1 ≡ live j s
  pub expire_self :
      (k : String) (ttl : ℕ) (s : S)
      → 0 < ttl
      → live k s ≡ true
      → live k (r.expire k ttl s).1 ≡ true
  pub expire_ne : (k j : String) (ttl : ℕ) (s : S) → k ≢ j → live j (r.expire k ttl s).1 ≡ live j s
  pub delete_self : (k : String) (s : S) → (r.delete k s).0 ≡ true → live k (r.delete k s).1 ≡ false
  pub delete_ne : (k j : String) (s : S) → k ≢ j → live j (r.delete k s).1 ≡ live j s

-- what `RefreshSessionStore.exists` makes of Redis's answer
abbrev pub answer : Option Bool → Bool
answer none = false
answer (some b) = b

module _ {S : Type 0} (r : Redis S) (cfg : Settings) (w : World S) where
  -- `exists` never raises.
  pub exists-answer :
      (jti : String)
      → exists r cfg jti w
        ≡ (ok (answer (r.exists (key r cfg jti) w.redis).0), (exists r cfg jti w).1)
  unfolding exists
  exists-answer jti = ground arith

  -- nor does `revoke`
  pub revoke-ok : (jti : String) → revoke r cfg jti w ≡ (ok tt, (revoke r cfg jti w).1)
  unfolding revoke
  revoke-ok jti = ground arith

  pub add-ok :
      (jti user_id : String) (exp : ℕ)
      → add r cfg jti user_id exp w ≡ (ok tt, (add r cfg jti user_id exp w).1)
  unfolding add
  add-ok jti user_id exp = ground arith

  -- The store writes to Redis alone.
  pub exists_world :
      (jti : String) → (exists r cfg jti w).1 ≡ record w { redis = (exists r cfg jti w).1.redis }
  unfolding exists
  exists_world jti = ground arith

  pub revoke_world :
      (jti : String) → (revoke r cfg jti w).1 ≡ record w { redis = (revoke r cfg jti w).1.redis }
  unfolding revoke
  revoke_world jti = ground arith

  -- What it does to Redis is the DEL, whether that raises or not.
  pub revoke_deletes :
      (jti : String)
      → (revoke r cfg jti w).1 ≡ record w { redis = (r.delete (key r cfg jti) w.redis).1 }
  unfolding revoke
  revoke_deletes jti = ground arith

  pub add_world :
      (jti user_id : String) (exp : ℕ)
      → (add r cfg jti user_id exp w).1 ≡ record w { redis = (add r cfg jti user_id exp w).1.redis }
  unfolding add
  add_world jti user_id exp = ground arith

module _ {S : Type 0} (r : Redis S) (live : String → S → Bool) (law : Lawful r live)
    (cfg : Settings) (w : World S) where
  -- A session whose HSET does not raise is there afterwards, also when EXPIRE then raises.
  pub add_registers :
      (jti user_id : String) (exp : ℕ)
      → (r.hset (key r cfg jti) user_id exp w.redis).0 ≡ true
      → live (key r cfg jti) (add r cfg jti user_id exp w).1.redis ≡ true
  unfolding add
  add_registers jti user_id exp done =
      let k = key r cfg jti in
      let s = (r.hset k user_id exp w.redis).1 in
      ground (arith, law.hset_self k user_id exp w.redis done, law.expire_self k (exp - w.now) s)

  -- Registering one session changes no other.
  pub add_ne :
      (jti user_id : String) (exp : ℕ) (j : String)
      → key r cfg jti ≢ j
      → live j (add r cfg jti user_id exp w).1.redis ≡ live j w.redis
  unfolding add
  add_ne jti user_id exp j ne =
      let k = key r cfg jti in
      let s = (r.hset k user_id exp w.redis).1 in
      ground (arith, law.hset_ne k j user_id exp w.redis ne, law.expire_ne k j (exp - w.now) s ne)

  -- A revoked session whose DEL does not raise is gone.
  pub revoke_removes :
      (jti : String)
      → (r.delete (key r cfg jti) w.redis).0 ≡ true
      → live (key r cfg jti) (revoke r cfg jti w).1.redis ≡ false
  unfolding revoke
  revoke_removes jti done = ground (arith, law.delete_self (key r cfg jti) w.redis done)

  pub revoke_ne :
      (jti j : String) → key r cfg jti ≢ j → live j (revoke r cfg jti w).1.redis ≡ live j w.redis
  unfolding revoke
  revoke_ne jti j ne = ground (arith, law.delete_ne (key r cfg jti) j w.redis ne)

  -- `exists` never raises and changes no session. It answers True only for a live session, and
  -- where Redis answers, exactly for a live one.
  pub exists_lem :
      (jti : String)
      → ((exists r cfg jti w).0 ≡ ok (answer (r.exists (key r cfg jti) w.redis).0))
        × (answer (r.exists (key r cfg jti) w.redis).0 ≡ true → live (key r cfg jti) w.redis ≡ true)
        × ((j : String) → live j (exists r cfg jti w).1.redis ≡ live j w.redis)
  unfolding exists
  exists_lem jti =
      let k = key r cfg jti in
      (
        ap (λ x. x.0) (exists-answer r cfg w jti),
        λ h. ground (arith, law.exists_answers k w.redis true),
        λ j. ground (arith, law.exists_keeps k j w.redis),
      )
