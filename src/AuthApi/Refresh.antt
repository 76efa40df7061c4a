-- ===== src/AuthApi/Refresh.antt =====
-- Refresh tokens of api/v1/routes/auth.py: rotation, introspection, logout.
use backend_template.Prelude.{
  ℕ, suc, ◌+◌, ◌*◌, String, ◌≡◌, ◌≢◌, refl, ap, true, false, ◌||◌, inl, inr, Option, none, some,
  str_eq, eq_iff, arith, Bool-cases, ◌==◌, if◌then◌else◌,
}
use backend_template.Security.{
  Payload, Libs, Lawful, Settings, has_kind, create_access_token, create_refresh_token, decode,
}
use backend_template.Security.Tokens.{refresh, decode-mint}
use backend_template.Server.{World, http, ok, err}
use backend_template.Sessions
use backend_template.Sessions.{Redis}
use backend_template.Sessions.Laws
use backend_template.Sessions.Laws.{answer}
use backend_template.AuthApi.{
  register_claims, register_payload, Cookie, set_to, claims, inactive, register_session, issue,
  check_refresh, introspect,
}

-- A cookie that decodes to a refresh token with a session id, a subject and an expiry.
pub record IsRefresh (l : Libs) (cfg : Settings) (now : ℕ) (token : String) (p : Payload)
    (jti sub : String) (exp : ℕ) : Type 0 where
  pub filled : token ≢ ""
  pub decodes : decode l cfg now token ≡ some p
  pub is_refresh : has_kind "refresh" p ≡ true
  pub has_jti : p.jti ≡ some jti
  pub has_sub : p.sub ≡ some sub
  pub has_exp : p.exp ≡ some exp
  pub jti_filled : jti ≢ ""
  pub sub_filled : sub ≢ ""
  pub exp_set : exp ≢ 0

module _ {S : Type 0} (l : Libs) (cfg : Settings) (r : Redis S) where
  module _ (w : World S) (token : String) (p : Payload) (jti sub : String) (exp : ℕ)
      (good : IsRefresh l cfg w.now token p jti sub exp) where
    -- The check passes exactly when the store has the session, and else answers 401.
    pub check_refresh_lem : check_refresh l cfg r (some token) w ≡ (
      if answer (r.exists (Sessions.key r cfg jti) w.redis).0
          then ok (jti, sub)
          else err (http 401 "Refresh token revoked"),
      (Sessions.exists r cfg jti w).1,
    )
    unfolding check_refresh
    check_refresh_lem =
        let some_token : str_eq token "" ≡ false = ground (arith, eq_iff token "", good.filled) in
        let some_jti : str_eq jti "" ≡ false = ground (arith, eq_iff jti "", good.jti_filled) in
        let some_sub : str_eq sub "" ≡ false = ground (arith, eq_iff sub "", good.sub_filled) in
        rw
          (
            some_token, good.decodes, good.is_refresh, good.has_jti, good.has_sub, some_jti,
            some_sub,
          )
          (rw (Laws.exists-answer r cfg w jti) (ground arith))

    pub introspect_lem : introspect l cfg r (some token) w ≡ (
      ok (
          if answer (r.exists (Sessions.key r cfg jti) w.redis).0
          then record { active = true; user_id = some sub; expires_at = some exp }
          else inactive),
      (Sessions.exists r cfg jti w).1,
    )
    unfolding introspect
    introspect_lem =
        let some_token : str_eq token "" ≡ false = ground (arith, eq_iff token "", good.filled) in
        let some_jti : str_eq jti "" ≡ false = ground (arith, eq_iff jti "", good.jti_filled) in
        let some_sub : str_eq sub "" ≡ false = ground (arith, eq_iff sub "", good.sub_filled) in
        let some_exp : (exp == 0) ≡ false = ground (arith, good.exp_set) in
        rw (some_token, good.decodes, good.is_refresh, good.has_jti, good.has_sub, good.has_exp)
          (rw (some_jti, some_sub, some_exp, Laws.exists-answer r cfg w jti) (ground arith))

  -- the session id and the expiry of the refresh token that `issue` makes in a world
  abbrev pub new_jti : World S → String
  new_jti w = l.token_urlsafe 24 (suc w.drawn)

  abbrev pub new_exp : World S → ℕ
  new_exp w = w.now + cfg.refresh_token_expire_days * 86400

  -- the tokens that `issue` makes
  abbrev pub new_tokens : String → Option ℕ → World S → String × Cookie
  new_tokens user_id delta w = (
    create_access_token l cfg w.now w.drawn (claims user_id) delta,
    set_to (create_refresh_token l cfg w.now (suc w.drawn) (claims user_id)),
  )

  -- the world after `issue`: the new session is registered
  abbrev pub after_issue : String → World S → World S
  after_issue user_id w =
      (Sessions.add r cfg (new_jti w) user_id (new_exp w)
        (record w { drawn = suc (suc w.drawn) })).1

  pub issue_lem :
      (law : Lawful l) (user_id : String) (delta : Option ℕ) (w : World S)
      → new_jti w ≢ ""
      → new_exp w ≢ 0
      → issue l cfg r user_id delta w ≡ (ok (new_tokens user_id delta w), after_issue user_id w)
  unfolding issue register_session
  issue_lem law user_id delta w filled set =
      let e =
        decode-mint l cfg law refresh w.now (suc w.drawn) user_id w.now (omega arith)
          (omega arith) in
      let w₂ : World S = record w { drawn = suc (suc w.drawn) } in
      let some_jti : str_eq (new_jti w) "" ≡ false =
        ground (arith, eq_iff (new_jti w) "", filled) in
      let some_exp : (new_exp w == 0) ≡ false = ground (arith, set) in
      rw (e, some_jti, some_exp)
        (rw (Laws.add-ok r cfg w₂ (new_jti w) user_id (new_exp w)) (ground arith))

  register_claims-ok :
      (user_id : String) (jti : Option String) (exp : Option ℕ) (w : World S)
      → register_claims l cfg r user_id jti exp w
        ≡ (ok tt, (register_claims l cfg r user_id jti exp w).1)
  register_claims-ok user_id (some jti) (some exp) w =
      elim (Bool-cases (str_eq jti "" || exp == 0)) [
        | inl e ↦ rw e refl
        | inr e ↦ rw e (Laws.add-ok r cfg w jti user_id exp)
      ]
  register_claims-ok user_id (some jti) none w = refl
  register_claims-ok user_id none exp w = refl

  register_payload-ok :
      (user_id : String) (o : Option Payload) (w : World S)
      → register_payload l cfg r user_id o w ≡ (ok tt, (register_payload l cfg r user_id o w).1)
  register_payload-ok user_id none w = refl
  register_payload-ok user_id (some p) w = register_claims-ok user_id p.jti p.exp w

  -- Issuing tokens never fails, whatever Redis and the decoder answer.
  pub issue-ok :
      (user_id : String) (delta : Option ℕ) (w : World S)
      → issue l cfg r user_id delta w
        ≡ (ok (new_tokens user_id delta w), (issue l cfg r user_id delta w).1)
  unfolding issue register_session
  issue-ok user_id delta w =
      let w₂ : World S = record w { drawn = suc (suc w.drawn) } in
      let token = create_refresh_token l cfg w.now (suc w.drawn) (claims user_id) in
      rw (register_payload-ok user_id (decode l cfg w.now token) w₂) refl

  register_claims_users :
      (user_id : String) (jti : Option String) (exp : Option ℕ) (w : World S)
      → (register_claims l cfg r user_id jti exp w).1.users ≡ w.users
  register_claims_users user_id (some jti) (some exp) w =
      ground (arith, ap {A = World S} (λ v. v.users) (Laws.add_world r cfg w jti user_id exp))
  register_claims_users user_id (some jti) none w = refl
  register_claims_users user_id none exp w = refl

  register_payload_users :
      (user_id : String) (o : Option Payload) (w : World S)
      → (register_payload l cfg r user_id o w).1.users ≡ w.users
  register_payload_users user_id none w = refl
  register_payload_users user_id (some p) w = register_claims_users user_id p.jti p.exp w

  pub issue_users :
      (user_id : String) (delta : Option ℕ) (w : World S)
      → (issue l cfg r user_id delta w).1.users ≡ w.users
  unfolding issue register_session
  issue_users user_id delta w =
      let w₂ : World S = record w { drawn = suc (suc w.drawn) } in
      let token = create_refresh_token l cfg w.now (suc w.drawn) (claims user_id) in
      let o = decode l cfg w.now token in
      rw (register_payload-ok user_id o w₂) (register_payload_users user_id o w₂)
