-- ===== src/AuthApi/Rotation.antt =====
-- What becomes of a refresh session under api/v1/routes/auth.py: rotation, replay, introspection,
-- logout, and two requests at once.
use backend_template.Prelude.{
  ℕ, suc, String, ◌≡◌, ◌≢◌, ◌↔◌, refl, ◌∙◌, ap, Bool, true, false, inl, inr, none, some, arith,
  Bool-cases,
}
use backend_template.Security.{Payload, Libs, Lawful, Settings}
use backend_template.Server.{World, http, ok, err}
use backend_template.Sessions
use backend_template.Sessions.{Redis}
use backend_template.Sessions.Laws
use backend_template.Sessions.Laws.{answer}
use backend_template.AuthApi.{Cookie, inactive, rotate, refresh_tokens, introspect}
use backend_template.AuthApi.Refresh.{
  IsRefresh, check_refresh_lem, introspect_lem, new_jti, new_exp, new_tokens, after_issue,
  issue_lem, issue-ok,
}

module _ {S : Type 0} (l : Libs) (cfg : Settings) (r : Redis S) (live : String → S → Bool)
    (stored : Laws.Lawful r live) where
  abbrev pub session : String → World S → Bool
  session jti w = live (Sessions.key r cfg jti) w.redis

  module _ (w : World S) (token : String) (p : Payload) (jti sub : String) (exp : ℕ)
      (good : IsRefresh l cfg w.now token p jti sub exp) where
    abbrev found : Bool
    found = answer (r.exists (Sessions.key r cfg jti) w.redis).0

    dead_cookie :
        found ≡ false
        → ((refresh_tokens l cfg r (some token) w).0 ≡ err (http 401 "Refresh token revoked"))
          × ((introspect l cfg r (some token) w).0 ≡ ok inactive)
    unfolding refresh_tokens
    dead_cookie gone = (
      rw (check_refresh_lem l cfg r w token p jti sub exp good, gone),
      rw (introspect_lem l cfg r w token p jti sub exp good, gone),
    )

    -- A refresh token whose session is gone gets no tokens, and introspection calls it inactive.
    pub dead_session :
        session jti w ≡ false
        → ((refresh_tokens l cfg r (some token) w).0 ≡ err (http 401 "Refresh token revoked"))
          × ((introspect l cfg r (some token) w).0 ≡ ok inactive)
    dead_session dead =
        let (_, alive, _) = Laws.exists_lem r live stored cfg w jti in
        dead_cookie (ground (arith, alive))

    pub rotate-ok : (v : World S) → (x : String × Cookie) × ((rotate l cfg r jti sub v).0 ≡ ok x)
    unfolding rotate
    rotate-ok v =
        let v' = (Sessions.revoke r cfg jti v).1 in
        (
          new_tokens l cfg r sub none v',
          rw (Laws.revoke-ok r cfg v jti) (ap (λ x. x.0) (issue-ok l cfg r sub none v')),
        )

    refresh_found :
        found ≡ true
        → refresh_tokens l cfg r (some token) w
          ≡ rotate l cfg r jti sub (Sessions.exists r cfg jti w).1
    unfolding refresh_tokens
    refresh_found e = rw (check_refresh_lem l cfg r w token p jti sub exp good, e)

    -- For a cookie that decodes to a complete refresh token: introspection calls it active exactly
    -- when a refresh with it would return tokens; it leaves every session and every row as it was,
    -- and draws no random value.
    pub introspect_agrees :
        let (seen, after) = introspect l cfg r (some token) w in
        ((seen ≡ ok (record { active = true; user_id = some sub; expires_at = some exp }))
          ↔ ((x : String × Cookie) × ((refresh_tokens l cfg r (some token) w).0 ≡ ok x)))
        × ((j : String) → live j after.redis ≡ live j w.redis)
        × (after.users ≡ w.users)
        × (after.drawn ≡ w.drawn)
    introspect_agrees =
        let seen = introspect_lem l cfg r w token p jti sub exp good in
        let checked = check_refresh_lem l cfg r w token p jti sub exp good in
        let (_, _, keeps) = Laws.exists_lem r live stored cfg w jti in
        let same = Laws.exists_world r cfg w jti in
        rw seen (
          elim (Bool-cases found) [
            | inl e ↦
                let (x, done) = rotate-ok (Sessions.exists r cfg jti w).1 in
                (λ _. (x, rw (refresh_found e) done), λ _. rw e refl)
            | inr e ↦ (
              λ h. absurd (ground (arith, rw e at h)),
              λ h. absurd (ground (arith, (dead_cookie e).0, h.1)),
            )
          ],
          keeps,
          ap (λ v. v.users) same,
          ap (λ v. v.drawn) same,
        )

    -- the world after the check, and after the revocation
    abbrev pub checked : World S
    checked = (Sessions.exists r cfg jti w).1

    abbrev pub revoked : World S
    revoked = (Sessions.revoke r cfg jti checked).1

    module _ (law : Lawful l) (e : found ≡ true) (filled : new_jti l cfg r w ≢ "")
        (set : new_exp l cfg r w ≢ 0) where
      revoked_world : revoked ≡ record w { redis = revoked.redis }
      revoked_world =
          Laws.revoke_world r cfg checked jti
          ∙ ap {A = World S} (λ v. record v { redis = revoked.redis })
              (Laws.exists_world r cfg w jti)

      abbrev pub rotated : World S
      rotated = after_issue l cfg r sub (record w { redis = revoked.redis })

      pub refresh_done :
          refresh_tokens l cfg r (some token) w ≡ (ok (new_tokens l cfg r sub none w), rotated)
      unfolding rotate
      refresh_done =
          rw (refresh_found e, Laws.revoke-ok r cfg checked jti)
            (rw revoked_world
              (issue_lem l cfg r law sub none (record w { redis = revoked.redis }) filled set))

      pub old_gone :
          Sessions.key r cfg (new_jti l cfg r w) ≢ Sessions.key r cfg jti
          → (r.delete (Sessions.key r cfg jti) checked.redis).0 ≡ true
          → session jti rotated ≡ false
      old_gone other deleted =
          rw
            (Laws.add_ne r live stored cfg
              (record w { redis = revoked.redis; drawn = suc (suc w.drawn) }) (new_jti l cfg r w)
              sub (new_exp l cfg r w) (Sessions.key r cfg jti) other)
            (Laws.revoke_removes r live stored cfg checked jti deleted)

      pub rotated_now : rotated.now ≡ w.now
      rotated_now =
          ap {A = World S} (λ v. v.now)
            (Laws.add_world r cfg (record w { redis = revoked.redis; drawn = suc (suc w.drawn) })
              (new_jti l cfg r w) sub (new_exp l cfg r w))
