-- ===== src/AuthApi/Replay.antt =====
-- A refresh cookie used again, under api/v1/routes/auth.py: after a refresh, after a logout, and in two
-- requests at once.
use backend_template.Prelude.{
  ℕ, suc, String, ◌≡◌, ◌≢◌, refl, Bool, true, false, none, some, str_eq, eq_iff, arith, Bool-cases,
  inl, inr,
}
use backend_template.Security.{Payload, Libs, Lawful, Settings}
use backend_template.Server.{World, http, ok, err}
use backend_template.Sessions
use backend_template.Sessions.{Redis}
use backend_template.Sessions.Laws
use backend_template.Sessions.Laws.{answer}
use backend_template.AuthApi.{
  Cookie, cleared, inactive, check_refresh, rotate, refresh_tokens, introspect, logout,
  revoke_cookie,
}
use backend_template.AuthApi.Rotation
use backend_template.AuthApi.Refresh.{
  IsRefresh, check_refresh_lem, new_jti, new_exp, new_tokens, after_issue,
}

module _ {S : Type 0} (l : Libs) (cfg : Settings) (r : Redis S) (live : String → S → Bool)
    (stored : Laws.Lawful r live) (w : World S) (token : String) (p : Payload) (jti sub : String)
    (exp : ℕ) (good : IsRefresh l cfg w.now token p jti sub exp) where
  abbrev checked : World S
  checked = (Sessions.exists r cfg jti w).1

  abbrev revoked : World S
  revoked = (Sessions.revoke r cfg jti checked).1

  -- A refresh with a cookie that decodes to a complete refresh token, whose session Redis finds
  -- and deletes, and whose new session, of another id and with an expiry, Redis stores: it returns
  -- new tokens, revokes the session of the cookie and registers that of the new one, which it
  -- sets. The cookie presented again, after it, is refused as revoked.
  pub refresh_rotates :
      (law : Lawful l)
      → (present : answer (r.exists (Sessions.key r cfg jti) w.redis).0 ≡ true)
      → (filled : new_jti l cfg r w ≢ "") → (set : new_exp l cfg r w ≢ 0)
      → (other : Sessions.key r cfg (new_jti l cfg r w) ≢ Sessions.key r cfg jti)
      → (deleted : (r.delete (Sessions.key r cfg jti) checked.redis).0 ≡ true)
      → (added : (r.hset
            (Sessions.key r cfg (new_jti l cfg r w))
            sub
            (new_exp l cfg r w)
            revoked.redis).0
          ≡ true)
      → ((refresh_tokens l cfg r (some token) w).0 ≡ ok (new_tokens l cfg r sub none w))
        × (live (Sessions.key r cfg jti) (refresh_tokens l cfg r (some token) w).1.redis ≡ false)
        × (live
              (Sessions.key r cfg (new_jti l cfg r w))
              (refresh_tokens l cfg r (some token) w).1.redis
            ≡ true)
        × ((refresh_tokens l cfg r (some token) (refresh_tokens l cfg r (some token) w).1).0
            ≡ err (http 401 "Refresh token revoked"))
  refresh_rotates law present filled set other deleted added =
      let done =
        Rotation.refresh_done l cfg r live stored w token p jti sub exp good law present filled
          set in
      let gone =
        Rotation.old_gone l cfg r live stored w token p jti sub exp good law present filled set
          other deleted in
      let same =
        Rotation.rotated_now l cfg r live stored w token p jti sub exp good law present filled
          set in
      let w' : World S = after_issue l cfg r sub (record w { redis = revoked.redis }) in
      let still_good : IsRefresh l cfg w'.now token p jti sub exp = rw same good in
      rw done (
        refl,
        gone,
        Laws.add_registers r live stored cfg
            (record w { redis = revoked.redis; drawn = suc (suc w.drawn) }) (new_jti l cfg r w) sub
            (new_exp l cfg r w) added,
        (Rotation.dead_session l cfg r live stored w' token p jti sub exp still_good gone).0,
      )

  -- Two requests with one cookie, a complete refresh token, for both of which Redis answers that
  -- the session exists before either revokes it: both pass the check, and both get new tokens.
  pub both_refresh :
      (first : answer (r.exists (Sessions.key r cfg jti) w.redis).0 ≡ true)
      → (second : answer (r.exists (Sessions.key r cfg jti) checked.redis).0 ≡ true)
      → ((check_refresh l cfg r (some token) w).0 ≡ ok (jti, sub))
        × ((check_refresh l cfg r (some token) checked).0 ≡ ok (jti, sub))
        × ((x : String × Cookie) × ((rotate l cfg r jti sub (Sessions.exists r cfg jti checked).1).0
              ≡ ok x))
        × ((x : String × Cookie) × ((rotate l cfg r jti sub
                (rotate l cfg r jti sub (Sessions.exists r cfg jti checked).1).1).0
              ≡ ok x))
  both_refresh first second =
      let twice = (Sessions.exists r cfg jti checked).1 in
      (
        rw (check_refresh_lem l cfg r w token p jti sub exp good, first) refl,
        rw
            (
              check_refresh_lem l cfg r checked token p jti sub exp
                  (rw (Laws.exists_world r cfg w jti) good),
              second,
            )
            refl,
        Rotation.rotate-ok l cfg r live stored w token p jti sub exp good twice,
        Rotation.rotate-ok l cfg r live stored w token p jti sub exp good
            (rotate l cfg r jti sub twice).1,
      )

  revoke_cookie_lem : revoke_cookie l cfg r (some token) w ≡ Sessions.revoke r cfg jti w
  revoke_cookie_lem =
      let some_token : str_eq token "" ≡ false = ground (arith, eq_iff token "", good.filled) in
      let some_jti : str_eq jti "" ≡ false = ground (arith, eq_iff jti "", good.jti_filled) in
      rw (some_token, good.decodes, good.is_refresh, good.has_jti) (rw (some_jti) refl)

  -- What a logout leaves, where Redis deletes the session (`true`) or raises (`false`): the cookie
  -- refreshes nothing, introspection calls it inactive and other sessions are as before, or the
  -- world is the one before but for what Redis did.
  unfoldable pub LoggedOut : Bool → World S → Type 0
  LoggedOut true w' =
      ((refresh_tokens l cfg r (some token) w').0 ≡ err (http 401 "Refresh token revoked"))
      × ((introspect l cfg r (some token) w').0 ≡ ok inactive)
      × ((j : String) → Sessions.key r cfg jti ≢ j → live j w'.redis ≡ live j w.redis)
  LoggedOut false w' = w' ≡ record w { redis = (r.delete (Sessions.key r cfg jti) w.redis).1 }

  session_ends :
      (deleted : (r.delete (Sessions.key r cfg jti) w.redis).0 ≡ true)
      → LoggedOut true (logout l cfg r (some token) w).1
  unfolding logout LoggedOut
  session_ends deleted =
      let after = (Sessions.revoke r cfg jti w).1 in
      let gone = Laws.revoke_removes r live stored cfg w jti deleted in
      let still_good : IsRefresh l cfg after.now token p jti sub exp =
        rw (Laws.revoke_world r cfg w jti) good in
      let dead =
        Rotation.dead_session l cfg r live stored after token p jti sub exp still_good gone in
      rw (revoke_cookie_lem, Laws.revoke-ok r cfg w jti)
        (dead.0, dead.1, λ j ne. Laws.revoke_ne r live stored cfg w jti j ne)

  -- what a logout does when Redis raises
  session_stays : LoggedOut false (logout l cfg r (some token) w).1
  unfolding logout LoggedOut
  session_stays =
      rw (revoke_cookie_lem, Laws.revoke-ok r cfg w jti) (Laws.revoke_deletes r cfg w jti)

  -- Logging out with a complete refresh token as cookie answers, and clears the cookie, whether
  -- Redis deletes the session or raises. Where it deletes it, the cookie refreshes nothing
  -- afterwards, introspection calls it inactive, and other sessions stay as they were; where it
  -- raises, the logout changes nothing but what Redis did itself.
  pub logout_ends :
      ((logout l cfg r (some token) w).0 ≡ ok ("Logged out successfully", cleared))
      × LoggedOut (r.delete (Sessions.key r cfg jti) w.redis).0 (logout l cfg r (some token) w).1
  unfolding logout
  logout_ends =
      let answers : (logout l cfg r (some token) w).0 ≡ ok ("Logged out successfully", cleared) =
        rw (logout, revoke_cookie_lem, Laws.revoke-ok r cfg w jti) refl in
      elim (Bool-cases (r.delete (Sessions.key r cfg jti) w.redis).0) [
        | inl deleted ↦ (answers, rw (deleted) (session_ends deleted))
        | inr raises ↦ (answers, rw (raises) (session_stays))
      ]
