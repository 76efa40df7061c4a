-- ===== src/Settings/Answers.antt =====
-- What `get_resolved_config` of services/llm_config_service.py answers from rows and a cache that agree.
use mathlib.Core.Option.{none-ne-some}
use backend_template.Prelude.{
  ℕ, ◌+◌, ◌≤◌, ◌<◌, String, ◌≡◌, refl, sym, ap, ◌∙◌, Bool, true, false, ◌==◌, Option, none, some,
  arith, Bool-cases, Option-cases, inl, inr, if◌then◌else◌, ==_iff,
}
use backend_template.Values.{Value}
use backend_template.Settings.{State, get_cached, load_admin_overrides}
use backend_template.Settings.Users.{load_user_preferences}
use backend_template.Settings.Resolving.{Agent, Config, Resolved, resolve, get_resolved_config}
use backend_template.Settings.Resolving.{keep_resolved}
use backend_template.Settings.Recent.{
  get_cached-some, set_cached-some, resolved_at, IsRecent, load_admin_overrides-IsRecent,
}

-- the parameters of the service
module _ (base : Config) (make_agent : Agent → Option Agent) (equal : Value → Value → Bool)
    (less : Value → Value → Option Bool) (is_part : String → String → Bool) (len : String → ℕ) where
  keep_resolved-IsRecent :
      (s : State Resolved) (use_cache : Bool) (user : ℕ) (r : Option Resolved) (t : ℕ)
      → IsRecent base make_agent equal less is_part len s
      → resolved_at base make_agent equal less is_part len t user s ≡ r
      → t ≤ s.now
      → s.now < t + 60
      → IsRecent base make_agent equal less is_part len
          (keep_resolved base make_agent equal less is_part len use_cache user r s).1
        × ((keep_resolved base make_agent equal less is_part len use_cache user r s).0 ≡ r)
  keep_resolved-IsRecent s use_cache user none t k e p q = (k, refl)
  keep_resolved-IsRecent s false user (some r) t k e p q = (k, refl)
  keep_resolved-IsRecent s true user (some r) t k e p q = (
    record {
      is_up = k.is_up;
      admin = k.admin;
      resolved = λ u f h. elim (Bool-cases (u == user)) [
        | inl eq ↦
            let (same, until) = set_cached-some _ _ _ (s.resolved_cache u) f k.is_up (rw eq at h) in
            (t, rw ((==_iff u user).0 eq, sym same) e, p, omega (arith, until, q))
        | inr ne ↦ k.resolved u f (rw ne at h)
      ];
    },
    refl,
  )

  pub get_resolved_config-IsRecent :
      (s : State Resolved) (user : ℕ) (use_cache : Bool)
      → IsRecent base make_agent equal less is_part len s
      → let got =
          get_resolved_config base make_agent equal less is_part len (some user) use_cache s in
        IsRecent base make_agent equal less is_part len got.1
        × ((t : ℕ) × (got.0 ≡ resolved_at base make_agent equal less is_part len t user s)
            × (t ≤ s.now)
            × (s.now < t + 120))
  unfolding get_resolved_config
  get_resolved_config-IsRecent s user use_cache k =
      elim (Option-cases
        (if use_cache then get_cached s.up s.now (s.resolved_cache user) else none)) [
          | inl e ↦
              let loaded =
                load_admin_overrides-IsRecent base make_agent equal less is_part len s k in
              let (t, p, q, z) = loaded.5 in
              let r =
                resolve base make_agent equal less is_part len (load_admin_overrides s).0
                  (some (load_user_preferences user s.preferences)) in
              let kept =
                keep_resolved-IsRecent (load_admin_overrides s).1 use_cache user r t loaded.0
                  (rw (loaded.3, loaded.4, p) refl) (rw loaded.1 q) (rw loaded.1 z) in
              let is_now : r ≡ resolved_at base make_agent equal less is_part len t user s =
                rw p refl in
              rw (get_resolved_config, e) (kept.0, (t, kept.1 ∙ is_now, q, omega (arith, z)))
          | inr (cached, e) ↦ elim (Bool-cases use_cache) [
            | inl on ↦
                let (f, found, same, before) =
                  get_cached-some s.up s.now (s.resolved_cache user) cached (rw on at e) in
                let (t, p, q, z) = k.resolved user f found in
                rw (get_resolved_config, e)
                  (k, (t, ap some (sym same) ∙ sym p, q, omega (arith, z, before)))
            | inr off ↦ absurd (none-ne-some cached (rw off at e))
          ]
        ]
