-- ===== src/Settings/Recent.antt =====
-- How recent the configuration is that services/llm_config_service.py resolves for a user, whatever Redis keeps.
use mathlib.Core.Option.{some-injective, none-ne-some}
use backend_template.Prelude.{
  ℕ, ◌+◌, ◌≤◌, ◌<◌, String, ◌≡◌, refl, sym, ap, ◌∙◌, Bool, true, false, ◌&&◌, ltb, ◌==◌, Option,
  none, some, List, arith, Bool-cases, Option-cases, inl, inr,
}
use backend_template.Values.{Value}
use backend_template.Settings.{
  Preference, State, Entry, Overrides, overrides_at, get_cached, set_cached, invalidate_admin_cache,
  invalidate_user_cache, load_admin_overrides,
}
use backend_template.Settings.Users.{load_user_preferences}
use backend_template.Settings.Resolving.{Agent, Config, Resolved, resolve}

-- a value that is read from Redis
pub get_cached-some :
    {A : Type 0} (up : Bool) (now : ℕ) (c : Option (Entry A)) (a : A)
    → get_cached up now c ≡ some a
    → (e : Entry A) × (c ≡ some e) × (e.entry ≡ a) × (now < e.expires)
get_cached-some up now none a h = absurd (none-ne-some a h)
get_cached-some up now (some e) a h = elim (Bool-cases (up && ltb now e.expires)) [
  | inl on ↦ (e, refl, some-injective _ _ (rw on at h), ground arith)
  | inr off ↦ absurd (none-ne-some a (rw off at h))
]

-- a value that is written to Redis
pub set_cached-some :
    {A : Type 0} (up : Bool) (now : ℕ) (a : A) (old : Option (Entry A)) (e : Entry A)
    → up ≡ true
    → set_cached up now a old ≡ some e
    → (a ≡ e.entry) × (e.expires ≡ now + 60)
set_cached-some up now a old e on h =
    let made : record { entry = a; expires = now + 60 } ≡ e = some-injective _ _ (rw on at h) in
    (ap (λ x. x.entry) made, sym (ap (λ x. x.expires) made))

-- the parameters of `get_resolved_config`
module _ (base : Config) (make_agent : Agent → Option Agent) (equal : Value → Value → Bool)
    (less : Value → Value → Option Bool) (is_part : String → String → Bool) (len : String → ℕ) where
  -- what the rows resolve to for a user, by the overrides that are current at a time
  abbrev pub resolved_at : ℕ → ℕ → State Resolved → Option Resolved
  resolved_at t user s =
      resolve base make_agent equal less is_part len (overrides_at t s.overrides)
        (some (load_user_preferences user s.preferences))

  -- What Redis keeps agrees with the rows, but for overrides that expired since a time that is not long ago.
  pub record IsRecent (s : State Resolved) : Type 0 where
    pub is_up : s.up ≡ true
    pub admin :
        (e : Entry Overrides)
        → s.admin_cache ≡ some e
        → (t : ℕ) × (overrides_at t s.overrides ≡ e.entry) × (t ≤ s.now) × (e.expires ≤ t + 60)
    pub resolved :
        (u : ℕ) (e : Entry Resolved)
        → s.resolved_cache u ≡ some e
        → (t : ℕ) × (resolved_at t u s ≡ some e.entry) × (t ≤ s.now) × (e.expires ≤ t + 120)

  pub invalidate_admin_cache-IsRecent :
      (s : State Resolved) → s.up ≡ true → IsRecent (invalidate_admin_cache s)
  invalidate_admin_cache-IsRecent s up = record {
    is_up = up;
    admin = λ e h. ground arith;
    resolved = λ u e h. ground arith;
  }

  -- the rows of one user change, and his key is deleted
  pub changed-IsRecent :
      (s : State Resolved) (user : ℕ) (rows : List Preference)
      → IsRecent s
      → ((u : ℕ)
          → (u == user) ≡ false
          → load_user_preferences u rows ≡ load_user_preferences u s.preferences)
      → IsRecent (invalidate_user_cache user (record s { preferences = rows }))
  changed-IsRecent s user rows r same = record {
    is_up = r.is_up;
    admin = r.admin;
    resolved = λ u e h. elim (Bool-cases (u == user)) [
      | inl eq ↦ absurd (none-ne-some e (rw (r.is_up, eq) at h))
      | inr ne ↦
          let (t, p, q, z) = r.resolved u e (rw (r.is_up, ne) at h) in (t, rw (same u ne) p, q, z)
    ];
  }

  -- What `_load_admin_overrides_dict` returns was current at a time that is not long ago.
  pub load_admin_overrides-IsRecent :
      (s : State Resolved)
      → IsRecent s
      → IsRecent (load_admin_overrides s).1
        × ((load_admin_overrides s).1.now ≡ s.now)
        × ((load_admin_overrides s).1.up ≡ s.up)
        × ((load_admin_overrides s).1.overrides ≡ s.overrides)
        × ((load_admin_overrides s).1.preferences ≡ s.preferences)
        × ((t : ℕ) × (overrides_at t s.overrides ≡ (load_admin_overrides s).0)
            × (t ≤ s.now)
            × (s.now < t + 60))
  unfolding load_admin_overrides
  load_admin_overrides-IsRecent s r = elim (Option-cases (get_cached s.up s.now s.admin_cache)) [
    | inl e ↦
        rw (load_admin_overrides, e)
          (
            record {
              is_up = r.is_up;
              admin = λ f h.
                  let (same, until) = set_cached-some _ _ _ s.admin_cache f r.is_up h in
                  (s.now, same, omega arith, omega (arith, until));
              resolved = r.resolved;
            },
            refl,
            refl,
            refl,
            refl,
            (s.now, refl, omega arith, omega arith),
          )
    | inr (cached, e) ↦
        let (f, kept, same, before) = get_cached-some s.up s.now s.admin_cache cached e in
        let (t, p, q, z) = r.admin f kept in
        rw (load_admin_overrides, e)
          (r, refl, refl, refl, refl, (t, p ∙ same, q, omega (arith, z, before)))
  ]
