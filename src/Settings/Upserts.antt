-- ===== src/Settings/Upserts.antt =====
-- Every upsert of a preference finds at most one row (services/llm_config_service.py).
use backend_template.Prelude.{
  ◌∙◌, ℕ, zero, suc, ◌≤◌, String, ◌≡◌, refl, Bool, true, false, Option, none, some, List, [], ◌∷◌,
  arith, Bool-cases, Option-cases, inl, inr,
}
use backend_template.Values.{Value, Fields}
use backend_template.Settings.{get_cached, load_admin_overrides, PreferenceType, Preference, State}
use backend_template.Settings.Admins.{
  create_admin_override, update_admin_override, delete_admin_override, is_taken, new_override,
  find_override,
}
use backend_template.Settings.Users.{
  stored, deleted, is_preference, is_users_key, count_preferences, upsert, create_user_preference,
  last_part, delete_user_preference, create_allowed_override, load_user_preferences,
  validate_user_preference, has_allowed,
}
use backend_template.Settings.Resolving.{
  keep_resolved, Agent, Config, Resolved, get_resolved_config,
}
use backend_template.Prelude.{zero, suc, if◌then◌else◌}
use backend_template.Settings.Users.{ConfigError}
use backend_template.Settings.Stored.{dict_of, upsert-load}
use backend_template.Settings.Calls.{
  Call, create_override, update_override, delete_override, create_preference, delete_preference,
  create_allowed, get_resolved, wait, empty, perform, calls,
}
use backend_template.ParamPolicy.{get}
use backend_template.Settings.Unique.{IsUnique, count-remove, upsert-IsUnique}

stored-IsUnique :
    {R : Type 0} (s : State R) (user : ℕ) (rows : Option (List Preference))
    → IsUnique s.preferences
    → ((rows' : List Preference) → rows ≡ some rows' → IsUnique rows')
    → IsUnique (stored user s rows).1.preferences
stored-IsUnique s user none one after = one
stored-IsUnique s user (some rows) one after = after rows refl

deleted-IsUnique :
    {R : Type 0} (s : State R) (user : ℕ) (key : String) (n : ℕ)
    → IsUnique s.preferences
    → IsUnique (deleted user key s n).1.preferences
deleted-IsUnique s user key zero one = one
deleted-IsUnique s user key (suc zero) one = λ u t k.
    let before = one u t k in
    omega (arith, before, count-remove (is_users_key user key) (is_preference u t k) s.preferences)
deleted-IsUnique s user key (suc (suc n)) one = one

load_admin_overrides-preferences :
    {R : Type 0} (s : State R) → (load_admin_overrides s).1.preferences ≡ s.preferences
unfolding load_admin_overrides
load_admin_overrides-preferences s = elim (Option-cases (get_cached s.up s.now s.admin_cache)) [
  | inl e ↦ rw (load_admin_overrides, e) refl
  | inr (o, e) ↦ rw (load_admin_overrides, e) refl
]

-- what an upsert comes to, by what the validation raises
abbrev pub IsOutcome :
    ℕ
    → PreferenceType
    → String
    → Fields
    → State Resolved
    → Option ConfigError × State Resolved
    → Option ConfigError
    → Type 0
IsOutcome user type key value s out (some error) = out ≡ (some error, s)
IsOutcome user type key value s out none =
    (out.0 ≡ none)
    × (get key (dict_of type (load_user_preferences user out.1.preferences)) ≡ some value)

stored_lem :
    (n user : ℕ) (type : PreferenceType) (key : String) (value : Fields) (s : State Resolved)
    → n ≡ count_preferences (is_preference user type key) s.preferences
    → n ≤ 1
    → IsOutcome user type key value s
        (stored user s (upsert n user type key value s.preferences))
        none
stored_lem zero user type key value s c h =
    (refl, upsert-load zero user type key value s.preferences _ c refl)
stored_lem (suc zero) user type key value s c h =
    (refl, upsert-load (suc zero) user type key value s.preferences _ c refl)
stored_lem (suc (suc n)) user type key value s c h = ground arith

none_stored :
    (u : ℕ) (t : PreferenceType) (k : String) → count_preferences (is_preference u t k) [] ≤ 1
unfolding count_preferences
none_stored u t k = omega arith

-- the parameters of the service
module _ (base : Config) (make_agent : Agent → Option Agent) (equal : Value → Value → Bool)
    (less : Value → Value → Option Bool) (is_part : String → String → Bool) (len : String → ℕ) where
  keep_resolved-preferences :
      (use_cache : Bool) (user : ℕ) (r : Option Resolved) (s : State Resolved)
      → (keep_resolved base make_agent equal less is_part len use_cache user r s).1.preferences
        ≡ s.preferences
  keep_resolved-preferences use_cache user none s = refl
  keep_resolved-preferences true user (some r) s = refl
  keep_resolved-preferences false user (some r) s = refl

  get_resolved_config-preferences :
      (user : Option ℕ) (use_cache : Bool) (s : State Resolved)
      → (get_resolved_config base make_agent equal less is_part len user use_cache s).1.preferences
        ≡ s.preferences
  unfolding get_resolved_config
  get_resolved_config-preferences none use_cache s = load_admin_overrides-preferences s
  get_resolved_config-preferences (some user) use_cache s =
      elim (Option-cases
        (if use_cache then get_cached s.up s.now (s.resolved_cache user) else none)) [
          | inl e ↦
              rw (get_resolved_config, e)
                (keep_resolved-preferences use_cache user _ (load_admin_overrides s).1
                  ∙ load_admin_overrides-preferences s)
          | inr (cached, e) ↦ rw (get_resolved_config, e) refl
        ]

  perform-IsUnique :
      (c : Call) (s : State Resolved)
      → IsUnique s.preferences
      → IsUnique (perform base make_agent equal less is_part len c s).preferences
  unfolding perform create_admin_override update_admin_override delete_admin_override
      create_user_preference delete_user_preference create_allowed_override
  perform-IsUnique (create_override scope key v scope_key priority expires_at) s one =
      elim (Bool-cases
        (is_taken (new_override s.drawn scope key v scope_key priority expires_at) s.overrides)) [
          | inl e ↦ rw (perform, create_admin_override, e) one
          | inr e ↦ rw (perform, create_admin_override, e) one
        ]
  perform-IsUnique (update_override id v priority is_active expires_at) s one =
      elim (Option-cases (find_override id s.overrides)) [
        | inl e ↦ rw (perform, update_admin_override, e) one
        | inr (o, e) ↦ rw (perform, update_admin_override, e) one
      ]
  perform-IsUnique (delete_override id) s one = elim (Option-cases (find_override id s.overrides)) [
    | inl e ↦ rw (perform, delete_admin_override, e) one
    | inr (o, e) ↦ rw (perform, delete_admin_override, e) one
  ]
  perform-IsUnique (create_preference user type key v) s one =
      elim (Option-cases
        (validate_user_preference less equal is_part len (last_part key) v s.allowed)) [
          | inr (error, e) ↦ rw (perform, create_user_preference, e) one
          | inl e ↦
              let n = count_preferences (is_preference user type key) s.preferences in
              rw (perform, create_user_preference, e)
                (stored-IsUnique s user (upsert n user type key v s.preferences) one
                  (λ rows h. upsert-IsUnique n user type key v s.preferences rows refl h one))
        ]
  perform-IsUnique (delete_preference user key) s one =
      deleted-IsUnique s user key (count_preferences (is_users_key user key) s.preferences) one
  perform-IsUnique (create_allowed key constraints) s one =
      elim (Bool-cases (has_allowed key s.allowed)) [
        | inl e ↦ rw (perform, create_allowed_override, e) one
        | inr e ↦ rw (perform, create_allowed_override, e) one
      ]
  perform-IsUnique (get_resolved user use_cache) s one =
      rw (get_resolved_config-preferences user use_cache s) one
  perform-IsUnique (wait n) s one = one

  calls-IsUnique :
      (cs : List Call) (s : State Resolved)
      → IsUnique s.preferences
      → IsUnique (calls base make_agent equal less is_part len cs s).preferences
  unfolding calls
  calls-IsUnique [] s one = one
  calls-IsUnique (c ∷ cs) s one =
      calls-IsUnique cs (perform base make_agent equal less is_part len c s)
        (perform-IsUnique c s one)

  -- After any calls of the service on empty tables: a preference that the allowlist or its constraints refuse raises
  -- that error and changes nothing; any other is stored without an error, and is what the
  -- user's preferences hold for its type and key from then on.
  pub create_user_preference_lem :
      (cs : List Call) (user : ℕ) (type : PreferenceType) (key : String) (value : Fields)
      → let s = calls base make_agent equal less is_part len cs empty in
        IsOutcome user type key value s
          (create_user_preference less equal is_part len user type key value s)
          (validate_user_preference less equal is_part len (last_part key) value s.allowed)
  unfolding create_user_preference
  create_user_preference_lem cs user type key value =
      let s = calls base make_agent equal less is_part len cs empty in
      let one = calls-IsUnique cs empty (λ u t k. none_stored u t k) user type key in
      elim (Option-cases
        (validate_user_preference less equal is_part len (last_part key) value s.allowed)) [
          | inr (error, e) ↦ rw (create_user_preference, e) refl
          | inl e ↦ rw (create_user_preference, e) (stored_lem _ user type key value s refl one)
        ]
