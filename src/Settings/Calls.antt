-- ===== src/Settings/Calls.antt =====
-- Sequences of calls of services/llm_config_service.py, and what the last of them answers.
use mathlib.Core.Option.{none-ne-some}
use backend_template.Prelude.{
  ℕ, zero, suc, ◌+◌, ◌≤◌, ◌<◌, String, ◌≡◌, refl, Bool, true, false, ◌==◌, Option, none, some, List,
  [], ◌∷◌, arith, Bool-cases, Option-cases, inl, inr,
}
use backend_template.Prelude.Int.{ℤ}
use backend_template.Values.{Value, Fields}
use backend_template.Settings.{Scope, PreferenceType, Preference, State, overrides_at}
use backend_template.Settings.Admins.{
  create_admin_override, update_admin_override, delete_admin_override, is_taken, new_override,
  find_override,
}
use backend_template.Settings.Users.{
  stored, deleted, is_preference, is_users_key, count_preferences, upsert, create_user_preference,
  last_part, delete_user_preference, create_allowed_override, load_user_preferences,
  validate_user_preference, has_allowed,
}
use backend_template.Settings.Resolving.{Agent, Config, Resolved, resolve, get_resolved_config}
use backend_template.Settings.Others.{upsert-others, remove-others}
use backend_template.Settings.Recent.{
  IsRecent, invalidate_admin_cache-IsRecent, changed-IsRecent, load_admin_overrides-IsRecent,
}
use backend_template.Settings.Answers.{get_resolved_config-IsRecent}

-- A call with its arguments; `wait` lets time pass.
pub data Call : Type 0 where
  create_override : Scope → String → Fields → Option String → ℤ → Option ℕ → Call
  update_override : ℕ → Option Fields → Option ℤ → Option Bool → Option ℕ → Call
  delete_override : ℕ → Call
  create_preference : ℕ → PreferenceType → String → Fields → Call
  delete_preference : ℕ → String → Call
  create_allowed : String → Option Fields → Call
  get_resolved : Option ℕ → Bool → Call
  wait : ℕ → Call

abbrev pub empty : State Resolved
empty = record {
  overrides = [];
  preferences = [];
  allowed = [];
  drawn = 0;
  now = 0;
  up = true;
  admin_cache = none;
  resolved_cache = λ u. none;
}

-- the parameters of the service
module _ (base : Config) (make_agent : Agent → Option Agent) (equal : Value → Value → Bool)
    (less : Value → Value → Option Bool) (is_part : String → String → Bool) (len : String → ℕ) where
  unfoldable pub perform : Call → State Resolved → State Resolved
  perform (create_override scope k v scope_key priority expires_at) s =
      (create_admin_override scope k v scope_key priority expires_at s).1
  perform (update_override id v priority is_active expires_at) s =
      (update_admin_override id v priority is_active expires_at s).1
  perform (delete_override id) s = (delete_admin_override id s).1
  perform (create_preference user type k v) s =
      (create_user_preference less equal is_part len user type k v s).1
  perform (delete_preference user k) s = (delete_user_preference user k s).1
  perform (create_allowed k constraints) s = (create_allowed_override k constraints s).1
  perform (get_resolved user use_cache) s =
      (get_resolved_config base make_agent equal less is_part len user use_cache s).1
  perform (wait n) s = record s { now = s.now + n }

  unfoldable pub calls : List Call → State Resolved → State Resolved
  unfolding perform
  calls [] s = s
  calls (c ∷ cs) s = calls cs (perform c s)

  get_base_config-IsRecent :
      (s : State Resolved) (use_cache : Bool)
      → IsRecent base make_agent equal less is_part len s
      → IsRecent base make_agent equal less is_part len
          (get_resolved_config base make_agent equal less is_part len none use_cache s).1
  unfolding get_resolved_config
  get_base_config-IsRecent s use_cache k =
      (load_admin_overrides-IsRecent base make_agent equal less is_part len s k).0

  stored-IsRecent :
      (s : State Resolved) (user : ℕ) (rows : Option (List Preference))
      → IsRecent base make_agent equal less is_part len s
      → ((rows' : List Preference) (u : ℕ)
          → rows ≡ some rows'
          → (u == user) ≡ false
          → load_user_preferences u rows' ≡ load_user_preferences u s.preferences)
      → IsRecent base make_agent equal less is_part len (stored user s rows).1
  stored-IsRecent s user none k same = k
  stored-IsRecent s user (some rows) k same =
      changed-IsRecent base make_agent equal less is_part len s user rows k
        (λ u ne. same rows u refl ne)

  deleted-IsRecent :
      (s : State Resolved) (user : ℕ) (key : String) (n : ℕ)
      → IsRecent base make_agent equal less is_part len s
      → IsRecent base make_agent equal less is_part len (deleted user key s n).1
  deleted-IsRecent s user key zero k = k
  deleted-IsRecent s user key (suc zero) k =
      changed-IsRecent base make_agent equal less is_part len s user _ k
        (λ u ne. remove-others u user ne key s.preferences)
  deleted-IsRecent s user key (suc (suc n)) k = k

  perform-IsRecent :
      (c : Call) (s : State Resolved)
      → IsRecent base make_agent equal less is_part len s
      → IsRecent base make_agent equal less is_part len (perform c s)
  unfolding perform create_admin_override update_admin_override delete_admin_override
      create_user_preference delete_user_preference create_allowed_override
  perform-IsRecent (create_override scope key v scope_key priority expires_at) s k =
      elim (Bool-cases
        (is_taken (new_override s.drawn scope key v scope_key priority expires_at) s.overrides)) [
          | inl e ↦ rw (perform, create_admin_override, e) k
          | inr e ↦
              rw (perform, create_admin_override, e)
                (invalidate_admin_cache-IsRecent base make_agent equal less is_part len _ k.is_up)
        ]
  perform-IsRecent (update_override id v priority is_active expires_at) s k =
      elim (Option-cases (find_override id s.overrides)) [
        | inl e ↦ rw (perform, update_admin_override, e) k
        | inr (o, e) ↦
            rw (perform, update_admin_override, e)
              (invalidate_admin_cache-IsRecent base make_agent equal less is_part len _ k.is_up)
      ]
  perform-IsRecent (delete_override id) s k = elim (Option-cases (find_override id s.overrides)) [
    | inl e ↦ rw (perform, delete_admin_override, e) k
    | inr (o, e) ↦
        rw (perform, delete_admin_override, e)
          (invalidate_admin_cache-IsRecent base make_agent equal less is_part len _ k.is_up)
  ]
  perform-IsRecent (create_preference user type key v) s k =
      elim (Option-cases
        (validate_user_preference less equal is_part len (last_part key) v s.allowed)) [
          | inr (error, e) ↦ rw (perform, create_user_preference, e) k
          | inl e ↦
              let n = count_preferences (is_preference user type key) s.preferences in
              rw (perform, create_user_preference, e)
                (stored-IsRecent s user (upsert n user type key v s.preferences) k
                  (λ rows u h ne. upsert-others u user ne n type key v s.preferences rows h))
        ]
  perform-IsRecent (delete_preference user key) s k =
      deleted-IsRecent s user key (count_preferences (is_users_key user key) s.preferences) k
  perform-IsRecent (create_allowed key constraints) s k =
      elim (Bool-cases (has_allowed key s.allowed)) [
        | inl e ↦ rw (perform, create_allowed_override, e) k
        | inr e ↦
            rw (perform, create_allowed_override, e)
              record { is_up = k.is_up; admin = k.admin; resolved = k.resolved }
      ]
  perform-IsRecent (get_resolved none use_cache) s k = get_base_config-IsRecent s use_cache k
  perform-IsRecent (get_resolved (some user) use_cache) s k =
      (get_resolved_config-IsRecent base make_agent equal less is_part len s user use_cache k).0
  perform-IsRecent (wait n) s k = record {
    is_up = k.is_up;
    admin = λ f h. let (t, p, q, z) = k.admin f h in (t, p, omega (arith, q), z);
    resolved = λ u f h. let (t, p, q, z) = k.resolved u f h in (t, p, omega (arith, q), z);
  }

  empty-IsRecent : IsRecent base make_agent equal less is_part len empty
  empty-IsRecent = record {
    is_up = refl;
    admin = λ f h. absurd (none-ne-some f h);
    resolved = λ u f h. absurd (none-ne-some f h);
  }

  calls-IsRecent :
      (cs : List Call) (s : State Resolved)
      → IsRecent base make_agent equal less is_part len s
      → IsRecent base make_agent equal less is_part len (calls cs s)
  unfolding calls
  calls-IsRecent [] s k = k
  calls-IsRecent (c ∷ cs) s k = calls-IsRecent cs (perform c s) (perform-IsRecent c s k)

  -- After any calls of the service on empty tables, one after another and while Redis answers, what `get_resolved_config`
  -- answers for a user, from Redis or not, is what the rows of that moment resolve to, with the overrides that
  -- were current at some time of the last two minutes.
  pub calls-recent :
      (cs : List Call) (user : ℕ) (use_cache : Bool)
      → let s = calls cs empty in
        (t : ℕ) × ((get_resolved_config base make_agent equal less is_part len
            (some user)
            use_cache
            s).0
          ≡ resolve base make_agent equal less is_part len
              (overrides_at t s.overrides)
              (some (load_user_preferences user s.preferences)))
        × (t ≤ s.now)
        × (s.now < t + 120)
  calls-recent cs user use_cache =
      (get_resolved_config-IsRecent base make_agent equal less is_part len (calls cs empty) user
        use_cache (calls-IsRecent cs empty empty-IsRecent)).1
