-- ===== src/Settings.antt =====
-- inference_core/services/llm_config_service.py and database/sql/models/llm_config.py: the overrides of the admins, the
-- preferences of the users, and the cache of both in Redis. Rows are read in the order in which they were
-- added; a JSON value is read from Redis as it was written, and Redis answers all the commands of a call or none.
pub mod Admins
pub mod Users
pub mod Resolving
pub mod Others
pub mod Recent
pub mod Answers
pub mod Calls
pub mod ModelParams
pub mod Layers
pub mod Priorities
pub mod Stored
pub mod Unique
pub mod Upserts
use backend_template.Prelude.{
  ℕ, suc, ◌+◌, String, str_eq, Bool, true, false, not, ◌&&◌, ◌||◌, ltb, leb, ◌==◌, Option, none,
  some, List, [], ◌∷◌, ◌++◌, if◌then◌else◌,
}
use backend_template.Prelude.Int.{ℤ, leb_ℤ}
use backend_template.Values.{Value, dict, Fields}
use backend_template.ParamPolicy.{get, assign, is_some}

-- `ConfigScope`
pub data Scope : Type 0 where
  global model agent : Scope

abbrev pub same_scope : Scope → Scope → Bool
same_scope global global = true
same_scope model model = true
same_scope agent agent = true
same_scope _ _ = false

-- `LLMConfigOverride`; the texts and the author are left out
pub record Override : Type 0 where
  pub id : ℕ
  pub scope : Scope
  pub scope_key : Option String
  pub config_key : String
  pub config_value : Fields
  pub priority : ℤ
  pub is_active : Bool
  pub expires_at : Option ℕ

-- `UserLLMPreferenceType`
pub data PreferenceType : Type 0 where
  default_model model_params agent_params : PreferenceType

abbrev pub same_type : PreferenceType → PreferenceType → Bool
same_type default_model default_model = true
same_type model_params model_params = true
same_type agent_params agent_params = true
same_type _ _ = false

-- `UserLLMPreference`
pub record Preference : Type 0 where
  pub user_id : ℕ
  pub preference_type : PreferenceType
  pub preference_key : String
  pub preference_value : Fields
  pub is_active : Bool

-- `AllowedUserOverride`
pub record Allowed : Type 0 where
  pub config_key : String
  pub constraints : Option Fields
  pub is_active : Bool

abbrev pub Dict : Type 0 → Type 0
Dict V = List (String × V)

-- what `_load_admin_overrides_dict` returns
pub record Overrides : Type 0 where
  pub global_dict : Dict Fields
  pub model_dict : Dict (Dict Fields)
  pub agent_dict : Dict (Dict Fields)

-- what `_load_user_preferences_dict` returns
pub record Preferences : Type 0 where
  pub default_model_dict : Dict Fields
  pub model_params_dict : Dict Fields
  pub agent_params_dict : Dict Fields

-- an entry of Redis, with the time at which it expires
pub record Entry (A : Type 0) : Type 0 where
  pub entry : A
  pub expires : ℕ

-- The tables, the time in seconds, and the keys of Redis: of the overrides, and of what is resolved for a user.
-- `up` says whether Redis answers.
pub record State (Resolved : Type 0) : Type 0 where
  pub overrides : List Override
  pub preferences : List Preference
  pub allowed : List Allowed
  pub drawn : ℕ
  pub now : ℕ
  pub up : Bool
  pub admin_cache : Option (Entry Overrides)
  pub resolved_cache : ℕ → Option (Entry Resolved)

-- `CACHE_TTL_SECONDS`
abbrev pub cache_ttl_seconds : ℕ
cache_ttl_seconds = 60

-- `_get_cached`; an exception of Redis gives none
abbrev pub get_cached : {A : Type 0} → Bool → ℕ → Option (Entry A) → Option A
get_cached up now none = none
get_cached up now (some e) = if up && ltb now e.expires then some e.entry else none

-- `_set_cached`, which swallows an exception
abbrev pub set_cached : {A : Type 0} → Bool → ℕ → A → Option (Entry A) → Option (Entry A)
set_cached up now a old =
    if up then some (record { entry = a; expires = now + cache_ttl_seconds }) else old

-- the row is active and has not expired
unfoldable pub is_current : ℕ → Override → Bool
is_current now o = o.is_active && elim o.expires_at [ none ↦ true | some t ↦ ltb now t ]

unfoldable pub current : ℕ → List Override → List Override
current now [] = []
current now (o ∷ os) = let rest = current now os in if is_current now o then o ∷ rest else rest

-- `order_by(priority.desc())`
unfoldable pub insert_by_priority : Override → List Override → List Override
insert_by_priority o [] = o ∷ []
insert_by_priority o (p ∷ ps) =
    let rest = insert_by_priority o ps in
    if leb_ℤ p.priority o.priority then o ∷ p ∷ ps else p ∷ rest

unfoldable pub by_priority : List Override → List Override
by_priority [] = []
by_priority (o ∷ os) = insert_by_priority o (by_priority os)

-- `get_admin_overrides(active_only=True)`
unfoldable pub get_admin_overrides : ℕ → List Override → List Override
unfolding current by_priority
get_admin_overrides now rows = by_priority (current now rows)

-- `override.scope_key or "__global__"`
abbrev pub key_of : Option String → String
key_of none = "__global__"
key_of (some key) = if str_eq key "" then "__global__" else key

abbrev pub inner : Option (Dict Fields) → Dict Fields
inner none = []
inner (some d) = d

abbrev pub put_nested : String → Override → Dict (Dict Fields) → Dict (Dict Fields)
put_nested key o d = assign key (assign o.config_key o.config_value (inner (get key d))) d

abbrev pub add_override_to : Scope → Override → Overrides → Overrides
add_override_to global o r = record r {
  global_dict = assign o.config_key o.config_value r.global_dict;
}
add_override_to model o r = record r { model_dict = put_nested (key_of o.scope_key) o r.model_dict }
add_override_to agent o r = record r { agent_dict = put_nested (key_of o.scope_key) o r.agent_dict }

-- the loop of `_load_admin_overrides_dict`
unfoldable pub add_overrides : List Override → Overrides → Overrides
add_overrides [] r = r
add_overrides (o ∷ os) r = add_overrides os (add_override_to o.scope o r)

abbrev pub no_overrides : Overrides
no_overrides = record { global_dict = []; model_dict = []; agent_dict = [] }

unfoldable pub overrides_at : ℕ → List Override → Overrides
unfolding get_admin_overrides add_overrides
overrides_at now rows = add_overrides (get_admin_overrides now rows) no_overrides

module _ {R : Type 0} where
  -- `_load_admin_overrides_dict`
  unfoldable pub load_admin_overrides : State R → Overrides × State R
  unfolding overrides_at
  load_admin_overrides s = elim (get_cached s.up s.now s.admin_cache) [
    | some cached ↦ (cached, s)
    | none ↦
        let loaded = overrides_at s.now s.overrides in
        (loaded, record s { admin_cache = set_cached s.up s.now loaded s.admin_cache })
  ]

  -- `_invalidate_user_cache`
  abbrev pub invalidate_user_cache : ℕ → State R → State R
  invalidate_user_cache user_id s = record s {
    resolved_cache = λ u. if s.up && (u == user_id) then none else s.resolved_cache u;
  }

  -- `_invalidate_admin_cache`
  abbrev pub invalidate_admin_cache : State R → State R
  invalidate_admin_cache s = record s {
    admin_cache = if s.up then none else s.admin_cache;
    resolved_cache = λ u. if s.up then none else s.resolved_cache u;
  }
