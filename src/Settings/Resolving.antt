-- ===== src/Settings/Resolving.antt =====
-- services/llm_config_service.py: what is resolved for a user from the configuration file, the overrides and the
-- preferences. `ResolvedAgentConfig`, whose validation can raise, is a parameter.
use backend_template.Prelude.{
  ℕ, String, str_eq, Bool, not, ◌&&◌, ◌==◌, Option, none, some, List, [], ◌∷◌, if◌then◌else◌,
}
use Prim.Native.String.{◌++◌}
use backend_template.Prelude.Int.{pos}
use backend_template.Prelude.Options.{◌>>=◌}
use backend_template.Values.{
  text, number, Value, null, int, float, str, list, nil, Fields, end, field, find,
}
use backend_template.Settings.{
  Dict, Overrides, Preferences, State, get_cached, set_cached, load_admin_overrides,
}
use backend_template.Settings.Users.{last_part, not_in, load_user_preferences}
use backend_template.ParamPolicy.{mem, get, assign, is_some}

-- `AgentConfig` and `ResolvedAgentConfig`, with the fields that both have
pub record Agent : Type 0 where
  pub primary : Value
  pub fallback : Value
  pub allowed_tools : Value
  pub mcp_profile : Value
  pub local_tool_providers : Value
  pub skills : Value
  pub subagents : Value
  pub description : Value
  pub user_selectable : Value

-- `ModelConfig`, with the parameters that can be overridden
pub record Model : Type 0 where
  pub temperature : Value
  pub max_tokens : Value

-- `LLMConfig`
pub record Config : Type 0 where
  pub models : Dict Model
  pub agent_configs : Dict Agent

-- `ResolvedConfigResponse`, but for the prompt limits and the time at which it was cached
pub record Resolved : Type 0 where
  pub sources : Dict String
  pub available_models : List String
  pub agents : Dict Agent
  pub defaults : Dict Value

abbrev pub keys : {V : Type 0} → Dict V → List String
keys [] = []
keys ((k, v) ∷ d) = k ∷ keys d

abbrev pub field_names : Fields → List String
field_names end = []
field_names (field (text k) v d) = k ∷ field_names d
field_names (field (number n) v d) = field_names d

-- `d.get("value", default)`
abbrev pub value_or : Value → Fields → Value
value_or default d = elim (find "value" d) [ some v ↦ v | none ↦ default ]

-- `defaults.get(key)`
abbrev pub or_none : Option Value → Value
or_none none = null
or_none (some v) = v

-- `for key in ["temperature", "max_tokens", "top_p"]`
abbrev pub params : List String
params = "temperature" ∷ "max_tokens" ∷ "top_p" ∷ []

-- what a layer gives for some keys, written over their values
unfoldable pub override_params : List String → (String → Option Fields) → Dict Value → Dict Value
override_params [] layer d = d
override_params (k ∷ ks) layer d =
    override_params ks layer
      (elim (layer k) [ none ↦ d | some v ↦ assign k (value_or (or_none (get k d)) v) d ])

unfoldable pub mark_params : List String → String → Dict Fields → Dict String → Dict String
mark_params [] source overrides d = d
mark_params (k ∷ ks) source overrides d =
    mark_params ks source overrides
      (if is_some (get k overrides) then assign ("defaults." ++ k) source d else d)

-- the user's parameters, in the order of the dict
unfoldable pub user_params : Dict Fields → Dict Value → Dict Value
unfolding mem
user_params [] d = d
user_params ((k, v) ∷ prefs) d = user_params prefs (
    if mem (last_part k) params
    then assign (last_part k) (value_or (or_none (get (last_part k) d)) v) d
    else d)

unfoldable pub mark_user_params : Dict Fields → Dict String → Dict String
unfolding mem
mark_user_params [] d = d
mark_user_params ((k, v) ∷ prefs) d =
    mark_user_params prefs
      (if mem (last_part k) params then assign ("defaults." ++ last_part k) "user" d else d)

-- `value not in disabled` for each model
unfoldable pub keep_models : (String → Option Bool) → List String → Option (List String)
keep_models test [] = some []
keep_models test (m ∷ ms) =
    let rest = keep_models test ms in
    test m >>= λ kept. rest >>= λ more. some (if kept then m ∷ more else more)

-- an override of a field of an agent
abbrev pub agent_field : String → Dict Fields → Value → Value
agent_field k overrides old = elim (get k overrides) [ none ↦ old | some v ↦ value_or old v ]

abbrev pub override_agent : Dict Fields → Agent → Agent
override_agent overrides a = record a {
  primary = agent_field "primary" overrides a.primary;
  fallback = agent_field "fallback" overrides a.fallback;
  allowed_tools = agent_field "allowed_tools" overrides a.allowed_tools;
  local_tool_providers = agent_field "local_tool_providers" overrides a.local_tool_providers;
  skills = agent_field "skills" overrides a.skills;
  subagents = agent_field "subagents" overrides a.subagents;
}

abbrev pub agent_fields : List String
agent_fields =
    "primary" ∷ "fallback" ∷ "allowed_tools" ∷ "local_tool_providers" ∷ "skills" ∷ "subagents" ∷ []

unfoldable pub mark_agent : List String → String → Dict Fields → Dict String → Dict String
mark_agent [] name overrides d = d
mark_agent (k ∷ ks) name overrides d =
    mark_agent ks name overrides
      (if is_some (get k overrides) then assign ("agents." ++ name ++ "." ++ k) "admin" d else d)

abbrev pub overrides_of : Option (Dict Fields) → Dict Fields
overrides_of none = []
overrides_of (some d) = d

unfoldable pub mark_agents : Dict Agent → Dict (Dict Fields) → Dict String → Dict String
unfolding mark_agent
mark_agents [] overrides d = d
mark_agents ((name, a) ∷ agents) overrides d =
    mark_agents agents overrides
      (mark_agent agent_fields name (overrides_of (get name overrides)) d)

-- the parameters: the file, `ResolvedAgentConfig`, Python's `==`, and `in` on texts
module _ (base : Config) (make_agent : Agent → Option Agent) (equal : Value → Value → Bool)
    (less : Value → Value → Option Bool) (is_part : String → String → Bool) (len : String → ℕ) where
  -- the loop over `agent_configs`
  unfoldable pub resolve_agents : Dict (Dict Fields) → Dict Agent → Option (Dict Agent)
  resolve_agents overrides [] = some []
  resolve_agents overrides ((name, a) ∷ agents) =
      let rest = resolve_agents overrides agents in
      make_agent (override_agent (overrides_of (get name overrides)) a) >>= λ made.
      rest >>= λ more. some ((name, made) ∷ more)

  -- the available models
  unfoldable pub resolve_models : Dict Fields → Option (List String)
  unfolding keep_models
  resolve_models overrides = elim (get "models" overrides) [
    | some models ↦ some (field_names models)
    | none ↦ elim (get "disabled_models" overrides) [
      | none ↦ some (keys base.models)
      | some d ↦
          keep_models (λ m. not_in less equal is_part len (str m) (value_or (list nil) d))
            (keys base.models)
    ]
  ]

  abbrev pub model_source : Dict Fields → Dict String
  model_source overrides =
      if is_some (get "models" overrides)
      then assign "available_models" "admin" []
      else if is_some (get "disabled_models" overrides)
      then assign "available_models" "admin" []
      else []

  -- the user's default model, if it is available
  abbrev pub chosen_model : List String → Option Fields → Option String
  chosen_model available none = none
  chosen_model available (some pref) = elim (find "value" pref) [
    | some (str m) ↦ if not (str_eq m "") && mem m available then some m else none
    | _ ↦ none
  ]

  abbrev pub put_model : Option String → Dict Value → Dict Value
  put_model none d = d
  put_model (some m) d = assign "default_model" (str m) d

  abbrev pub mark_model : Option String → Dict String → Dict String
  mark_model none d = d
  mark_model (some m) d = assign "defaults.default_model" "user" d

  -- the preferences of a user, if one is given
  abbrev pub apply_preferences : Option Preferences → Resolved → Resolved
  apply_preferences none r = r
  apply_preferences (some prefs) r =
      let model = chosen_model r.available_models (get "default_model" prefs.default_model_dict) in
      record r {
        defaults = user_params prefs.model_params_dict (put_model model r.defaults);
        sources = mark_user_params prefs.model_params_dict (mark_model model r.sources);
      }

  abbrev pub first_defaults : Dict Value
  first_defaults = ("temperature", float "0.7") ∷ ("max_tokens", int (pos 2048)) ∷ []

  -- the body of `get_resolved_config` without its cache; none stands for an exception
  unfoldable pub resolve : Overrides → Option Preferences → Option Resolved
  unfolding mem override_params mark_params user_params mark_user_params mark_agents resolve_agents
      resolve_models
  resolve o prefs = resolve_models o.global_dict >>= λ models.
      resolve_agents o.agent_dict base.agent_configs >>= λ agents. some (
        apply_preferences prefs (record {
          sources =
              mark_params params "admin" o.global_dict
                (mark_agents base.agent_configs o.agent_dict (model_source o.global_dict));
          available_models = models;
          agents = agents;
          defaults = override_params params (λ k. get k o.global_dict) first_defaults;
        }))

  abbrev pub keep_resolved :
      Bool → ℕ → Option Resolved → State Resolved → Option Resolved × State Resolved
  keep_resolved use_cache user none s = (none, s)
  keep_resolved use_cache user (some r) s = (
    some r,
    if use_cache
        then record s {
          resolved_cache = λ u.
              if u == user
              then set_cached s.up s.now r (s.resolved_cache u)
              else s.resolved_cache u;
        }
        else s,
  )

  abbrev pub resolve_user : Bool → ℕ → State Resolved → Option Resolved × State Resolved
  resolve_user use_cache user s =
      let (o, s') = load_admin_overrides s in
      keep_resolved use_cache user (resolve o (some (load_user_preferences user s.preferences))) s'

  -- `get_resolved_config`
  unfoldable pub get_resolved_config :
      Option ℕ → Bool → State Resolved → Option Resolved × State Resolved
  unfolding load_admin_overrides load_user_preferences resolve
  get_resolved_config none use_cache s =
      let (o, s') = load_admin_overrides s in (resolve o none, s')
  get_resolved_config (some user) use_cache s =
      elim (if use_cache then get_cached s.up s.now (s.resolved_cache user) else none) [
        | some cached ↦ (some cached, s)
        | none ↦ resolve_user use_cache user s
      ]
