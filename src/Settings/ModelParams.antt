-- ===== src/Settings/ModelParams.antt =====
-- `get_effective_model_params` of services/llm_config_service.py: the parameters of one model's calls.
use backend_template.Prelude.{ℕ, String, Option, none, some, [], ◌∷◌}
use Prim.Native.String.{◌++◌}
use backend_template.Values.{Value, Fields}
use backend_template.Settings.{Dict, Overrides, Preferences, State, load_admin_overrides}
use backend_template.Settings.Users.{load_user_preferences}
use backend_template.Settings.Resolving.{
  Model, Config, Resolved, params, overrides_of, override_params,
}
use backend_template.ParamPolicy.{get}

abbrev pub own_key : String → String → String
own_key model_name key = model_name ++ "." ++ key

-- "Model-specific user params", which are read for the temperature alone
abbrev pub own_temperature : String → Dict Fields → String → Option Fields
own_temperature model_name prefs key = get (own_key model_name "temperature") prefs

-- "Global user params": not where there is a preference for this model
abbrev pub shared_param : String → Dict Fields → String → Option Fields
shared_param model_name prefs key = elim (get key prefs) [
  | none ↦ none
  | some v ↦ elim (get (own_key model_name key) prefs) [ none ↦ some v | some w ↦ none ]
]

abbrev pub user_layer : String → Option Preferences → Dict Value → Dict Value
user_layer model_name none d = d
user_layer model_name (some prefs) d =
    override_params params (shared_param model_name prefs.model_params_dict)
      (override_params ("temperature" ∷ []) (own_temperature model_name prefs.model_params_dict) d)

abbrev pub model_defaults : Model → Dict Value
model_defaults m = ("temperature", m.temperature) ∷ ("max_tokens", m.max_tokens) ∷ []

-- the layers for a model that is configured
unfoldable pub effective : Model → String → Overrides → Option Preferences → Dict Value
unfolding override_params
effective m model_name o prefs = user_layer model_name prefs (
    override_params params (λ k. get k (overrides_of (get model_name o.model_dict)))
      (model_defaults m))

abbrev pub preferences_of : Option ℕ → State Resolved → Option Preferences
preferences_of none s = none
preferences_of (some user) s = some (load_user_preferences user s.preferences)

-- `get_effective_model_params`
unfoldable pub get_effective_model_params :
    Config → Option ℕ → String → State Resolved → Dict Value × State Resolved
unfolding load_admin_overrides load_user_preferences effective
get_effective_model_params base user model_name s = elim (get model_name base.models) [
  | none ↦ ([], s)
  | some m ↦
      let (o, s') = load_admin_overrides s in (effective m model_name o (preferences_of user s), s')
]
