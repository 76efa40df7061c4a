-- ===== src/Tests/Settings.antt =====
-- A service with one model, two overrides for all calls, and the preferences of one user.
use backend_template.Prelude.{
  ℕ, ◌+◌, ◌≤◌, ◌<◌, String, str_eq, ◌≡◌, refl, Bool, true, false, Option, none, some, List, [], ◌∷◌,
  if◌then◌else◌,
}
use backend_template.Prelude.Int.{pos}
use backend_template.Values.{text, Value, int, float, Fields, end, field}
use backend_template.Settings.{
  global, model_params, Override, Overrides, Preferences, current, overrides_at,
}
use backend_template.Settings.Users.{
  create_user_preference, load_user_preferences, validate_user_preference, last_part,
}
use backend_template.Settings.Resolving.{
  Agent, Config, Model, params, overrides_of, resolve, get_resolved_config,
}
use backend_template.Settings.ModelParams.{own_key, model_defaults, effective}
use backend_template.Settings.Layers.{over, effective-layers}
use backend_template.Settings.Priorities.{lowest, overrides_at-lowest}
use backend_template.Settings.Calls.{
  Call, create_override, create_preference, create_allowed, get_resolved, wait, calls, empty,
  calls-recent,
}
use backend_template.Settings.Upserts.{IsOutcome, create_user_preference_lem}
use backend_template.ParamPolicy.{mem, get}

abbrev wrapped : ℕ → Fields
wrapped n = field (text "value") (int (pos n)) end

abbrev gpt : Model
gpt = record { temperature = float "0.7"; max_tokens = int (pos 100) }

abbrev base : Config
base = record { models = ("gpt", gpt) ∷ []; agent_configs = [] }

abbrev make_agent : Agent → Option Agent
make_agent a = some a

abbrev equal : Value → Value → Bool
equal v w = false

abbrev less : Value → Value → Option Bool
less v w = some false

abbrev is_part : String → String → Bool
is_part s t = str_eq s t

abbrev len : String → ℕ
len s = 1

abbrev history : List Call
history =
    create_allowed "temperature" none
    ∷ create_override global "temperature" (wrapped 1) none (pos 5) (some 90)
    ∷ create_override global "temperature" (wrapped 2) none (pos 3) none
    ∷ get_resolved (some 7) true
    ∷ create_preference 7 model_params "gpt.temperature" (wrapped 3)
    ∷ get_resolved (some 7) true
    ∷ wait 30
    ∷ []

calls-recent_example :
    let s = calls base make_agent equal less is_part len history empty in
    (t : ℕ) × ((get_resolved_config base make_agent equal less is_part len (some 7) true s).0
      ≡ resolve base make_agent equal less is_part len
          (overrides_at t s.overrides)
          (some (load_user_preferences 7 s.preferences)))
    × (t ≤ s.now)
    × (s.now < t + 120)
calls-recent_example = calls-recent base make_agent equal less is_part len history 7 true

create_user_preference_lem_example :
    let s = calls base make_agent equal less is_part len history empty in
    IsOutcome 7 model_params "gpt.temperature"
      (wrapped 4)
      s
      (create_user_preference less equal is_part len 7 model_params "gpt.temperature" (wrapped 4) s)
      (validate_user_preference less equal is_part len
        (last_part "gpt.temperature")
        (wrapped 4)
        s.allowed)
create_user_preference_lem_example =
    create_user_preference_lem base make_agent equal less is_part len history 7 model_params
      "gpt.temperature" (wrapped 4)

abbrev rows : List Override
rows = (calls base make_agent equal less is_part len history empty).overrides

overrides_at-lowest_example :
    get "temperature" (overrides_at 30 rows).global_dict
    ≡ elim (lowest "temperature" (current 30 rows)) as (λ x. Option Fields) [
      | none ↦ none
      | some o ↦ some o.config_value
    ]
overrides_at-lowest_example = overrides_at-lowest 30 rows "temperature"

abbrev admins : Overrides
admins = record {
  global_dict = [];
  model_dict = ("gpt", ("max_tokens", wrapped 50) ∷ []) ∷ [];
  agent_dict = [];
}

abbrev prefs : Preferences
prefs = record {
  default_model_dict = [];
  model_params_dict = ("gpt.max_tokens", wrapped 10) ∷ ("max_tokens", wrapped 20) ∷ [];
  agent_params_dict = [];
}

is_param : mem "max_tokens" params ≡ true
unfolding mem
is_param = refl

effective-layers_example :
    let below =
      over
        (get "max_tokens" (overrides_of (get "gpt" admins.model_dict)))
        (get "max_tokens" (model_defaults gpt)) in
    get "max_tokens" (effective gpt "gpt" admins (some prefs))
    ≡ elim (get (own_key "gpt" "max_tokens") prefs.model_params_dict) as (λ x. Option Value) [
      | some own ↦ if str_eq "temperature" "max_tokens" then over (some own) below else below
      | none ↦ over (get "max_tokens" prefs.model_params_dict) below
    ]
effective-layers_example = effective-layers gpt "gpt" admins prefs "max_tokens" is_param
