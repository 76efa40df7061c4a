-- ===== src/Instances/Overrides.antt =====
-- `_normalize_and_validate_config_overrides` (services/user_agent_instance_service.py).
use backend_template.Prelude.{
  String, Bool, true, false, ◌&&◌, ◌||◌, Option, none, some, List, [], ◌∷◌, str_eq, if◌then◌else◌,
}
use backend_template.Values.{
  Value, null, bool, str, list, dict, Items, nil, cons, Fields, find, is_truthy,
}
use backend_template.ParamPolicy.{mem, get, assign, is_some}
use backend_template.Middleware.FallbackNames.{canonicalize_fallback_overrides}

abbrev pub ConfigOverrides : Type 0
ConfigOverrides = List (String × Value)

-- the test on a key that must have a value of some kind if it is there
abbrev pub holds : (Value → Bool) → Option Value → Bool
holds test none = true
holds test (some v) = test v

abbrev pub is_bool : Value → Bool
is_bool (bool b) = true
is_bool _ = false

abbrev pub is_scope : Value → Bool
is_scope (str s) = str_eq s "shared" || str_eq s "dedicated"
is_scope _ = false

abbrev pub has_any : List String → Fields → Bool
has_any [] d = false
has_any (key ∷ keys) d = is_some (find key d) || has_any keys d

abbrev pub schema_keys : List String
schema_keys = "type" ∷ "$ref" ∷ "oneOf" ∷ "anyOf" ∷ "allOf" ∷ []

-- None, or a non-empty dict with one of the keys
abbrev pub is_schema : Value → Bool
is_schema null = true
is_schema (dict d) = is_truthy (dict d) && has_any schema_keys d
is_schema _ = false

-- a list of model names that are available
unfoldable pub are_models : List String → Items → Bool
are_models available nil = true
are_models available (cons (str model) models) = mem model available && are_models available models
are_models available (cons _ models) = false

abbrev pub is_fallback : List String → Value → Bool
is_fallback available (list models) = are_models available models
is_fallback available _ = false

-- the tests on "fallback", where None is replaced with an empty list
unfoldable pub validate_fallback : List String → ConfigOverrides → Option ConfigOverrides
validate_fallback available normalized = elim (get "fallback" normalized) [
  | none ↦ some normalized
  | some null ↦ some (assign "fallback_models" (list nil) (assign "fallback" (list nil) normalized))
  | some fallback ↦ if is_fallback available fallback then some normalized else none
]

-- the whole, with none for ValueError
unfoldable pub normalize_and_validate :
    List String → Option ConfigOverrides → Option (Option ConfigOverrides)
normalize_and_validate available none = some none
normalize_and_validate available (some config_overrides) =
    let normalized = canonicalize_fallback_overrides (some config_overrides) true in
    if holds is_bool (get "memory_access_enabled" normalized)
      && holds is_scope (get "memory_scope" normalized)
      && holds is_schema (get "response_format" normalized)
    then elim (validate_fallback available normalized) [
      | none ↦ none
      | some valid ↦ some (some valid)
    ]
    else none
