-- ===== src/Settings/Users.antt =====
-- The preferences of the users, and what they may override (services/llm_config_service.py). Python's comparisons
-- of numbers and its equality of values are parameters; a comparison that raises gives none.
use Prim.Native.Char.{code}
use backend_template.Prelude.{
  ℕ, zero, suc, String, str_eq, Bool, true, false, not, ◌&&◌, ◌||◌, ◌==◌, Option, none, some, List,
  [], ◌∷◌, ◌++◌, if◌then◌else◌,
}
use backend_template.Prelude.Int.{pos}
use backend_template.Values.{
  text, number, Value, bool, int, float, str, list, tuple, dict, Items, nil, cons, Fields, end,
  field, find,
}
use backend_template.Settings.{
  PreferenceType, default_model, model_params, agent_params, same_type, Preference, Allowed,
  Preferences, State, invalidate_user_cache,
}
use backend_template.ParamPolicy.{assign}

-- why a call raises: `ConfigValidationError` with its constraint, or another exception
pub data ConfigError : Type 0 where
  not_allowed below_min above_max not_in_values too_long : ConfigError
  type_error multiple_rows redis_error integrity_error : ConfigError

-- the last part of `preference_key.split(".")`
unfoldable pub after_last_dot : String → String → String
after_last_dot part String.[] = part
after_last_dot part (String.◌∷◌ c s) = after_last_dot (if code c == 46 then s else part) s

abbrev pub last_part : String → String
last_part key = after_last_dot key key

-- `allowed_keys`: of the active rows, the last for a key
unfoldable pub allowed_constraints : String → List Allowed → Option (Option Fields)
allowed_constraints key [] = none
allowed_constraints key (a ∷ as') =
    let rest = allowed_constraints key as' in
    elim rest [
      | some constraints ↦ some constraints
      | none ↦ if a.is_active && str_eq a.config_key key then some a.constraints else none
    ]

-- `value.get("value", value)`
abbrev pub actual_value : Fields → Value
actual_value value = elim (find "value" value) [ some v ↦ v | none ↦ dict value ]

abbrev pub is_number : Value → Bool
is_number (bool b) = true
is_number (int n) = true
is_number (float x) = true
is_number _ = false

-- `constraints.get("type") == name`
abbrev pub has_type : String → Option Value → Bool
has_type name (some (str s)) = str_eq s name
has_type name _ = false

-- a test that may raise, and what it refuses
abbrev pub refuse_if : Option Bool → ConfigError → Option ConfigError → Option ConfigError
refuse_if none error rest = some type_error
refuse_if (some b) error rest = if b then some error else rest

unfoldable pub is_preference : ℕ → PreferenceType → String → Preference → Bool
is_preference user_id type key p =
    (p.user_id == user_id) && same_type p.preference_type type && str_eq p.preference_key key

unfoldable pub count_preferences : (Preference → Bool) → List Preference → ℕ
count_preferences test [] = 0
count_preferences test (p ∷ ps) =
    let rest = count_preferences test ps in if test p then suc rest else rest

unfoldable pub put_value : (Preference → Bool) → Fields → List Preference → List Preference
put_value test value [] = []
put_value test value (p ∷ ps) =
    let rest = put_value test value ps in
    if test p then record p { preference_value = value; is_active = true } ∷ ps else p ∷ rest

unfoldable pub remove_preference : (Preference → Bool) → List Preference → List Preference
remove_preference test [] = []
remove_preference test (p ∷ ps) =
    let rest = remove_preference test ps in if test p then ps else p ∷ rest

abbrev pub new_preference : ℕ → PreferenceType → String → Fields → Preference
new_preference user_id type key value = record {
  user_id = user_id;
  preference_type = type;
  preference_key = key;
  preference_value = value;
  is_active = true;
}

-- the rows after the upsert; none where `scalar_one_or_none` raises
abbrev pub upsert :
    ℕ → ℕ → PreferenceType → String → Fields → List Preference → Option (List Preference)
upsert zero user_id type key value rows = some (rows ++ new_preference user_id type key value ∷ [])
upsert (suc zero) user_id type key value rows =
    some (put_value (is_preference user_id type key) value rows)
upsert (suc (suc n)) user_id type key value rows = none

module _ {R : Type 0} where
  abbrev pub stored : ℕ → State R → Option (List Preference) → Option ConfigError × State R
  stored user_id s none = (some multiple_rows, s)
  stored user_id s (some rows) =
      (none, invalidate_user_cache user_id (record s { preferences = rows }))

-- Python's `<` on numbers, `==`, and the number of characters of a text
module _ (less : Value → Value → Option Bool) (equal : Value → Value → Bool)
    (is_part : String → String → Bool) (len : String → ℕ) where
  unfoldable pub is_item : Value → Items → Bool
  is_item v nil = false
  is_item v (cons w ws) = equal v w || is_item v ws

  unfoldable pub is_key_of : Value → Fields → Bool
  is_key_of v end = false
  is_key_of v (field (text k) w d) = equal v (str k) || is_key_of v d
  is_key_of v (field (number n) w d) = equal v (int n) || is_key_of v d

  -- `value not in container`
  unfoldable pub not_in : Value → Value → Option Bool
  unfolding is_item is_key_of
  not_in v (list ws) = some (not (is_item v ws))
  not_in v (tuple ws) = some (not (is_item v ws))
  not_in v (dict d) = some (not (is_key_of v d))
  not_in (str s) (str t) = some (not (is_part s t))
  not_in v w = none

  -- a test that is made if the constraint is given
  abbrev pub if_given :
      Option Value → (Value → Option Bool) → ConfigError → Option ConfigError → Option ConfigError
  if_given none test error rest = rest
  if_given (some limit) test error rest = refuse_if (test limit) error rest

  abbrev pub check_number : Fields → Value → Option ConfigError → Option ConfigError
  check_number c v rest =
      if has_type "number" (find "type" c) && is_number v
      then if_given (find "min" c) (less v) below_min
          (if_given (find "max" c) (λ limit. less limit v) above_max rest)
      else rest

  abbrev pub check_text : Fields → Value → Option ConfigError → Option ConfigError
  check_text c (str s) rest =
      if has_type "string" (find "type" c)
      then if_given (find "allowed_values" c) (not_in (str s)) not_in_values
          (if_given (find "max_length" c) (λ limit. less limit (int (pos (len s)))) too_long rest)
      else rest
  check_text c v rest = rest

  abbrev pub check_select : Fields → Value → Option ConfigError
  check_select c v =
      if has_type "select" (find "type" c)
      then if_given (find "allowed_values" c) (not_in v) not_in_values none
      else none

  abbrev pub check_constraints : Option (Option Fields) → Fields → Option ConfigError
  check_constraints none value = some not_allowed
  check_constraints (some none) value = none
  check_constraints (some (some end)) value = none
  check_constraints (some (some (field k w c))) value =
      let v = actual_value value in
      let constraints = field k w c in
      check_number constraints v (check_text constraints v (check_select constraints v))

  -- `_validate_user_preference`: none where nothing is raised
  unfoldable pub validate_user_preference : String → Fields → List Allowed → Option ConfigError
  unfolding allowed_constraints not_in
  validate_user_preference config_key value allowed =
      check_constraints (allowed_constraints config_key allowed) value

  module _ {R : Type 0} where
    -- `create_user_preference`, with what it raises
    unfoldable pub create_user_preference :
        ℕ → PreferenceType → String → Fields → State R → Option ConfigError × State R
    unfolding is_preference count_preferences put_value after_last_dot validate_user_preference
    create_user_preference user_id type key value s =
        elim (validate_user_preference (last_part key) value s.allowed) [
          | some error ↦ (some error, s)
          | none ↦ stored user_id s (
              upsert (count_preferences (is_preference user_id type key) s.preferences) user_id type
                key value s.preferences)
        ]

unfoldable pub is_users_key : ℕ → String → Preference → Bool
is_users_key user_id key p = (p.user_id == user_id) && str_eq p.preference_key key

unfoldable pub has_allowed : String → List Allowed → Bool
has_allowed key [] = false
has_allowed key (a ∷ as') = str_eq a.config_key key || has_allowed key as'

module _ {R : Type 0} where
  abbrev pub deleted : ℕ → String → State R → ℕ → Option Bool × State R
  deleted user_id key s zero = (some false, s)
  deleted user_id key s (suc zero) = (
    some true,
    invalidate_user_cache user_id
        (record s { preferences = remove_preference (is_users_key user_id key) s.preferences }),
  )
  deleted user_id key s (suc (suc n)) = (none, s)

  -- `delete_user_preference`, of any type; none stands for MultipleResultsFound
  unfoldable pub delete_user_preference : ℕ → String → State R → Option Bool × State R
  unfolding is_users_key count_preferences remove_preference
  delete_user_preference user_id key s =
      deleted user_id key s (count_preferences (is_users_key user_id key) s.preferences)

  -- `create_allowed_override`; its deletion of a key of Redis is not guarded, and no operation reads that key
  unfoldable pub create_allowed_override :
      String → Option Fields → State R → Option ConfigError × State R
  unfolding has_allowed
  create_allowed_override key constraints s =
      if has_allowed key s.allowed then (some integrity_error, s) else (
        if s.up then none else some redis_error,
        record s {
          allowed =
              s.allowed
              ++ record { config_key = key; constraints = constraints; is_active = true } ∷ [];
        },
      )

abbrev pub add_preference_to : PreferenceType → Preference → Preferences → Preferences
add_preference_to default_model p r = record r {
  default_model_dict = assign p.preference_key p.preference_value r.default_model_dict;
}
add_preference_to model_params p r = record r {
  model_params_dict = assign p.preference_key p.preference_value r.model_params_dict;
}
add_preference_to agent_params p r = record r {
  agent_params_dict = assign p.preference_key p.preference_value r.agent_params_dict;
}

-- the loop of `_load_user_preferences_dict`, over the active rows of the user
unfoldable pub add_preferences : ℕ → List Preference → Preferences → Preferences
add_preferences user_id [] r = r
add_preferences user_id (p ∷ ps) r =
    add_preferences user_id ps
      (if (p.user_id == user_id) && p.is_active then add_preference_to p.preference_type p r else r)

-- `_load_user_preferences_dict`
unfoldable pub load_user_preferences : ℕ → List Preference → Preferences
unfolding add_preferences
load_user_preferences user_id rows =
    add_preferences user_id rows
      (record { default_model_dict = []; model_params_dict = []; agent_params_dict = [] })
