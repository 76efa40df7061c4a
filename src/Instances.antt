-- ===== src/Instances.antt =====
-- inference_core/services/user_agent_instance_service.py: the agent instances of the users. The table is the list of
-- its rows; a call returns its answer and the table after it, and a call that raises leaves the table as it was, since
-- nothing is committed. The resolved configuration, new identifiers and `len` are parameters.
pub mod Overrides
pub mod Rows
pub mod Defaults
pub mod Histories
pub mod Owners
use backend_template.Prelude.{
  String, ℕ, Bool, true, false, not, ◌&&◌, ◌||◌, ◌==◌, ltb, Option, none, some, List, [], ◌∷◌, ◌++◌,
  map, length, str_eq, if◌then◌else◌,
}
use backend_template.ParamPolicy.{mem, get, is_some}
use backend_template.Values.{Value}
use backend_template.Instances.Overrides.{ConfigOverrides, normalize_and_validate}

-- `UserAgentInstance`; subagents by their identifiers
pub record Instance : Type 0 where
  pub id : String
  pub user_id : String
  pub instance_name : String
  pub display_name : String
  pub base_agent_name : String
  pub description : Option String
  pub primary_model : Option String
  pub system_prompt_override : Option String
  pub system_prompt_append : Option String
  pub config_overrides : Option ConfigOverrides
  pub skills : Option (List (List (String × String)))
  pub is_default : Bool
  pub is_deepagent : Bool
  pub is_active : Bool
  pub subagents : List String

-- The resolved configuration: the agents with `user_selectable`, and the models.
pub record Resolved : Type 0 where
  pub agents : List (String × Bool)
  pub available_models : List String

-- The limits on prompts.
pub record Limits : Type 0 where
  pub system_prompt_override : Option ℕ
  pub system_prompt_append : Option ℕ

-- The answer of a call: ValueError, or MultipleResultsFound of a query for one row.
pub data Answer (A : Type 0) : Type 0 where
  ok : A → Answer A
  value_error : Answer A
  multiple_results : Answer A

-- the arguments of `create_instance`
pub record NewInstance : Type 0 where
  pub instance_name : String
  pub display_name : String
  pub base_agent_name : String
  pub description : Option String
  pub primary_model : Option String
  pub system_prompt_override : Option String
  pub system_prompt_append : Option String
  pub config_overrides : Option ConfigOverrides
  pub skills : Option (List (List (String × String)))
  pub is_default : Bool
  pub is_deepagent : Bool
  pub subagent_ids : List String

-- The updates of `update_instance`: none stands for a key that is missing or None, which only `is_deepagent` tells
-- apart.
pub record Changes : Type 0 where
  pub display_name : Option String
  pub base_agent_name : Option String
  pub description : Option String
  pub primary_model : Option String
  pub system_prompt_override : Option String
  pub system_prompt_append : Option String
  pub config_overrides : Option ConfigOverrides
  pub skills : Option (List (List (String × String)))
  pub is_default : Option Bool
  pub is_deepagent : Option (Option Bool)
  pub is_active : Option Bool
  pub subagent_ids : Option (List String)

-- `validate_agent_prompt_length`: whether it raises
abbrev pub is_too_long : (String → ℕ) → Option ℕ → Option String → Bool
is_too_long len limit none = false
is_too_long len none (some value) = false
is_too_long len (some max_length) (some value) = ltb max_length (len value)

unfoldable pub select : (Instance → Bool) → List Instance → List Instance
select test [] = []
select test (row ∷ rows) = let rest = select test rows in if test row then row ∷ rest else rest

-- `scalar_one_or_none`
abbrev pub one_or_none : List Instance → Answer (Option Instance)
one_or_none [] = ok none
one_or_none (row ∷ []) = ok (some row)
one_or_none (row ∷ other ∷ rows) = multiple_results

abbrev pub is_instance : String → String → Instance → Bool
is_instance user_id instance_id row = str_eq row.id instance_id && str_eq row.user_id user_id

abbrev pub is_named : String → String → Instance → Bool
is_named user_id instance_name row =
    str_eq row.instance_name instance_name && str_eq row.user_id user_id

abbrev pub is_active_default : String → Instance → Bool
is_active_default user_id row = str_eq row.user_id user_id && row.is_default && row.is_active

unfoldable pub get_instance : String → String → List Instance → Answer (Option Instance)
get_instance user_id instance_id rows = one_or_none (select (is_instance user_id instance_id) rows)

unfoldable pub get_instance_by_name : String → String → List Instance → Answer (Option Instance)
get_instance_by_name user_id instance_name rows =
    one_or_none (select (is_named user_id instance_name) rows)

unfoldable pub get_default_instance : String → List Instance → Answer (Option Instance)
get_default_instance user_id rows = one_or_none (select (is_active_default user_id) rows)

-- `_clear_user_defaults`
unfoldable pub clear_user_defaults : String → List Instance → List Instance
clear_user_defaults user_id [] = []
clear_user_defaults user_id (row ∷ rows) =
    (if str_eq row.user_id user_id && row.is_default
      then record row { is_default = false }
      else row)
    ∷ clear_user_defaults user_id rows

-- the row of the instance is written
unfoldable pub put_row : String → String → Instance → List Instance → List Instance
put_row user_id instance_id new [] = []
put_row user_id instance_id new (row ∷ rows) =
    let rest = put_row user_id instance_id new rows in
    if is_instance user_id instance_id row then new ∷ rows else row ∷ rest

-- or deleted. The identifiers in the subagents of other rows stay: the association rows that go with a deleted row
-- are not modelled.
unfoldable pub delete_row : String → String → List Instance → List Instance
delete_row user_id instance_id [] = []
delete_row user_id instance_id (row ∷ rows) =
    let rest = delete_row user_id instance_id rows in
    if is_instance user_id instance_id row then rows else row ∷ rest

-- The subagents with the identifiers that belong to the user, if these are as many.
abbrev pub ids_of : List Instance → List String
ids_of [] = []
ids_of (row ∷ rows) = row.id ∷ ids_of rows

unfoldable pub find_subagents : String → List String → List Instance → Option (List String)
find_subagents user_id ids rows =
    let found = select (λ row. mem row.id ids && str_eq row.user_id user_id) rows in
    if length found == length ids then some (ids_of found) else none

-- the tests on the base agent and the primary model: whether they pass
abbrev pub is_selectable : Resolved → String → Bool
is_selectable resolved name = elim (get name resolved.agents) [
  | none ↦ false
  | some selectable ↦ selectable
]

abbrev pub is_known_model : Resolved → String → Bool
is_known_model resolved model = mem model resolved.available_models

abbrev pub prompts_too_long : (String → ℕ) → Limits → Option String → Option String → Bool
prompts_too_long len limits override append =
    is_too_long len limits.system_prompt_override override
    || is_too_long len limits.system_prompt_append append

-- `if primary_model and primary_model not in available_models`
abbrev pub is_bad_model : Resolved → Option String → Bool
is_bad_model resolved none = false
is_bad_model resolved (some model) = not (str_eq model "") && not (is_known_model resolved model)

-- the tests of `create_instance` before the query for the name
abbrev pub is_rejected : (String → ℕ) → Limits → Resolved → NewInstance → Bool
is_rejected len limits resolved new =
    prompts_too_long len limits new.system_prompt_override new.system_prompt_append
    || not (is_selectable resolved new.base_agent_name)
    || is_bad_model resolved new.primary_model

-- the subagents of a new instance
abbrev pub new_subagents : String → NewInstance → List Instance → Option (List String)
new_subagents user_id new rows =
    if new.is_deepagent && not (length new.subagent_ids == 0)
    then find_subagents user_id new.subagent_ids rows
    else some []

abbrev pub built : String → String → NewInstance → Option ConfigOverrides → List String → Instance
built id user_id new config_overrides subagents = record {
  id = id;
  user_id = user_id;
  instance_name = new.instance_name;
  display_name = new.display_name;
  base_agent_name = new.base_agent_name;
  description = new.description;
  primary_model = new.primary_model;
  system_prompt_override = new.system_prompt_override;
  system_prompt_append = new.system_prompt_append;
  config_overrides = config_overrides;
  skills = new.skills;
  is_default = new.is_default;
  is_deepagent = new.is_deepagent;
  is_active = true;
  subagents = subagents;
}

-- the end of `create_instance`, from the query for the name
abbrev pub insert_new :
    String
    → String
    → NewInstance
    → Option ConfigOverrides
    → List Instance
    → Answer Instance × List Instance
insert_new id user_id new config_overrides rows =
    elim (get_instance_by_name user_id new.instance_name rows) [
      | multiple_results ↦ (multiple_results, rows)
      | value_error ↦ (value_error, rows)
      | ok (some existing) ↦ (value_error, rows)
      | ok none ↦ elim (new_subagents user_id new rows) [
        | none ↦ (value_error, rows)
        | some subagents ↦
            let instance = built id user_id new config_overrides subagents in
            let cleared = if new.is_default then clear_user_defaults user_id rows else rows in
            (ok instance, cleared ++ (instance ∷ []))
      ]
    ]

-- the tests of `update_instance` on the models and the base agent
abbrev pub fails : (String → Bool) → Option String → Bool
fails test none = false
fails test (some s) = not (test s)

abbrev pub is_rejected_update : Resolved → Changes → Bool
is_rejected_update resolved changes =
    fails (is_known_model resolved) changes.primary_model
    || fails (is_selectable resolved) changes.base_agent_name

-- the subagents after the update: an empty list changes nothing
abbrev pub is_deep : Changes → Instance → Bool
is_deep changes instance = elim changes.is_deepagent [
  | none ↦ instance.is_deepagent
  | some none ↦ false
  | some (some b) ↦ b
]

abbrev pub changed_subagents : String → Changes → Instance → List Instance → Option (List String)
changed_subagents user_id changes instance rows = elim changes.subagent_ids [
  | none ↦ some instance.subagents
  | some [] ↦ some instance.subagents
  | some (id ∷ ids) ↦
      if is_deep changes instance then find_subagents user_id (id ∷ ids) rows else none
]

abbrev pub set : {A : Type 0} → Option A → A → A
set none old = old
set (some new) old = new

abbrev pub set_some : {A : Type 0} → Option A → Option A → Option A
set_some none old = old
set_some (some new) old = some new

abbrev pub set_deep : Option (Option Bool) → Bool → Bool
set_deep none old = old
set_deep (some none) old = old
set_deep (some (some b)) old = b

-- the loop over the updates, after which the subagents are assigned
unfoldable pub changed : Changes → Option ConfigOverrides → List String → Instance → Instance
changed changes config_overrides subagents instance = record {
  id = instance.id;
  user_id = instance.user_id;
  instance_name = instance.instance_name;
  display_name = set changes.display_name instance.display_name;
  base_agent_name = set changes.base_agent_name instance.base_agent_name;
  description = set_some changes.description instance.description;
  primary_model = set_some changes.primary_model instance.primary_model;
  system_prompt_override = set_some changes.system_prompt_override instance.system_prompt_override;
  system_prompt_append = set_some changes.system_prompt_append instance.system_prompt_append;
  config_overrides = set_some config_overrides instance.config_overrides;
  skills = set_some changes.skills instance.skills;
  is_default = set changes.is_default instance.is_default;
  is_deepagent = set_deep changes.is_deepagent instance.is_deepagent;
  is_active = set changes.is_active instance.is_active;
  subagents = subagents;
}

-- `updates.get("is_default") is True and not instance.is_default`
abbrev pub takes_default : Changes → Instance → Bool
takes_default changes instance = elim changes.is_default [
  | none ↦ false
  | some b ↦ b && not instance.is_default
]

-- the end of `update_instance`, from the default flag
abbrev pub write_changes :
    String
    → String
    → Changes
    → Option ConfigOverrides
    → Instance
    → List Instance
    → Answer (Option Instance) × List Instance
write_changes user_id instance_id changes config_overrides instance rows =
    elim (changed_subagents user_id changes instance rows) [
      | none ↦ (value_error, rows)
      | some subagents ↦
          let new = changed changes config_overrides subagents instance in
          let cleared =
            if takes_default changes instance then clear_user_defaults user_id rows else rows in
          (ok (some new), put_row user_id instance_id new cleared)
    ]

module _ (len : String → ℕ) (limits : Limits) (resolve : String → Resolved) where
  unfoldable pub create_instance :
      String → String → NewInstance → List Instance → Answer Instance × List Instance
  create_instance id user_id new rows =
      let resolved = resolve user_id in
      if is_rejected len limits resolved new
      then (value_error, rows)
      else elim (normalize_and_validate resolved.available_models new.config_overrides) [
        | none ↦ (value_error, rows)
        | some config_overrides ↦ insert_new id user_id new config_overrides rows
      ]

  unfoldable pub update_instance :
      String → String → Changes → List Instance → Answer (Option Instance) × List Instance
  update_instance user_id instance_id changes rows =
      if prompts_too_long len limits changes.system_prompt_override changes.system_prompt_append
      then (value_error, rows)
      else elim (get_instance user_id instance_id rows) [
        | multiple_results ↦ (multiple_results, rows)
        | value_error ↦ (value_error, rows)
        | ok none ↦ (ok none, rows)
        | ok (some instance) ↦
            if is_rejected_update (resolve user_id) changes
            then (value_error, rows)
            else elim (normalize_and_validate (resolve user_id).available_models
                changes.config_overrides) [
                  | none ↦ (value_error, rows)
                  | some config_overrides ↦
                      write_changes user_id instance_id changes config_overrides instance rows
                ]
      ]

unfoldable pub delete_instance : String → String → List Instance → Answer Bool × List Instance
delete_instance user_id instance_id rows = elim (get_instance user_id instance_id rows) [
  | multiple_results ↦ (multiple_results, rows)
  | value_error ↦ (value_error, rows)
  | ok none ↦ (ok false, rows)
  | ok (some instance) ↦ (ok true, delete_row user_id instance_id rows)
]
