-- ===== src/Tests/Assistants.antt =====
-- Two users with instances, one of them with two that ask to be the default.
use backend_template.Prelude.{
  String, ℕ, ◌≤◌, ◌≡◌, true, false, Option, none, some, List, [], ◌∷◌, refl,
}
use backend_template.Instances.{
  Instance, Answer, ok, Resolved, Limits, NewInstance, Changes, get_default_instance,
  create_instance, update_instance, delete_instance,
}
use backend_template.Instances.Histories.{Call, create, update, calls, calls-defaults}
use backend_template.Instances.Defaults.{defaults}
use backend_template.Instances.Owners.{others, others-calls}

abbrev resolve : String → Resolved
resolve user_id = record { agents = ("assistant", true) ∷ []; available_models = "gpt" ∷ [] }

abbrev limits : Limits
limits = record { system_prompt_override = none; system_prompt_append = none }

abbrev len : String → ℕ
len s = 0

abbrev new : String → NewInstance
new name = record {
  instance_name = name;
  display_name = name;
  base_agent_name = "assistant";
  description = none;
  primary_model = some "gpt";
  system_prompt_override = none;
  system_prompt_append = none;
  config_overrides = none;
  skills = none;
  is_default = true;
  is_deepagent = false;
  subagent_ids = [];
}

abbrev changes : Changes
changes = record {
  display_name = none;
  base_agent_name = none;
  description = none;
  primary_model = none;
  system_prompt_override = none;
  system_prompt_append = none;
  config_overrides = none;
  skills = none;
  is_default = some true;
  is_deepagent = none;
  is_active = none;
  subagent_ids = none;
}

abbrev history : List Call
history =
    create "1" "ann" (new "first")
    ∷ create "2" "ann" (new "second")
    ∷ create "3" "bob" (new "first")
    ∷ update "ann" "1" changes
    ∷ []

both_kept : defaults "ann" (calls len limits resolve history []) ≡ 1
unfolding defaults calls create_instance update_instance
    backend_template.Instances.get_instance_by_name backend_template.Instances.get_instance
    backend_template.Instances.select backend_template.Instances.clear_user_defaults
    backend_template.Instances.put_row backend_template.Instances.changed
    backend_template.ParamPolicy.get backend_template.ParamPolicy.mem
    backend_template.Instances.Overrides.normalize_and_validate
both_kept = refl

calls-defaults_example :
    (defaults "ann" (calls len limits resolve history []) ≤ 1)
    × ((r : Option Instance) × (get_default_instance "ann" (calls len limits resolve history [])
          ≡ ok r))
calls-defaults_example = calls-defaults len limits resolve history "ann"

abbrev table : List Instance
table = calls len limits resolve history []

others-calls_example :
    (others "ann" (create_instance len limits resolve "4" "ann" (new "third") table).1
      ≡ others "ann" table)
    × (others "ann" (update_instance len limits resolve "ann" "4" changes table).1
        ≡ others "ann" table)
    × (others "ann" (delete_instance "ann" "4" table).1 ≡ others "ann" table)
others-calls_example = others-calls len limits resolve "ann" "4" (new "third") changes table
