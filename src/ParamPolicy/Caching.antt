-- ===== src/ParamPolicy/Caching.antt =====
-- Overrides of a model's policy, resolved at the first use (llm/param_policy.py).
use backend_template.Prelude.{
  String, ◌≡◌, ◌≢◌, Option, none, some, List, [], str_eq, eq_iff, arith, if◌then◌else◌,
}
use backend_template.ParamPolicy.{get, assign, Policy, Override, merge_policy, normalize}
use backend_template.ParamPolicy.Targets.{get-assign}
use backend_template.ParamPolicy.Providers.{ModelProvider}

-- an entry of `_EFFECTIVE_MODEL_POLICIES`: the override with the provider that it names, or the
-- policy made of it
pub data ModelEntry : Type 0 where
  raw_override : Option ModelProvider → Override → ModelEntry
  resolved : Policy → ModelEntry

-- the module's state, after the overrides are loaded
pub record Loaded : Type 0 where
  pub policies : ModelProvider → Policy
  pub models : List (String × ModelEntry)

abbrev pub or_default : Option ModelProvider → ModelProvider → ModelProvider
or_default none p = p
or_default (some q) p = q

abbrev pub resolve_entry : String → ModelProvider → Loaded → Option ModelEntry → Policy × Loaded
resolve_entry model_name provider s none = (s.policies provider, s)
resolve_entry model_name provider s (some (resolved existing)) = (existing, s)
resolve_entry model_name provider s (some (raw_override override_provider override)) =
    let effective = merge_policy (s.policies (or_default override_provider provider)) override in
    (effective, record s { models = assign model_name (resolved effective) s.models })

-- `_resolve_model_policy`
unfoldable pub resolve_model_policy : String → ModelProvider → Loaded → Policy × Loaded
unfolding get
resolve_model_policy model_name provider s =
    resolve_entry model_name provider s (get model_name s.models)

-- `get_effective_policy`
unfoldable pub get_effective_policy : ModelProvider → Option String → Loaded → Policy × Loaded
unfolding resolve_model_policy
get_effective_policy provider none s = (s.policies provider, s)
get_effective_policy provider (some model_name) s =
    if str_eq model_name ""
    then (s.policies provider, s)
    else resolve_model_policy model_name provider s

-- `normalize_params`; every `ModelProvider` has a policy, so its ValueError is not reached
unfoldable pub normalize_params :
    {V : Type 0} (global_prefixes : List String)
    → ModelProvider
    → List (String × Option V)
    → Option String
    → Loaded
    → List (String × V) × Loaded
normalize_params global_prefixes provider raw_params model_name s =
    let (policy, s') = get_effective_policy provider model_name s in
    (normalize policy global_prefixes raw_params [], s')

-- A model that has an override, under a name that is not empty, keeps the policy of its first
-- resolution: a later call gets that one, for whatever provider it asks, also where the override
-- names none.
get_effective_policy_again :
    (model_name : String) (provider other : ModelProvider) (s : Loaded) (entry : ModelEntry)
    → model_name ≢ ""
    → get model_name s.models ≡ some entry
    → let (first, s') = get_effective_policy provider (some model_name) s in
      get_effective_policy other (some model_name) s' ≡ (first, s')
get_effective_policy_again model_name provider other s (resolved existing) filled e =
    unfold get_effective_policy in ground (arith, eq_iff model_name "")
get_effective_policy_again model_name provider other s (raw_override q override) filled e =
    unfold get_effective_policy in
    ground (
      arith,
      eq_iff model_name "",
      eq_iff model_name model_name,
      get-assign model_name model_name
          (resolved (merge_policy (s.policies (or_default q provider)) override)) s.models,
    )
