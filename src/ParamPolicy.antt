-- ===== src/ParamPolicy.antt =====
-- inference_core/llm/param_policy.py: which parameters of a model call reach the provider. A set is the
-- list of its members, a dict the list of its entries, and `V` the type of the values.
pub mod Targets
pub mod Providers
pub mod Caching
use Prim.Native.String
use Prim.Native.Char.{code}
use backend_template.Prelude.{
  String, Bool, true, false, ◌&&◌, ◌||◌, ◌==◌, not, Option, none, some, List, [], ◌∷◌, ◌++◌, str_eq,
  if◌then◌else◌,
}

unfoldable pub mem : String → List String → Bool
mem x [] = false
mem x (y ∷ ys) = str_eq y x || mem x ys

-- `d.get(key)` and `d[key] = value`
module _ {V : Type 0} where
  unfoldable pub get : String → List (String × V) → Option V
  get k [] = none
  get k ((j, v) ∷ d) = if str_eq j k then some v else get k d

  unfoldable pub assign : String → V → List (String × V) → List (String × V)
  assign k v [] = (k, v) ∷ []
  assign k v ((j, w) ∷ d) =
      let rest = assign k v d in if str_eq j k then (j, v) ∷ d else (j, w) ∷ rest

  -- `d.update(other)`
  pub update : List (String × V) → List (String × V) → List (String × V)
  unfolding assign
  update d [] = d
  update d ((k, v) ∷ other) = update (assign k v d) other

abbrev pub is_some : {A : Type 0} → Option A → Bool
is_some none = false
is_some (some a) = true

-- `ProviderParamPolicy`
pub record Policy : Type 0 where
  pub allowed : List String
  pub renamed : List (String × String)
  pub dropped : List String
  pub passthrough_prefixes : List String

abbrev pub empty_policy : Policy
empty_policy = record { allowed = []; renamed = []; dropped = []; passthrough_prefixes = [] }

-- The keys of a `patch` or a `replace` that are there, of the type that the code asks for.
pub record Change : Type 0 where
  pub allowed : Option (List String)
  pub renamed : Option (List (String × String))
  pub dropped : Option (List String)
  pub passthrough_prefixes : Option (List String)

pub record Override : Type 0 where
  pub replace : Change
  pub patch : Change

abbrev pub added : List String → Option (List String) → List String
added old none = old
added old (some new) = old ++ new

abbrev pub replaced : {A : Type 0} → A → Option A → A
replaced old none = old
replaced old (some new) = new

-- `apply_patch`
unfoldable pub apply_patch : Change → Policy → Policy
unfolding update
apply_patch patch p = record {
  allowed = added p.allowed patch.allowed;
  renamed = elim patch.renamed [ none ↦ p.renamed | some new ↦ update p.renamed new ];
  dropped = added p.dropped patch.dropped;
  passthrough_prefixes = added p.passthrough_prefixes patch.passthrough_prefixes;
}

-- `apply_replace`
unfoldable pub apply_replace : Change → Policy → Policy
apply_replace replace p = record {
  allowed = replaced p.allowed replace.allowed;
  renamed = replaced p.renamed replace.renamed;
  dropped = replaced p.dropped replace.dropped;
  passthrough_prefixes = replaced p.passthrough_prefixes replace.passthrough_prefixes;
}

-- `_merge_policy`
unfoldable pub merge_policy : Policy → Override → Policy
unfolding apply_patch apply_replace
merge_policy base override = apply_patch override.patch (apply_replace override.replace base)

abbrev pub streaming_params : List String
streaming_params = "streaming" ∷ "callbacks" ∷ []

-- `name.startswith(prefix)`
unfoldable pub starts_with : String → String → Bool
starts_with String.[] name = true
starts_with (String.◌∷◌ c prefix) String.[] = false
starts_with (String.◌∷◌ c prefix) (String.◌∷◌ d name) =
    (code c == code d) && starts_with prefix name

unfoldable pub any_prefix : String → List String → Bool
any_prefix name [] = false
any_prefix name (prefix ∷ more) = starts_with prefix name || any_prefix name more

module _ {V : Type 0} (policy : Policy) (global_prefixes : List String) where
  -- the body of the loop of `normalize_params`, for a value that is not None
  abbrev pub normalize_value : String → V → List (String × V) → List (String × V)
  normalize_value name value normalized =
      if mem name streaming_params then normalized else elim (get name policy.renamed) [
        | some new_name ↦ assign new_name value normalized
        | none ↦
            if mem name policy.dropped
            then normalized
            else if mem name policy.allowed
            then assign name value normalized
            else if any_prefix name (policy.passthrough_prefixes ++ global_prefixes)
            then assign name value normalized
            else normalized
      ]

  abbrev pub normalize_param : String → Option V → List (String × V) → List (String × V)
  normalize_param name none normalized = normalized
  normalize_param name (some value) normalized = normalize_value name value normalized

  -- the loop
  unfoldable pub normalize : List (String × Option V) → List (String × V) → List (String × V)
  normalize [] normalized = normalized
  normalize ((name, value) ∷ raw_params) normalized =
      normalize raw_params (normalize_param name value normalized)

-- the loop of `validate_provider_params`
unfoldable pub validate : {V : Type 0} → Policy → List (String × Option V) → Bool
validate policy [] = true
validate policy ((name, none) ∷ params) = validate policy params
validate policy ((name, some value) ∷ params) =
    if mem name policy.allowed || is_some (get name policy.renamed) || mem name policy.dropped
    then validate policy params
    else false
