-- ===== src/ParamPolicy/Targets.antt =====
-- Where a parameter of `normalize_params` goes, and what the result holds (llm/param_policy.py).
use backend_template.Prelude.{
  String, ◌≡◌, refl, ◌∙◌, ◌||◌, Option, none, some, List, [], ◌∷◌, ◌++◌, str_eq, eq_iff, arith,
  Option-cases, inl, inr, if◌then◌else◌,
}
use backend_template.ParamPolicy.{
  mem, get, assign, Policy, streaming_params, any_prefix, normalize_value, normalize,
}

pub get-assign :
    {V : Type 0} (k j : String) (v : V) (d : List (String × V))
    → get k (assign j v d) ≡ (if str_eq j k then some v else get k d)
unfolding get assign
get-assign k j v [] = refl
get-assign k j v ((i, w) ∷ d) =
    ground (arith, get-assign k j v d, eq_iff i j, eq_iff i k, eq_iff j k)

module _ (policy : Policy) (global_prefixes : List String) where
  -- the name under which a parameter is forwarded, if it is
  unfoldable pub target : String → Option String
  target name = if mem name streaming_params then none else elim (get name policy.renamed) [
    | some new_name ↦ some new_name
    | none ↦
        if mem name policy.dropped
        then none
        else if mem name policy.allowed
            || any_prefix name (policy.passthrough_prefixes ++ global_prefixes)
        then some name
        else none
  ]

  module _ {V : Type 0} where
    -- the value of the last parameter with a value that is forwarded under a name
    unfoldable pub last_value : String → List (String × Option V) → Option V
    last_value k [] = none
    last_value k ((name, none) ∷ raw) = last_value k raw
    last_value k ((name, some v) ∷ raw) = elim (last_value k raw) [
      | some w ↦ some w
      | none ↦ elim (target name) [ none ↦ none | some j ↦ if str_eq j k then some v else none ]
    ]

    normalize_value_lem :
        (k name : String) (v : V) (d : List (String × V))
        → get k (normalize_value policy global_prefixes name v d)
          ≡ elim (target name) [ none ↦ get k d | some j ↦ if str_eq j k then some v else get k d ]
    unfolding target
    normalize_value_lem k name v d = elim (Option-cases (get name policy.renamed)) [
      | inl e ↦ ground (arith, get-assign k name v d)
      | inr (j, e) ↦ rw e (ground (arith, get-assign k j v d))
    ]

    normalize_lem :
        (k : String) (raw : List (String × Option V)) (d : List (String × V))
        → get k (normalize policy global_prefixes raw d)
          ≡ elim (last_value k raw) [ none ↦ get k d | some v ↦ some v ]
    unfolding normalize last_value
    normalize_lem k [] d = refl
    normalize_lem k ((name, none) ∷ raw) d = normalize_lem k raw d
    normalize_lem k ((name, some v) ∷ raw) d = ground (
      arith,
      normalize_lem k raw (normalize_value policy global_prefixes name v d),
      normalize_value_lem k name v d,
    )

    -- Under every name `normalize_params` forwards the value of the last parameter, not None, that goes to
    -- that name, and nothing if there is none: a streaming parameter goes nowhere, else a renamed one
    -- goes to its new name, else a dropped one goes nowhere, else an allowed one or one with a passthrough prefix goes
    -- to its own name, and any other goes nowhere.
    pub get-normalize :
        (k : String) (raw : List (String × Option V))
        → get k (normalize policy global_prefixes raw []) ≡ last_value k raw
    get-normalize k raw = normalize_lem k raw [] ∙ unfold get in ground arith
