-- ===== src/Settings/Layers.antt =====
-- Which layer a parameter of a model comes from (services/llm_config_service.py).
use backend_template.Prelude.{
  String, str_eq, eq_iff, ◌≡◌, refl, subst, Bool, true, false, not, ◌&&◌, Option, none, some, List,
  [], ◌∷◌, arith, Bool-cases, Option-cases, inl, inr, if◌then◌else◌,
}
use backend_template.Values.{Value, Fields}
use backend_template.Settings.{Dict, Overrides, Preferences}
use backend_template.Settings.Resolving.{
  Model, params, value_or, or_none, overrides_of, override_params,
}
use backend_template.Settings.ModelParams.{
  own_key, own_temperature, shared_param, model_defaults, effective,
}
use backend_template.ParamPolicy.{mem, get, assign}
use backend_template.ParamPolicy.Targets.{get-assign}

-- a value, or the one that a layer below has
abbrev pub over : Option Fields → Option Value → Option Value
over none below = below
over (some v) below = some (value_or (or_none below) v)

abbrev nodup : List String → Bool
nodup [] = true
nodup (k ∷ ks) = not (mem k ks) && nodup ks

abbrev laid : String → Option Fields → Dict Value → Dict Value
laid j none d = d
laid j (some v) d = assign j (value_or (or_none (get j d)) v) d

get-laid :
    (j k : String) (o : Option Fields) (d : Dict Value)
    → get k (laid j o d) ≡ (if str_eq j k then over o (get k d) else get k d)
get-laid j k none d = ground arith
get-laid j k (some v) d = elim (Bool-cases (str_eq j k)) [
  | inl e ↦ rw (get-assign k j (value_or (or_none (get j d)) v) d, e, (eq_iff j k).0 e) refl
  | inr e ↦ rw (get-assign k j (value_or (or_none (get j d)) v) d, e) refl
]

override_params-step :
    (j : String) (ks : List String) (layer : String → Option Fields) (d : Dict Value)
    → override_params (j ∷ ks) layer d ≡ override_params ks layer (laid j (layer j) d)
unfolding override_params
override_params-step j ks layer d = elim (Option-cases (layer j)) [
  | inl e ↦ rw (override_params, e) refl
  | inr (v, e) ↦ rw (override_params, e) refl
]

-- A loop over keys that are distinct lays its layer over the values of those keys.
get-override_params :
    (k : String) (ks : List String) (layer : String → Option Fields) (d : Dict Value)
    → nodup ks ≡ true
    → get k (override_params ks layer d) ≡ (if mem k ks then over (layer k) (get k d) else get k d)
unfolding mem
get-override_params k [] layer d h = unfold override_params in refl
get-override_params k (j ∷ ks) layer d h =
    let rest = get-override_params k ks layer (laid j (layer j) d) (ground arith) in
    let here = get-laid j k (layer j) d in
    rw (override_params-step j ks layer d, rest, here)
      (elim (Bool-cases (str_eq j k)) [
        | inl e ↦
            let absent : mem k ks ≡ false =
              subst (λ x. mem x ks ≡ false) ((eq_iff j k).0 e) (ground arith) in
            rw (e, absent, (eq_iff j k).0 e) refl
        | inr e ↦ rw e refl
      ])

effective-eq :
    (m : Model) (model_name : String) (o : Overrides) (prefs : Preferences)
    → effective m model_name o (some prefs)
      ≡ override_params params (shared_param model_name prefs.model_params_dict) (
          override_params
            ("temperature" ∷ [])
            (own_temperature model_name prefs.model_params_dict)
            (override_params params
              (λ k. get k (overrides_of (get model_name o.model_dict)))
              (model_defaults m)))
unfolding effective
effective-eq m model_name o prefs = refl

-- the two layers of the user
user_layers :
    (model_name key : String) (prefs : Dict Fields) (below : Option Value)
    → over (shared_param model_name prefs key) (
        if mem key ("temperature" ∷ [])
        then over (own_temperature model_name prefs key) below
        else below)
      ≡ elim (get (own_key model_name key) prefs) [
        | some own ↦ if str_eq "temperature" key then over (some own) below else below
        | none ↦ over (get key prefs) below
      ]
unfolding mem
user_layers model_name key prefs below = elim (Bool-cases (str_eq "temperature" key)) [
  | inl e ↦
      subst
        (λ k.
          over (shared_param model_name prefs k) (
            if mem k ("temperature" ∷ [])
            then over (own_temperature model_name prefs k) below
            else below)
          ≡ elim (get (own_key model_name k) prefs) [
            | some own ↦ if str_eq "temperature" k then over (some own) below else below
            | none ↦ over (get k prefs) below
          ])
        ((eq_iff "temperature" key).0 e) (ground arith)
  | inr e ↦ ground arith
]

-- For each of the parameters of a model: what a preference for this model gives comes first, then a preference for
-- all models, then the override of the admins, then the file. But of the preferences for this model only the one
-- for the temperature is read, and any of them hides the one for all models.
pub effective-layers :
    (m : Model) (model_name : String) (o : Overrides) (prefs : Preferences) (key : String)
    → mem key params ≡ true
    → let below =
        over (get key (overrides_of (get model_name o.model_dict))) (get key (model_defaults m)) in
      get key (effective m model_name o (some prefs))
      ≡ elim (get (own_key model_name key) prefs.model_params_dict) [
        | some own ↦ if str_eq "temperature" key then over (some own) below else below
        | none ↦ over (get key prefs.model_params_dict) below
      ]
unfolding mem
effective-layers m model_name o prefs key h =
    let first : String → Option Fields = λ k. get k (overrides_of (get model_name o.model_dict)) in
    let d = override_params params first (model_defaults m) in
    let mine = own_temperature model_name prefs.model_params_dict in
    rw
      (
        effective-eq m model_name o prefs,
        get-override_params key params (shared_param model_name prefs.model_params_dict)
            (override_params ("temperature" ∷ []) mine d) refl,
        h,
        get-override_params key ("temperature" ∷ []) mine d refl,
        get-override_params key params first (model_defaults m) refl,
        h,
      )
      (user_layers model_name key prefs.model_params_dict _)
