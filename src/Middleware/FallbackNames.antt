-- ===== src/Middleware/FallbackNames.antt =====
-- The names of fallback models (agents/middleware/model_fallback.py). A name is a text or None; other objects, which the
-- code turns into text, are left out, and `str.strip` is a parameter.
use backend_template.Prelude.{
  String, ◌≡◌, refl, sym, ◌∙◌, ap, Bool, false, not, ◌&&◌, ◌||◌, Option, none, some, List, [], ◌∷◌,
  ◌++◌, if◌then◌else◌, str_eq, arith, Bool-cases, append_assoc, append-nil, map, inl, inr,
}
use backend_template.ParamPolicy.{mem, get, assign}
use backend_template.VectorStore.{delete_key}

module _ {V : Type 0} where
  -- `fallback_models_from_mapping`, with none for the default
  unfoldable pub fallback_models_from_mapping : Option (List (String × V)) → Option V
  fallback_models_from_mapping none = none
  fallback_models_from_mapping (some mapping) = elim (get "fallback" mapping) [
    | some v ↦ some v
    | none ↦ get "fallback_models" mapping
  ]

  abbrev pub entries : Option (List (String × V)) → List (String × V)
  entries none = []
  entries (some d) = d

  -- `canonicalize_fallback_overrides`
  unfoldable pub canonicalize_fallback_overrides :
      Option (List (String × V)) → Bool → List (String × V)
  canonicalize_fallback_overrides overrides keep_alias =
      elim (fallback_models_from_mapping (some (entries overrides))) [
        | none ↦ entries overrides
        | some v ↦
            let result = assign "fallback" v (entries overrides) in
            if keep_alias
            then assign "fallback_models" v result
            else delete_key "fallback_models" result
      ]

-- `str(primary_model) if primary_model else None`
abbrev pub is_primary : Option String → String → Bool
is_primary none name = false
is_primary (some primary) name = not (str_eq primary "") && str_eq name primary

module _ (strip : String → String) where
  -- one round of the loop; `names` and `seen` have the same members
  abbrev pub add_name : Option String → Option String → List String → List String
  add_name primary none names = names
  add_name primary (some raw_name) names =
      let name = strip raw_name in
      if str_eq name "" || is_primary primary name || mem name names
      then names
      else names ++ (name ∷ [])

  unfoldable pub normalize_names : Option String → List (Option String) → List String → List String
  normalize_names primary [] names = names
  normalize_names primary (raw_name ∷ more) names =
      normalize_names primary more (add_name primary raw_name names)

  -- `normalize_fallback_model_names` of a sequence; the case of a bare string, which stands for the list of it, is left out
  unfoldable pub normalize_fallback_model_names :
      Option (List (Option String)) → Option String → List String
  normalize_fallback_model_names none primary = []
  normalize_fallback_model_names (some raw_models) primary = normalize_names primary raw_models []

-- the models that the factory makes of the names that are configured; without a factory the names stand for the
-- models
module _ {M : Type 0} (by_name : String → M) where
  -- the list `config.models`, if there is one, and `create_model`, where an exception and None both give none
  unfoldable pub create_models :
      Option (List String) → Option (String → Option M) → List String → List M
  create_models configured create [] = []
  create_models configured create (name ∷ names) =
      let rest = create_models configured create names in
      if is_unknown configured name then rest else elim create [
        | none ↦ by_name name ∷ rest
        | some f ↦ elim (f name) [ none ↦ rest | some model ↦ model ∷ rest ]
      ]
    where
      is_unknown : Option (List String) → String → Bool
      is_unknown none name = false
      is_unknown (some names) name = not (mem name names)

-- Every name is not empty, not the primary one, as `strip` leaves it, and not among those before it.
unfoldable pub AreNames : (String → String) → Option String → List String → List String → Type 0
AreNames strip primary before [] = Unit
AreNames strip primary before (name ∷ names) =
    (str_eq name "" ≡ false)
    × (is_primary primary name ≡ false)
    × (strip name ≡ name)
    × (mem name before ≡ false)
    × AreNames strip primary (before ++ (name ∷ [])) names

module _ (strip : String → String) (primary : Option String) where
  AreNames-append :
      (before names : List String) (name : String)
      → AreNames strip primary before names
      → str_eq name "" ≡ false
      → is_primary primary name ≡ false
      → strip name ≡ name
      → mem name (before ++ names) ≡ false
      → AreNames strip primary before (names ++ (name ∷ []))
  unfolding AreNames
  AreNames-append before [] name p a b c d = (a, b, c, rw append-nil at d, tt)
  AreNames-append before (n ∷ names) name (e, f, g, h, p) a b c d = (
    e,
    f,
    g,
    h,
    AreNames-append (before ++ (n ∷ [])) names name p a b c
        (rw (sym (append_assoc before (n ∷ []) names)) at d),
  )

  add_name-kept :
      (before : List String) (name : String)
      → str_eq name "" ≡ false
      → is_primary primary name ≡ false
      → strip name ≡ name
      → mem name before ≡ false
      → add_name strip primary (some name) before ≡ before ++ (name ∷ [])
  add_name-kept before name a b c d = rw (add_name, c, a, b, d) refl

  -- names that are kept are kept again
  normalize_names-again :
      (before names : List String)
      → AreNames strip primary before names
      → normalize_names strip primary (map some names) before ≡ before ++ names
  unfolding AreNames normalize_names
  normalize_names-again before [] p = sym (append-nil before)
  normalize_names-again before (name ∷ names) (a, b, c, d, p) =
      ap (λ now. normalize_names strip primary (map some names) now)
        (add_name-kept before name a b c d)
      ∙ normalize_names-again (before ++ (name ∷ [])) names p
      ∙ append_assoc before (name ∷ []) names

  module _ (strip_again : (s : String) → strip (strip s) ≡ strip s) where
    add_name-AreNames :
        (raw_name : Option String) (names : List String)
        → AreNames strip primary [] names
        → AreNames strip primary [] (add_name strip primary raw_name names)
    add_name-AreNames none names p = p
    add_name-AreNames (some raw_name) names p =
        elim (Bool-cases (
          str_eq (strip raw_name) ""
          || is_primary primary (strip raw_name)
          || mem (strip raw_name) names)) [
            | inl e ↦ rw e p
            | inr e ↦ rw e (
                AreNames-append [] names (strip raw_name) p (ground arith) (ground arith)
                  (strip_again raw_name) (ground arith))
          ]

    normalize_names-AreNames :
        (raw_names : List (Option String)) (names : List String)
        → AreNames strip primary [] names
        → AreNames strip primary [] (normalize_names strip primary raw_names names)
    unfolding normalize_names
    normalize_names-AreNames [] names p = p
    normalize_names-AreNames (raw_name ∷ more) names p =
        normalize_names-AreNames more (add_name strip primary raw_name names)
          (add_name-AreNames raw_name names p)

    -- The names that `normalize_fallback_model_names` returns are not empty, not the primary model's, stripped, and each
    -- there once; and it returns them unchanged when it gets them again, if stripping twice is stripping
    -- once.
    pub normalize_fallback_model_names-AreNames :
        (raw_models : Option (List (Option String)))
        → let names = normalize_fallback_model_names strip raw_models primary in
          AreNames strip primary [] names
          × (normalize_fallback_model_names strip (some (map some names)) primary ≡ names)
    unfolding normalize_fallback_model_names AreNames normalize_names
    normalize_fallback_model_names-AreNames none = (tt, refl)
    normalize_fallback_model_names-AreNames (some raw_models) =
        let names = normalize_names strip primary raw_models [] in
        let p = normalize_names-AreNames raw_models [] tt in (p, normalize_names-again [] names p)
