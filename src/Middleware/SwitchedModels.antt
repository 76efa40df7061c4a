-- ===== src/Middleware/SwitchedModels.antt =====
-- Which model agents/middleware/tool_model_switch.py calls.
use mathlib.Core.Option.{some-injective, none-ne-some}
use backend_template.Prelude.{
  ℕ, String, str_eq, eq_iff, ◌≡◌, refl, ◌∙◌, sym, ap, true, false, Option, none, some, List, [],
  ◌∷◌, Bool-cases, Option-cases, inl, inr, if◌then◌else◌,
}
use backend_template.Middleware.ToolSwitch.{
  Trigger, after_tool, before_tool, ToolModelOverride, Message, find_last_tool_message,
  after_overrides, add_after, Models, create_by, get_model, target_model, call_with,
  wrap_model_call,
}
use backend_template.ParamPolicy.{get, assign}
use backend_template.ParamPolicy.Targets.{get-assign}

-- the model of the last override after a tool
unfoldable pub last_override : String → List ToolModelOverride → Option String → Option String
last_override tool [] found = found
last_override tool (o ∷ os) found = last_override tool os (elim o.trigger [
  | before_tool ↦ found
  | after_tool ↦ if str_eq o.tool_name tool then some o.model else found
])

get-by_trigger :
    (t : Trigger) (name model tool : String) (d : List (String × String))
    → get tool (elim t as (λ x. List (String × String)) [
      | after_tool ↦ assign name model d
      | before_tool ↦ d
    ])
      ≡ elim t [
        | before_tool ↦ get tool d
        | after_tool ↦ if str_eq name tool then some model else get tool d
      ]
get-by_trigger after_tool name model tool d = get-assign tool name model d
get-by_trigger before_tool name model tool d = refl

get-after_overrides :
    (tool : String) (os : List ToolModelOverride) (d : List (String × String))
    → get tool (after_overrides os d) ≡ last_override tool os (get tool d)
unfolding after_overrides last_override
get-after_overrides tool [] d = refl
get-after_overrides tool (o ∷ os) d =
    get-after_overrides tool os (add_after o d)
    ∙ ap (last_override tool os) (get-by_trigger o.trigger o.tool_name o.model tool d)

-- the configuration, with its cache
module _ {M : Type 0} (overrides : List ToolModelOverride)
    (model_factory : Option (ℕ → String → Option M)) (init_chat_model : ℕ → String → Option M) where
  -- a model that is made is in the cache
  get_model-cached :
      (name : String) (s : Models M) (m : M)
      → (get_model overrides true model_factory init_chat_model name s).0 ≡ some m
      → get name (get_model overrides true model_factory init_chat_model name s).1.model_cache
        ≡ some m
  unfolding get_model
  get_model-cached name s m h = elim (Option-cases (get name s.model_cache)) [
    | inr (c, e) ↦ rw (get_model, e) (e ∙ rw (get_model, e) at h)
    | inl e ↦
        elim (Option-cases
          (create_by overrides true model_factory init_chat_model model_factory s.asked name)) [
            | inl f ↦ absurd (none-ne-some m (rw (get_model, e, f) at h))
            | inr (c, f) ↦
                let same : c ≡ m = some-injective _ _ (rw (get_model, e, f) at h) in
                rw (get_model, e, f)
                  (get-assign name name c s.model_cache ∙ rw ((eq_iff name name).1 refl, same) refl)
          ]
  ]

  -- a model in the cache stays there
  get_model-keeps :
      (name other : String) (s : Models M) (m : M)
      → get name s.model_cache ≡ some m
      → get name (get_model overrides true model_factory init_chat_model other s).1.model_cache
        ≡ some m
  unfolding get_model
  get_model-keeps name other s m h = elim (Option-cases (get other s.model_cache)) [
    | inr (c, e) ↦ rw (get_model, e) h
    | inl e ↦
        elim (Option-cases
          (create_by overrides true model_factory init_chat_model model_factory s.asked other)) [
            | inl f ↦ rw (get_model, e, f) h
            | inr (c, f) ↦ elim (Bool-cases (str_eq other name)) [
              | inl g ↦ absurd (none-ne-some m (sym (rw ((eq_iff other name).0 g) at e) ∙ h))
              | inr g ↦ rw (get_model, e, f) (get-assign name other c s.model_cache ∙ rw g h)
            ]
          ]
  ]

  call_with-id :
      (p : Option M × Models M)
      → ((call_with overrides true model_factory init_chat_model (λ x. x) p).0 ≡ p.0)
        × ((call_with overrides true model_factory init_chat_model (λ x. x) p).1 ≡ p.1)
  call_with-id (none, s) = (refl, refl)
  call_with-id (some m, s) = (refl, refl)

  -- a call after a tool that has an override
  wrap_model_call-target :
      (messages : List Message) (model : M) (s : Models M) (name : String)
      → target_model overrides true model_factory init_chat_model (find_last_tool_message messages)
        ≡ some name
      → let out =
          wrap_model_call overrides true model_factory init_chat_model messages model (λ x. x) s in
        (out.0 ≡ (get_model overrides true model_factory init_chat_model name s).0)
        × (out.1 ≡ (get_model overrides true model_factory init_chat_model name s).1)
  unfolding wrap_model_call
  wrap_model_call-target messages model s name e =
      rw (wrap_model_call, e)
        (call_with-id (get_model overrides true model_factory init_chat_model name s))

  wrap_model_call-keeps :
      (name : String) (messages : List Message) (model : M) (s : Models M) (m : M)
      → get name s.model_cache ≡ some m
      → get name
          (wrap_model_call overrides true model_factory init_chat_model messages model
            (λ x. x)
            s).1.model_cache
        ≡ some m
  unfolding wrap_model_call
  wrap_model_call-keeps name messages model s m h =
      elim (Option-cases (
        target_model overrides true model_factory init_chat_model
          (find_last_tool_message messages))) [
            | inl e ↦ rw (wrap_model_call, e) h
            | inr (other, e) ↦
                rw (wrap_model_call-target messages model s other e).1
                  (get_model-keeps name other s m h)
          ]

  -- calls of the model, each with its messages and the model that it would use
  unfoldable pub calls : List (List Message × M) → Models M → Models M
  unfolding wrap_model_call
  calls [] s = s
  calls ((messages, model) ∷ cs) s =
      calls cs
        (wrap_model_call overrides true model_factory init_chat_model messages model (λ m. m) s).1

  calls-keeps :
      (name : String) (cs : List (List Message × M)) (s : Models M) (m : M)
      → get name s.model_cache ≡ some m
      → get name (calls cs s).model_cache ≡ some m
  unfolding calls
  calls-keeps name [] s m h = h
  calls-keeps name ((messages, model) ∷ cs) s m h =
      calls-keeps name cs _ m (wrap_model_call-keeps name messages model s m h)

  -- With the cache on, when the tool that was called last has an override after it and the model that the last such
  -- override names could be made: this model is used, and the same one again in any
  -- later call after that tool, whatever was called in between.
  pub wrap_model_call_again :
      (messages later : List Message) (model model' m : M) (tool name : String)
      (cs : List (List Message × M)) (s : Models M)
      → find_last_tool_message messages ≡ some tool
      → find_last_tool_message later ≡ some tool
      → str_eq tool "" ≡ false
      → last_override tool overrides none ≡ some name
      → (get_model overrides true model_factory init_chat_model name s).0 ≡ some m
      → let first =
          wrap_model_call overrides true model_factory init_chat_model messages model (λ x. x) s in
        (first.0 ≡ some m)
        × ((wrap_model_call overrides true model_factory init_chat_model later model'
              (λ x. x)
              (calls cs first.1)).0
            ≡ some m)
  unfolding get_model get
  wrap_model_call_again messages later model model' m tool name cs s e f g h made =
      let target : target_model overrides true model_factory init_chat_model (some tool)
          ≡ some name =
        rw (g, get-after_overrides tool overrides []) h in
      let first =
        wrap_model_call overrides true model_factory init_chat_model messages model (λ x. x) s in
      let at_first = wrap_model_call-target messages model s name (rw e target) in
      let cached : get name first.1.model_cache ≡ some m =
        rw at_first.1 (get_model-cached name s m made) in
      let kept = calls-keeps name cs first.1 m cached in
      let at_last = wrap_model_call-target later model' (calls cs first.1) name (rw f target) in
      (at_first.0 ∙ made, at_last.0 ∙ rw (get_model, kept) refl)
