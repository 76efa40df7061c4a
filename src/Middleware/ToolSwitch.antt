-- ===== src/Middleware/ToolSwitch.antt =====
-- inference_core/agents/middleware/tool_model_switch.py: the model of a call by the tool that was called last. A model factory,
-- `init_chat_model` and the rest of the chain are parameters; what they make can differ from call to call,
-- so they take the number of their call.
use backend_template.Prelude.{
  ℕ, suc, String, str_eq, Bool, Option, none, some, List, [], ◌∷◌, if◌then◌else◌,
}
use backend_template.ParamPolicy.{get, assign}

-- `ToolModelOverride.trigger`; `__post_init__` refuses any other text
pub data Trigger : Type 0 where
  after_tool before_tool : Trigger

abbrev pub trigger_of : String → Option Trigger
trigger_of s =
    if str_eq s "after_tool"
    then some after_tool
    else if str_eq s "before_tool"
    then some before_tool
    else none

-- `ToolModelOverride`
pub record ToolModelOverride : Type 0 where
  pub tool_name : String
  pub model : String
  pub trigger : Trigger

-- a dict of the overrides that `create_tool_model_switch_middleware` takes
pub record OverrideDict : Type 0 where
  pub tool_name : String
  pub model : String
  pub trigger : Option String

abbrev pub trigger_text : Option String → String
trigger_text none = "after_tool"
trigger_text (some s) = s

-- a message: a ToolMessage or a dict of the type "tool", with its name, or any other
pub data Message : Type 0 where
  tool_message : Option String → Message
  tool_dict : Option String → Message
  other_message : Message

-- `_find_last_tool_message` over the reversed messages
unfoldable pub first_tool : List Message → Option String
first_tool [] = none
first_tool (tool_message name ∷ messages) = name
first_tool (tool_dict name ∷ messages) = name
first_tool (other_message ∷ messages) = first_tool messages

unfoldable pub reversed : List Message → List Message → List Message
reversed [] done = done
reversed (m ∷ messages) done = reversed messages (m ∷ done)

unfoldable pub find_last_tool_message : List Message → Option String
unfolding first_tool reversed
find_last_tool_message messages = first_tool (reversed messages [])

-- the lookups that `__init__` builds: the last override for a tool is kept
abbrev pub add_after : ToolModelOverride → List (String × String) → List (String × String)
add_after o d = elim o.trigger [ after_tool ↦ assign o.tool_name o.model d | before_tool ↦ d ]

unfoldable pub after_overrides :
    List ToolModelOverride → List (String × String) → List (String × String)
after_overrides [] d = d
after_overrides (o ∷ os) d = after_overrides os (add_after o d)

-- `create_tool_model_switch_middleware`, up to the check of each override; none is its ValueError
unfoldable pub make_overrides : List OverrideDict → Option (List ToolModelOverride)
make_overrides [] = some []
make_overrides (o ∷ os) =
    let rest = make_overrides os in
    elim (trigger_of (trigger_text o.trigger)) [
      | none ↦ none
      | some trigger ↦ elim rest [
        | none ↦ none
        | some made ↦
            some (record { tool_name = o.tool_name; model = o.model; trigger = trigger } ∷ made)
      ]
    ]

-- the model cache, and how many models were asked for
pub record Models (M : Type 0) : Type 0 where
  pub model_cache : List (String × M)
  pub asked : ℕ

-- the configuration; a factory gives none where it gives None or raises, `init_chat_model` where it raises
module _ {M : Type 0} (overrides : List ToolModelOverride) (cache_models : Bool)
    (model_factory : Option (ℕ → String → Option M)) (init_chat_model : ℕ → String → Option M) where
  abbrev pub create_by : Option (ℕ → String → Option M) → ℕ → String → Option M
  create_by none n name = init_chat_model n name
  create_by (some factory) n name = elim (factory n name) [
    | some m ↦ some m
    | none ↦ init_chat_model n name
  ]

  abbrev pub keep_model : String → Option M → Models M → Option M × Models M
  keep_model name none s = (none, record s { asked = suc s.asked })
  keep_model name (some m) s = (
    some m,
    record s {
      asked = suc s.asked;
      model_cache = if cache_models then assign name m s.model_cache else s.model_cache;
    },
  )

  -- `_get_model`; none stands for an exception
  unfoldable pub get_model : String → Models M → Option M × Models M
  get_model name s = elim (if cache_models then get name s.model_cache else none) [
    | some m ↦ (some m, s)
    | none ↦ keep_model name (create_by model_factory s.asked name) s
  ]

  -- the name of the model that the last tool asks for
  abbrev pub target_model : Option String → Option String
  target_model none = none
  target_model (some tool) =
      if str_eq tool "" then none else get tool (after_overrides overrides [])

  abbrev pub call_with : {A : Type 0} → (M → A) → Option M × Models M → Option A × Models M
  call_with handler (none, s) = (none, s)
  call_with handler (some m, s) = (some (handler m), s)

  -- `wrap_model_call`, with the model of the request
  unfoldable pub wrap_model_call :
      {A : Type 0} → List Message → M → (M → A) → Models M → Option A × Models M
  unfolding find_last_tool_message after_overrides get_model
  wrap_model_call messages model handler s = elim (target_model (find_last_tool_message messages)) [
    | none ↦ (some (handler model), s)
    | some name ↦ call_with handler (get_model name s)
  ]
