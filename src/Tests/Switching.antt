-- ===== src/Tests/Switching.antt =====
-- Two overrides for one tool, and models that are numbered as they are made.
use backend_template.Prelude.{ℕ, String, ◌≡◌, refl, true, Option, none, some, List, [], ◌∷◌}
use backend_template.Middleware.ToolSwitch.{
  after_tool, before_tool, ToolModelOverride, Message, tool_message, tool_dict, other_message,
  find_last_tool_message, Models, get_model, wrap_model_call,
}
use backend_template.Middleware.SwitchedModels.{last_override, calls, wrap_model_call_again}
use backend_template.ParamPolicy.{get}

abbrev overrides : List ToolModelOverride
overrides =
    record { tool_name = "search"; model = "small"; trigger = after_tool }
    ∷ record { tool_name = "search"; model = "large"; trigger = after_tool }
    ∷ record { tool_name = "search"; model = "other"; trigger = before_tool }
    ∷ []

abbrev make : ℕ → String → Option ℕ
make n name = some n

abbrev messages : List Message
messages = tool_message (some "plan") ∷ tool_message (some "search") ∷ other_message ∷ []

abbrev later : List Message
later = tool_dict (some "search") ∷ []

abbrev models : Models ℕ
models = record { model_cache = []; asked = 7 }

abbrev between : List (List Message × ℕ)
between = (other_message ∷ [], 100) ∷ (messages, 101) ∷ []

is_search : find_last_tool_message messages ≡ some "search"
unfolding find_last_tool_message
is_search = refl

is_later_search : find_last_tool_message later ≡ some "search"
unfolding find_last_tool_message
is_later_search = refl

is_large : last_override "search" overrides none ≡ some "large"
unfolding last_override
is_large = refl

is_made : (get_model overrides true none make "large" models).0 ≡ some 7
unfolding get_model get
is_made = refl

wrap_model_call_again_example :
    let first = wrap_model_call overrides true none make messages 100 (λ x. x) models in
    (first.0 ≡ some 7)
    × ((wrap_model_call overrides true none make later 102
          (λ x. x)
          (calls overrides none make between first.1)).0
        ≡ some 7)
wrap_model_call_again_example =
    wrap_model_call_again overrides none make messages later 100 102 7 "search" "large" between
      models is_search is_later_search refl is_large is_made
