-- ===== src/Tests/Fallbacks.antt =====
-- Calls with fallback models, their names, and an agent that repeats a failing call.
use mathlib.Core.List.Perm
use backend_template.Prelude.{
  String, ℕ, ◌≡◌, refl, ◌↔◌, Bool, true, false, none, some, List, [], ◌∷◌, map, if◌then◌else◌, ◌==◌,
}
use backend_template.Values.{Value, null}
use backend_template.Middleware.Fallback.{Outcome, answered, failed, wrap_model_call}
use backend_template.Middleware.Fallback.Attempts.{Run, handler, check, wrap_model_call-Run}
use backend_template.Middleware.FallbackNames.{
  normalize_fallback_model_names, AreNames, normalize_fallback_model_names-AreNames,
}
use backend_template.Middleware.RepeatedErrors.{Message, ai, tool, evaluate, threshold_of}
use backend_template.Middleware.RepeatedErrors.Streaks.{Ends, RepeatedFailures, evaluate-Ends}

-- the first call fails and the second one answers
abbrev outcome : ℕ → Outcome String String
outcome n = if n == 0 then failed "overloaded" else answered "hello"

abbrev never : ℕ → Bool
never n = false

abbrev primary : String
primary = "a"

abbrev fallbacks : List String
fallbacks = "b" ∷ "c" ∷ []

wrap_model_call-Run_example :
    let (o, called) =
      wrap_model_call (handler outcome never) (some (check outcome never)) primary fallbacks [] in
    Run outcome never 0 (primary ∷ fallbacks) o called
wrap_model_call-Run_example = wrap_model_call-Run outcome never primary fallbacks

abbrev names : List String
names =
    normalize_fallback_model_names (λ s. s) (some (some "b" ∷ none ∷ some "a" ∷ some "b" ∷ []))
      (some "a")

normalize_fallback_model_names-AreNames_example :
    AreNames (λ s. s) (some "a") [] names
    × (normalize_fallback_model_names (λ s. s) (some (map some names)) (some "a") ≡ names)
normalize_fallback_model_names-AreNames_example =
    normalize_fallback_model_names-AreNames (λ s. s) (some "a") (λ s. refl)
      (some (some "b" ∷ none ∷ some "a" ∷ some "b" ∷ []))

abbrev canonical_args : Value → String
canonical_args v = "{}"

-- two turns with the same failing call
abbrev messages : List Message
messages =
    ai (record { id = "1"; name = some "search"; args = null } ∷ [])
    ∷ tool (some "1") true
    ∷ ai (record { id = "2"; name = some "search"; args = null } ∷ [])
    ∷ tool (some "2") true
    ∷ []

evaluate-Ends_example :
    Ends (evaluate canonical_args (λ s. s) 2 messages)
    ↔ RepeatedFailures canonical_args (λ s. s) (threshold_of 2) messages
evaluate-Ends_example = evaluate-Ends canonical_args (λ s. s) (λ errs. Perm.rfl) 2 messages
