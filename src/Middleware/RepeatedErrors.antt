-- ===== src/Middleware/RepeatedErrors.antt =====
-- The guard against repeated tool errors (agents/middleware/repeated_tool_error_guard.py). `_canonical_args`, `sorted` on
-- pairs of texts and `str` of a number are parameters.
pub mod Turns
pub mod Answers
pub mod Streaks
use Prim.Native.String.{◌++◌ as ◌and_then◌}
use backend_template.Prelude.{
  String, ℕ, zero, suc, ◌≤◌, Bool, true, false, not, ◌&&◌, Option, none, some, List, [], ◌∷◌, ◌++◌,
  if◌then◌else◌, str_eq, ltb,
}
use backend_template.ParamPolicy.{get, assign}
use backend_template.Values.{Value}

-- a tool call of a message: its identifier, name and arguments
pub record ToolCall : Type 0 where
  pub id : String
  pub name : Option String
  pub args : Value

-- A message of the model with its tool calls, a tool's message with the call it answers and whether its status is
-- "error", or another message.
pub data Message : Type 0 where
  ai : List ToolCall → Message
  tool : Option String → Bool → Message
  other : Message

-- a turn: the calls of a message, and for each call that was answered whether the answer is an error
abbrev pub Turn : Type 0
Turn = List ToolCall × List (String × Bool)

abbrev pub Signature : Type 0
Signature = List (String × String)

abbrev pub close_turn : Option Turn → List Turn → List Turn
close_turn none turns = turns
close_turn (some turn) turns = turns ++ (turn ∷ [])

-- `if msg.tool_call_id: current_results[msg.tool_call_id] = msg`
abbrev pub add_result : Option String → Bool → List (String × Bool) → List (String × Bool)
add_result none is_error results = results
add_result (some id) is_error results = if str_eq id "" then results else assign id is_error results

-- the loop over the messages
unfoldable pub group_turns : List Message → Option Turn → List Turn → List Turn
group_turns [] current turns = close_turn current turns
group_turns (ai [] ∷ messages) current turns = group_turns messages current turns
group_turns (ai (call ∷ calls) ∷ messages) current turns =
    group_turns messages (some (call ∷ calls, [])) (close_turn current turns)
group_turns (tool id is_error ∷ messages) none turns = group_turns messages none turns
group_turns (tool id is_error ∷ messages) (some (calls, results)) turns =
    group_turns messages (some (calls, add_result id is_error results)) turns
group_turns (other ∷ messages) current turns = group_turns messages current turns

abbrev pub or_empty : Option String → String
or_empty none = ""
or_empty (some s) = s

abbrev pub same_signature : Signature → Signature → Bool
same_signature [] [] = true
same_signature [] (e ∷ es) = false
same_signature (d ∷ ds) [] = false
same_signature (d ∷ ds) (e ∷ es) = str_eq d.0 e.0 && str_eq d.1 e.1 && same_signature ds es

unfoldable pub same_error : Signature → Option Signature → Bool
same_error sig none = false
same_error sig (some other_sig) = same_signature sig other_sig

-- the loop over the reversed turns: how many signatures from the start are the given one
unfoldable pub streak : Signature → List (Option Signature) → ℕ
streak sig [] = 0
streak sig (s ∷ sigs) = let rest = streak sig sigs in if same_error sig s then suc rest else 0

-- `reversed`
unfoldable pub reversed : {A : Type 0} → List A → List A
reversed [] = []
reversed (x ∷ xs) = reversed xs ++ (x ∷ [])

-- `max(1, threshold)`
abbrev pub threshold_of : ℕ → ℕ
threshold_of zero = 1
threshold_of (suc n) = suc n

-- `_evaluate` after the turns: the signature and the streak of which the message tells, when the loop ends. The
-- turns come last first.
unfoldable pub evaluate_turns : ℕ → List (Option Signature) → Option (Signature × ℕ)
evaluate_turns threshold [] = none
evaluate_turns threshold (none ∷ sigs) = none
evaluate_turns threshold (some last_sig ∷ sigs) =
    let n = streak last_sig (some last_sig ∷ sigs) in
    if ltb n (threshold_of threshold) then none else some (last_sig, n)

module _ (canonical_args : Value → String) (sorted : Signature → Signature) where
  -- the loop over the calls of a turn
  unfoldable pub errored : List ToolCall → List (String × Bool) → Signature
  errored [] results = []
  errored (call ∷ calls) results =
      let rest = errored calls results in
      elim (get call.id results) [
        | none ↦ rest
        | some is_error ↦
            if is_error then (or_empty call.name, canonical_args call.args) ∷ rest else rest
      ]

  abbrev pub if_any : Signature → Option Signature
  if_any [] = none
  if_any (e ∷ es) = some (sorted (e ∷ es))

  unfoldable pub error_signature : Turn → Option Signature
  error_signature (calls, results) = if_any (errored calls results)

  abbrev pub signatures : List Turn → List (Option Signature)
  signatures [] = []
  signatures (turn ∷ turns) = error_signature turn ∷ signatures turns

  unfoldable pub evaluate : ℕ → List Message → Option (Signature × ℕ)
  evaluate threshold messages =
      evaluate_turns threshold (signatures (reversed (group_turns messages none [])))
