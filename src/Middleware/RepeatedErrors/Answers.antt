-- ===== src/Middleware/RepeatedErrors/Answers.antt =====
-- Which calls of a turn failed, by its messages, and that the guard's loop over the calls finds them
-- (agents/middleware/repeated_tool_error_guard.py).
use backend_template.Prelude.{
  String, ◌≡◌, refl, ap, ◌∙◌, Bool, true, false, Option, none, some, List, [], ◌∷◌, map, filter,
  arith, str_eq, if◌then◌else◌, Option-cases, inl, inr,
}
use backend_template.Values.{Value}
use backend_template.ParamPolicy.{get}
use backend_template.ParamPolicy.Targets.{get-assign}
use backend_template.Middleware.RepeatedErrors.{
  Message, ToolCall, ai, tool, other, Signature, add_result, errored, error_signature, if_any,
}
use backend_template.Middleware.RepeatedErrors.Turns.{CallingTurn, calls_of, results_after, closed}

-- whether a message answers a call, and if so whether with an error
abbrev pub answer_of : String → Message → Option Bool
answer_of id (tool (some i) is_error) =
    if str_eq i "" then none else if str_eq i id then some is_error else none
answer_of id (tool none is_error) = none
answer_of id (ai calls) = none
answer_of id other = none

-- the last answer to a call
abbrev pub last_answer : String → List Message → Option Bool
last_answer id [] = none
last_answer id (message ∷ messages) = elim (last_answer id messages) [
  | some is_error ↦ some is_error
  | none ↦ answer_of id message
]

abbrev pub has_failed : List Message → ToolCall → Bool
has_failed answers call = elim (last_answer call.id answers) [
  | some is_error ↦ is_error
  | none ↦ false
]

-- a call by its name and arguments
abbrev pub described : (Value → String) → ToolCall → String × String
described canonical_args call =
    (elim call.name [ none ↦ "" | some name ↦ name ], canonical_args call.args)

-- the calls of a turn whose last answer is an error, by name and arguments
abbrev pub failures : (Value → String) → CallingTurn → Signature
failures canonical_args turn =
    map (described canonical_args) (filter (has_failed turn.answers) (calls_of turn))

get-results_after :
    (id : String) (messages : List Message) (results : List (String × Bool))
    → get id (results_after messages results)
      ≡ (elim (last_answer id messages) [ some is_error ↦ some is_error | none ↦ get id results ])
get-results_after id [] results = refl
get-results_after id (ai calls ∷ messages) results =
    ground (arith, get-results_after id messages results)
get-results_after id (other ∷ messages) results =
    ground (arith, get-results_after id messages results)
get-results_after id (tool none is_error ∷ messages) results =
    ground (arith, get-results_after id messages results)
get-results_after id (tool (some i) is_error ∷ messages) results = ground (
  arith,
  get-results_after id messages (add_result (some i) is_error results),
  get-assign id i is_error results,
)

get-answers :
    (id : String) (messages : List Message)
    → get id (results_after messages []) ≡ last_answer id messages
unfolding get
get-answers id messages =
    get-results_after id messages [] ∙ (elim (Option-cases (last_answer id messages)) [
      | inl e ↦ rw e refl
      | inr (is_error, e) ↦ rw e refl
    ])

module _ {A : Type 0} (p : A → Bool) (x : A) (xs : List A) where
  filter-true : p x ≡ true → filter p (x ∷ xs) ≡ x ∷ filter p xs
  filter-true e = rw e refl

  filter-false : p x ≡ false → filter p (x ∷ xs) ≡ filter p xs
  filter-false e = rw e refl

-- The loop over the calls collects those whose last answer is an error.
errored-failures :
    (canonical_args : Value → String) (sorted : Signature → Signature) (calls : List ToolCall)
    (answers : List Message)
    → errored canonical_args sorted calls (results_after answers [])
      ≡ map (described canonical_args) (filter (has_failed answers) calls)
unfolding errored
errored-failures canonical_args sorted [] answers = refl
errored-failures canonical_args sorted (call ∷ calls) answers =
    let rest = errored-failures canonical_args sorted calls answers in
    let found = get-answers call.id answers in
    elim (Option-cases (last_answer call.id answers)) [
      | inl e ↦
          rw
            (
              errored,
              found,
              e,
              filter-false (has_failed answers) call calls (rw (has_failed, e) refl),
            )
            rest
      | inr (true, e) ↦
          rw
            (
              errored,
              found,
              e,
              filter-true (has_failed answers) call calls (rw (has_failed, e) refl),
            )
            (ap (◌∷◌ (described canonical_args call)) rest)
      | inr (false, e) ↦
          rw
            (
              errored,
              found,
              e,
              filter-false (has_failed answers) call calls (rw (has_failed, e) refl),
            )
            rest
    ]

pub error_signature-closed :
    (canonical_args : Value → String) (sorted : Signature → Signature) (turn : CallingTurn)
    → error_signature canonical_args sorted (closed turn)
      ≡ if_any canonical_args sorted (failures canonical_args turn)
unfolding error_signature
error_signature-closed canonical_args sorted turn =
    ap (if_any canonical_args sorted)
      (errored-failures canonical_args sorted (calls_of turn) turn.answers)
