-- ===== src/Middleware/RepeatedErrors/Turns.antt =====
-- What the turns of an agent's messages are, apart from the loops of the guard
-- (agents/middleware/repeated_tool_error_guard.py), and that those loops find them.
use backend_template.Prelude.{
  String, ◌≡◌, refl, sym, ap, ◌∙◌, Bool, Option, none, some, List, [], ◌∷◌, ◌++◌, map, All,
  append_assoc, append-nil,
}
use backend_template.Middleware.RepeatedErrors.{
  Message, ToolCall, ai, tool, other, Turn, add_result, group_turns, reversed, close_turn,
}

-- a message with tool calls, and the messages up to the next such
pub record CallingTurn : Type 0 where
  pub first : ToolCall
  pub more : List ToolCall
  pub answers : List Message

-- The message calls no tool.
abbrev pub IsQuiet : Message → Type 0
IsQuiet (ai []) = Unit
IsQuiet (ai (call ∷ calls)) = ⊥
IsQuiet (tool id is_error) = Unit
IsQuiet other = Unit

abbrev pub calls_of : CallingTurn → List ToolCall
calls_of turn = turn.first ∷ turn.more

-- the messages of turns, the last turn first
abbrev pub told : List CallingTurn → List Message
told [] = []
told (turn ∷ earlier) = told earlier ++ (ai (calls_of turn) ∷ turn.answers)

-- The messages are these turns, the last one first, after some that call no tool.
abbrev pub AreTurns : List Message → List CallingTurn → Type 0
AreTurns messages turns =
    (before : List Message) × (messages ≡ before ++ told turns)
    × All IsQuiet before
    × All (λ turn. All IsQuiet turn.answers) turns

-- the results that the loop over the messages keeps for a turn
abbrev pub results_after : List Message → List (String × Bool) → List (String × Bool)
results_after [] results = results
results_after (tool id is_error ∷ messages) results =
    results_after messages (add_result id is_error results)
results_after (ai calls ∷ messages) results = results_after messages results
results_after (other ∷ messages) results = results_after messages results

abbrev pub closed : CallingTurn → Turn
closed turn = (calls_of turn, results_after turn.answers [])

group_quiet :
    (messages : List Message) (calls : List ToolCall) (results : List (String × Bool))
    (turns : List Turn)
    → All IsQuiet messages
    → group_turns messages (some (calls, results)) turns
      ≡ turns ++ ((calls, results_after messages results) ∷ [])
unfolding group_turns
group_quiet [] calls results turns q = refl
group_quiet (ai [] ∷ messages) calls results turns (q, qs) =
    group_quiet messages calls results turns qs
group_quiet (ai (c ∷ cs) ∷ messages) calls results turns (q, qs) = absurd q
group_quiet (tool id e ∷ messages) calls results turns (q, qs) =
    group_quiet messages calls (add_result id e results) turns qs
group_quiet (other ∷ messages) calls results turns (q, qs) =
    group_quiet messages calls results turns qs

group_turn :
    (messages : List Message) (turn : CallingTurn) (current : Option Turn) (turns : List Turn)
    → All IsQuiet turn.answers
    → group_turns (messages ++ (ai (calls_of turn) ∷ turn.answers)) current turns
      ≡ group_turns messages current turns ++ (closed turn ∷ [])
unfolding group_turns
group_turn [] turn current turns q =
    group_quiet turn.answers (calls_of turn) [] (close_turn current turns) q
group_turn (ai [] ∷ messages) turn current turns q = group_turn messages turn current turns q
group_turn (ai (c ∷ cs) ∷ messages) turn current turns q =
    group_turn messages turn (some (c ∷ cs, [])) (close_turn current turns) q
group_turn (tool id e ∷ messages) turn none turns q = group_turn messages turn none turns q
group_turn (tool id e ∷ messages) turn (some (calls, results)) turns q =
    group_turn messages turn (some (calls, add_result id e results)) turns q
group_turn (other ∷ messages) turn current turns q = group_turn messages turn current turns q

group_before : (messages : List Message) → All IsQuiet messages → group_turns messages none [] ≡ []
unfolding group_turns
group_before [] q = refl
group_before (ai [] ∷ messages) (q, qs) = group_before messages qs
group_before (ai (c ∷ cs) ∷ messages) (q, qs) = absurd q
group_before (tool id e ∷ messages) (q, qs) = group_before messages qs
group_before (other ∷ messages) (q, qs) = group_before messages qs

reversed_snoc : {A : Type 0} (xs : List A) (x : A) → reversed (xs ++ (x ∷ [])) ≡ x ∷ reversed xs
unfolding reversed
reversed_snoc [] x = refl
reversed_snoc (y ∷ ys) x = rw (reversed_snoc ys x) refl

grouped :
    (before : List Message) (turns : List CallingTurn)
    → All IsQuiet before
    → All (λ turn. All IsQuiet turn.answers) turns
    → reversed (group_turns (before ++ told turns) none []) ≡ map closed turns
unfolding reversed
grouped before [] q qs = rw (append-nil before, group_before before q) refl
grouped before (turn ∷ earlier) q (quiet, qs) =
    ap (λ ms. reversed (group_turns ms none []))
      (sym (append_assoc before (told earlier) (ai (calls_of turn) ∷ turn.answers)))
    ∙ ap reversed (group_turn (before ++ told earlier) turn none [] quiet)
    ∙ reversed_snoc (group_turns (before ++ told earlier) none []) (closed turn)
    ∙ ap (◌∷◌ (closed turn)) (grouped before earlier q qs)

-- The loop over the messages finds their turns.
pub group_turns-AreTurns :
    (messages : List Message) (turns : List CallingTurn)
    → AreTurns messages turns
    → reversed (group_turns messages none []) ≡ map closed turns
group_turns-AreTurns messages turns (before, e, q, qs) = rw e (grouped before turns q qs)

-- Every list of messages has turns.
told-snoc :
    (turns : List CallingTurn) (turn : CallingTurn)
    → told (turns ++ (turn ∷ [])) ≡ (ai (calls_of turn) ∷ turn.answers) ++ told turns
told-snoc [] turn = sym (append-nil (ai (calls_of turn) ∷ turn.answers))
told-snoc (later ∷ turns) turn =
    ap (λ ms. ms ++ (ai (calls_of later) ∷ later.answers)) (told-snoc turns turn)
    ∙ append_assoc (ai (calls_of turn) ∷ turn.answers) (told turns)
        (ai (calls_of later) ∷ later.answers)

IsQuiet-snoc :
    (turns : List CallingTurn) (turn : CallingTurn)
    → All (λ t. All IsQuiet t.answers) turns
    → All IsQuiet turn.answers
    → All (λ t. All IsQuiet t.answers) (turns ++ (turn ∷ []))
IsQuiet-snoc [] turn qs q = (q, tt)
IsQuiet-snoc (later ∷ turns) turn (p, qs) q = (p, IsQuiet-snoc turns turn qs q)

pub turns_of : (messages : List Message) → (turns : List CallingTurn) × AreTurns messages turns
turns_of [] = ([], ([], refl, tt, tt))
turns_of (ai (first ∷ more) ∷ messages) =
    let (turns, (before, e, q, qs)) = turns_of messages in
    let turn : CallingTurn = record { first = first; more = more; answers = before } in
    (
      turns ++ (turn ∷ []),
      (
        [],
        ap (◌∷◌ (ai (first ∷ more))) e ∙ sym (told-snoc turns turn),
        tt,
        IsQuiet-snoc turns turn qs q,
      ),
    )
turns_of (ai [] ∷ messages) =
    let (turns, (before, e, q, qs)) = turns_of messages in
    (turns, (ai [] ∷ before, ap (◌∷◌ (ai [])) e, (tt, q), qs))
turns_of (tool id is_error ∷ messages) =
    let (turns, (before, e, q, qs)) = turns_of messages in
    (turns, (tool id is_error ∷ before, ap (◌∷◌ (tool id is_error)) e, (tt, q), qs))
turns_of (other ∷ messages) =
    let (turns, (before, e, q, qs)) = turns_of messages in
    (turns, (other ∷ before, ap (◌∷◌ other) e, (tt, q), qs))
