-- ===== src/Middleware/RepeatedErrors/Streaks.antt =====
-- When the guard ends the loop (agents/middleware/repeated_tool_error_guard.py).
use mathlib.Core.List.{Perm}
use mathlib.Core.List.Perm
use backend_template.Prelude.{
  subst, map, ◌≢◌, ◌∙◌, String, ℕ, zero, suc, ◌≤◌, ◌≡◌, refl, sym, ap, true, false, Option, none,
  some, List, [], ◌∷◌, eq_iff, ltb, length, take, All, arith, Bool-cases, inl, inr, ◌↔◌,
}
use backend_template.Values.{Value}
use backend_template.Middleware.RepeatedErrors.{
  Message, Signature, same_signature, same_error, streak, threshold_of, reversed, group_turns,
  signatures, evaluate_turns, evaluate, if_any,
}
use backend_template.Middleware.RepeatedErrors.Turns.{
  CallingTurn, AreTurns, closed, turns_of, group_turns-AreTurns,
}
use backend_template.Middleware.RepeatedErrors.Answers.{failures, error_signature-closed}

same_signature→eq : (a b : Signature) → same_signature a b ≡ true → a ≡ b
same_signature→eq [] [] h = refl
same_signature→eq [] (e ∷ es) h = ground arith
same_signature→eq (d ∷ ds) [] h = ground arith
same_signature→eq (d ∷ ds) (e ∷ es) h =
    ground (arith, eq_iff d.0 e.0, eq_iff d.1 e.1, same_signature→eq ds es)

same_signature_refl : (a : Signature) → same_signature a a ≡ true
same_signature_refl [] = refl
same_signature_refl (d ∷ ds) =
    ground (arith, eq_iff d.0 d.0, eq_iff d.1 d.1, same_signature_refl ds)

same_error→eq : (a : Signature) (s : Option Signature) → same_error a s ≡ true → s ≡ some a
unfolding same_error
same_error→eq a none h = ground arith
same_error→eq a (some b) h = ap some (sym (same_signature→eq a b h))

-- The signatures from the start are all the given one.
abbrev pub AllSame : Signature → List (Option Signature) → Type 0
AllSame sig sigs = All (λ s. s ≡ some sig) sigs

streak→AllSame :
    (sig : Signature) (t : ℕ) (sigs : List (Option Signature))
    → t ≤ streak sig sigs
    → (t ≤ length sigs) × AllSame sig (take t sigs)
unfolding streak
streak→AllSame sig zero sigs h = (omega arith, tt)
streak→AllSame sig (suc t) [] h = ground arith
streak→AllSame sig (suc t) (s ∷ sigs) h = elim (Bool-cases (same_error sig s)) [
  | inl e ↦
      let rest = streak→AllSame sig t sigs (ground arith) in
      (omega (arith, rest.0), (same_error→eq sig s e, rest.1))
  | inr e ↦ ground arith
]

AllSame→streak :
    (sig : Signature) (t : ℕ) (sigs : List (Option Signature))
    → t ≤ length sigs
    → AllSame sig (take t sigs)
    → t ≤ streak sig sigs
unfolding streak same_error
AllSame→streak sig zero sigs h p = omega arith
AllSame→streak sig (suc t) [] h p = ground arith
AllSame→streak sig (suc t) (s ∷ sigs) h (e, p) =
    rw (e, same_signature_refl sig) (omega (arith, AllSame→streak sig t sigs (omega (arith, h)) p))

-- There is an answer.
unfoldable pub Ends : Option (Signature × ℕ) → Type 0
Ends answer = (sig : Signature) × (n : ℕ) × (answer ≡ some (sig, n))

-- The first `t` signatures are there and the same.
unfoldable pub Repeats : ℕ → List (Option Signature) → Type 0
Repeats t sigs = (sig : Signature) × (t ≤ length sigs) × AllSame sig (take t sigs)

turns-Repeats :
    (threshold : ℕ) (sigs : List (Option Signature))
    → Ends (evaluate_turns threshold sigs)
    → Repeats (threshold_of threshold) sigs
unfolding Ends Repeats evaluate_turns
turns-Repeats threshold [] (sig, n, e) = ground arith
turns-Repeats threshold (none ∷ sigs) (sig, n, e) = ground arith
turns-Repeats threshold (some last ∷ sigs) (sig, n, e) =
    elim (Bool-cases (ltb (streak last (some last ∷ sigs)) (threshold_of threshold))) [
      | inl below ↦ ground arith
      | inr enough ↦
          let (long, same) =
            streak→AllSame last (threshold_of threshold) (some last ∷ sigs) (ground arith) in
          (last, long, same)
    ]

turns-Ends_at :
    (threshold u : ℕ) (sigs : List (Option Signature))
    → threshold_of threshold ≡ suc u
    → Repeats (suc u) sigs
    → Ends (evaluate_turns threshold sigs)
unfolding Ends Repeats evaluate_turns
turns-Ends_at threshold u [] t (sig, long, same) = ground arith
turns-Ends_at threshold u (s ∷ sigs) t (sig, long, (e, p)) =
    let enough : suc u ≤ streak sig (some sig ∷ sigs) =
      AllSame→streak sig (suc u) (some sig ∷ sigs) long (refl, p) in
    let not_below : ltb (streak sig (some sig ∷ sigs)) (suc u) ≡ false = ground arith in
    rw (e, t, not_below) (sig, streak sig (some sig ∷ sigs), refl)

turns-Ends :
    (threshold : ℕ) (sigs : List (Option Signature))
    → Repeats (threshold_of threshold) sigs
    → Ends (evaluate_turns threshold sigs)
turns-Ends zero sigs r = turns-Ends_at zero 0 sigs refl r
turns-Ends (suc n) sigs r = turns-Ends_at (suc n) n sigs refl r

module _ (canonical_args : Value → String) (sorted : Signature → Signature) where
  -- Calls of the turn failed, and sorted they are the given ones.
  abbrev pub FailsWith : Signature → CallingTurn → Type 0
  FailsWith errs turn =
      (failures canonical_args turn ≢ [])
      × (sorted (failures canonical_args turn) ≡ errs)
      × Perm (failures canonical_args turn) errs

  -- Of the turns of the messages the last `t` are there, and the same calls failed in each.
  unfoldable pub RepeatedFailures : ℕ → List Message → Type 0
  RepeatedFailures t messages =
      (turns : List CallingTurn) × AreTurns messages turns
      × (errs : Signature) × (t ≤ length turns)
      × All (FailsWith errs) (take t turns)

  length-signatures :
      (turns : List CallingTurn)
      → length (signatures canonical_args sorted (map closed turns)) ≡ length turns
  length-signatures [] = refl
  length-signatures (turn ∷ turns) = ap suc (length-signatures turns)

  module _ (sorts : (errs : Signature) → Perm (sorted errs) errs) where
    any-FailsWith :
        (sig failed : Signature)
        → if_any canonical_args sorted failed ≡ some sig
        → (failed ≢ []) × (sorted failed ≡ sig) × Perm failed sig
    any-FailsWith sig [] h = ground arith
    any-FailsWith sig (e ∷ es) h =
        let same : sorted (e ∷ es) ≡ sig = ground arith in
        (
          λ empty. ground arith,
          same,
          subst (λ s. Perm (e ∷ es) s) same (Perm.symm (sorts (e ∷ es))),
        )

    AllSame-FailsWith :
        (sig : Signature) (t : ℕ) (turns : List CallingTurn)
        → AllSame sig (take t (signatures canonical_args sorted (map closed turns)))
        → All (FailsWith sig) (take t turns)
    AllSame-FailsWith sig zero turns p = tt
    AllSame-FailsWith sig (suc t) [] p = tt
    AllSame-FailsWith sig (suc t) (turn ∷ turns) (e, p) = (
      any-FailsWith sig (failures canonical_args turn)
          (sym (error_signature-closed canonical_args sorted turn) ∙ e),
      AllSame-FailsWith sig t turns p,
    )

  FailsWith-any :
      (sig failed : Signature)
      → failed ≢ []
      → sorted failed ≡ sig
      → if_any canonical_args sorted failed ≡ some sig
  FailsWith-any sig [] filled same = absurd (filled refl)
  FailsWith-any sig (e ∷ es) filled same = ap some same

  FailsWith-AllSame :
      (sig : Signature) (t : ℕ) (turns : List CallingTurn)
      → All (FailsWith sig) (take t turns)
      → AllSame sig (take t (signatures canonical_args sorted (map closed turns)))
  FailsWith-AllSame sig zero turns p = tt
  FailsWith-AllSame sig (suc t) [] p = tt
  FailsWith-AllSame sig (suc t) (turn ∷ turns) ((filled, same, perm), p) = (
    error_signature-closed canonical_args sorted turn
        ∙ FailsWith-any sig (failures canonical_args turn) filled same,
    FailsWith-AllSame sig t turns p,
  )

  signatures-closed :
      (messages : List Message) (turns : List CallingTurn)
      → AreTurns messages turns
      → signatures canonical_args sorted (reversed (group_turns messages none []))
        ≡ signatures canonical_args sorted (map closed turns)
  signatures-closed messages turns are =
      ap (signatures canonical_args sorted) (group_turns-AreTurns messages turns are)

  -- The guard ends the loop exactly when the messages have at least as many turns as the threshold, one at
  -- least, and in each of the last so many of them calls failed, the same ones by name and arguments: the lists
  -- of failed calls are the same once sorted, and so up to their order. A turn is a message with tool calls
  -- and what follows up to the next such message; a call of it failed when the last answer to its id among those is
  -- an error. `sorted` is any function that gives a permutation.
  pub evaluate-Ends :
      (sorts : (errs : Signature) → Perm (sorted errs) errs)
      → (threshold : ℕ) (messages : List Message)
      → Ends (evaluate canonical_args sorted threshold messages)
        ↔ RepeatedFailures (threshold_of threshold) messages
  unfolding evaluate RepeatedFailures Repeats
  evaluate-Ends sorts threshold messages =
      let sigs = signatures canonical_args sorted (reversed (group_turns messages none [])) in
      (
        λ ends.
            let (turns, are) = turns_of messages in
            let (sig, long, same) =
              subst (Repeats (threshold_of threshold)) (signatures-closed messages turns are)
                (turns-Repeats threshold sigs ends) in
            (
              turns,
              are,
              sig,
              omega (arith, length-signatures turns),
              AllSame-FailsWith sorts sig (threshold_of threshold) turns same,
            ),
        λ (turns, are, sig, long, fail). turns-Ends threshold sigs (
            subst (Repeats (threshold_of threshold)) (sym (signatures-closed messages turns are)) (
              sig,
              omega (arith, length-signatures turns),
              FailsWith-AllSame sig (threshold_of threshold) turns fail,
            )),
      )
