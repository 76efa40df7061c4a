-- ===== src/Middleware/Fallback/Attempts.antt =====
-- Which models a call with fallbacks tries (agents/middleware/model_fallback.py).
use backend_template.Prelude.{
  ℕ, suc, ◌≡◌, refl, ◌∙◌, subst, Bool, true, false, some, List, [], ◌∷◌, ◌++◌, length,
  length-append, append_assoc, Bool-cases, ◌⊎◌, inl, inr, arith,
}
use backend_template.Middleware.Fallback.{
  Outcome, answered, interrupted, cancelled, failed, Check, says, try_fallbacks, wrap_model_call,
  unless_failed,
}

abbrev pub is_failed : {A E : Type 0} → Outcome A E → Bool
is_failed (failed e) = true
is_failed _ = false

Outcome-cases :
    {A E : Type 0} (o : Outcome A E) → (is_failed o ≡ false) ⊎ ((e : E) × (o ≡ failed e))
Outcome-cases (answered a) = inl refl
Outcome-cases interrupted = inl refl
Outcome-cases cancelled = inl refl
Outcome-cases (failed e) = inr (e, refl)

fails_at : {A E : Type 0} {o : Outcome A E} (e : E) → o ≡ failed e → is_failed o ≡ true
fails_at e fails = rw fails refl

unless_failed-final :
    {W A E : Type 0} (next : E → W → Outcome A E × W) (o : Outcome A E) (w : W)
    → is_failed o ≡ false
    → unless_failed next (o, w) ≡ (o, w)
unless_failed-final next (answered a) w h = refl
unless_failed-final next interrupted w h = refl
unless_failed-final next cancelled w h = refl
unless_failed-final next (failed e) w h = ground arith

-- How calls may go that start with the call number `n`, where `outcome` gives the outcome of each call by its
-- number and `is_cancelled` what the check says after so many calls: the models that are left, the outcome of
-- all, and the models that are called.
pub data Run {M A E : Type 0} (outcome : ℕ → Outcome A E) (is_cancelled : ℕ → Bool)
    : ℕ → List M → Outcome A E → List M → Type 0 where
  final :
      {n : ℕ} {m : M} {ms : List M}
      → is_failed (outcome n) ≡ false
      → Run outcome is_cancelled n (m ∷ ms) (outcome n) (m ∷ [])
  exhausted :
      {n : ℕ} {m : M}
      → is_failed (outcome n) ≡ true
      → Run outcome is_cancelled n (m ∷ []) (outcome n) (m ∷ [])
  stopped :
      {n : ℕ} {m m' : M} {ms : List M}
      → is_failed (outcome n) ≡ true
      → is_cancelled (suc n) ≡ true
      → Run outcome is_cancelled n (m ∷ m' ∷ ms) cancelled (m ∷ [])
  next :
      {n : ℕ} {m : M} {ms : List M} {o : Outcome A E} {log : List M}
      → is_failed (outcome n) ≡ true
      → is_cancelled (suc n) ≡ false
      → Run outcome is_cancelled (suc n) ms o log
      → Run outcome is_cancelled n (m ∷ ms) o (m ∷ log)

module _ {M A E : Type 0} (outcome : ℕ → Outcome A E) (is_cancelled : ℕ → Bool) where
  -- The world keeps the list of models that were called.
  abbrev pub handler : M → List M → Outcome A E × List M
  handler model log = (outcome (length log), log ++ (model ∷ []))

  abbrev pub check : List M → Check × List M
  check log = (says (is_cancelled (length log)), log)

  abbrev pub attempt : M → List M → List M → Outcome A E × List M
  attempt m ms log = unless_failed (try_fallbacks handler (some check) ms) (handler m log)

  -- a run from where `log` is called already
  RunsFrom : List M → M → List M → Outcome A E × List M → Type 0
  RunsFrom log m ms (o, log') =
      (called : List M) × (log' ≡ log ++ called)
      × Run outcome is_cancelled (length log) (m ∷ ms) o called

  -- after the outcome of a call
  after_outcome :
      (m : M) (ms log : List M)
      → ((e : E)
          → outcome (length log) ≡ failed e
          → RunsFrom log m ms (try_fallbacks handler (some check) ms e (log ++ (m ∷ []))))
      → RunsFrom log m ms (attempt m ms log)
  unfolding RunsFrom
  after_outcome m ms log rest = elim (Outcome-cases (outcome (length log))) [
    | inl ends ↦
        rw
          (unless_failed-final (try_fallbacks handler (some check) ms) (outcome (length log))
            (log ++ (m ∷ [])) ends)
          (m ∷ [], refl, Run.final ends)
    | inr (e, fails) ↦ rw fails (rest e fails)
  ]

  one_more : (log : List M) (m : M) → length (log ++ (m ∷ [])) ≡ suc (length log)
  one_more log m = omega (arith, length-append log (m ∷ []))

  after_failure :
      (ms : List M) (m : M) (log : List M) (e : E)
      → outcome (length log) ≡ failed e
      → RunsFrom log m ms (try_fallbacks handler (some check) ms e (log ++ (m ∷ [])))
  unfolding RunsFrom try_fallbacks
  after_failure [] m log e fails = (
    m ∷ [],
    refl,
    subst (λ o. Run outcome is_cancelled (length log) (m ∷ []) o (m ∷ [])) fails
        (Run.exhausted (fails_at e fails)),
  )
  after_failure (m' ∷ ms) m log e fails =
      let now : List M = log ++ (m ∷ []) in
      elim (Bool-cases (is_cancelled (length now))) [
        | inl c ↦ rw c (m ∷ [], refl, Run.stopped (fails_at e fails) (rw one_more at c))
        | inr c ↦
            let (called, same, run) =
              after_outcome m' ms now (λ e' f. after_failure ms m' now e' f) in
            let run_next : Run outcome is_cancelled (suc (length log)) (m' ∷ ms)
                (attempt m' ms now).0 called =
              subst (λ n. Run outcome is_cancelled n (m' ∷ ms) (attempt m' ms now).0 called)
                (one_more log m) run in
            rw c (
              m ∷ called,
              same ∙ append_assoc log (m ∷ []) called,
              Run.next (fails_at e fails) (rw one_more at c) run_next,
            )
      ]

  -- Whatever the models' outcomes are and whatever the check says after each call, the calls that
  -- `wrap_model_call` makes are a run: they go through the primary model and the fallback models in order, the next
  -- model is called only after an exception and where the check does not tell of a cancellation, and the outcome is the
  -- first that is not an exception, or AgentCancelled after a cancellation, or the last model's exception.
  pub wrap_model_call-Run :
      (primary : M) (models : List M)
      → let (o, called) = wrap_model_call handler (some check) primary models [] in
        Run outcome is_cancelled 0 (primary ∷ models) o called
  unfolding RunsFrom wrap_model_call
  wrap_model_call-Run primary models =
      let (called, same, run) =
        after_outcome primary models [] (λ e f. after_failure models primary [] e f) in
      rw same run
