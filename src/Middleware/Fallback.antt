-- ===== src/Middleware/Fallback.antt =====
-- Fallback models (agents/middleware/model_fallback.py). A call of a model takes the state of the world and
-- returns its outcome and the state after it. The asynchronous method makes the same calls.
pub mod Attempts
use backend_template.Prelude.{Bool, true, false, Option, none, some, List, [], ◌∷◌, if◌then◌else◌}

-- An answer, GraphInterrupt, AgentCancelled, or another exception.
pub data Outcome (A E : Type 0) : Type 0 where
  answered : A → Outcome A E
  interrupted : Outcome A E
  cancelled : Outcome A E
  failed : E → Outcome A E

-- What the cancel check returns; `raises` is an exception other than AgentCancelled, and a check that raises
-- AgentCancelled counts as `says true`.
pub data Check : Type 0 where
  says : Bool → Check
  raises : Check

module _ {W : Type 0} where
  abbrev pub is_raised : Check × W → Bool × W
  is_raised (says b, w) = (b, w)
  is_raised (raises, w) = (false, w)

module _ {W A E : Type 0} where
  -- `except Exception as e: last_exception = e`; what else an attempt gives ends the call
  abbrev pub unless_failed : (E → W → Outcome A E × W) → Outcome A E × W → Outcome A E × W
  unless_failed next (answered a, w) = (answered a, w)
  unless_failed next (interrupted, w) = (interrupted, w)
  unless_failed next (cancelled, w) = (cancelled, w)
  unless_failed next (failed e, w) = next e w

module _ {W M A E : Type 0} (handler : M → W → Outcome A E × W)
    (cancel_check : Option (W → Check × W)) where
  -- `_raise_if_cancelled`: whether it raises
  abbrev pub raise_if_cancelled : W → Bool × W
  raise_if_cancelled w = elim cancel_check [ none ↦ (false, w) | some check ↦ is_raised (check w) ]

  -- the loop over the fallback models, after an exception
  unfoldable pub try_fallbacks : List M → E → W → Outcome A E × W
  try_fallbacks [] e w = (failed e, w)
  try_fallbacks (model ∷ models) e w =
      let (raised, checked) = raise_if_cancelled w in
      if raised
      then (cancelled, checked)
      else unless_failed (try_fallbacks models) (handler model checked)

  -- `wrap_model_call`
  unfoldable pub wrap_model_call : M → List M → W → Outcome A E × W
  wrap_model_call primary models w = unless_failed (try_fallbacks models) (handler primary w)
