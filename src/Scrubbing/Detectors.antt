-- ===== src/Scrubbing/Detectors.antt =====
-- The detectors that a product adds, and `redact_pii_text` (observability/sentry_scrubbing.py). A call that
-- raises gives none.
use Prim.Native.String.{◌++◌}
use backend_template.Prelude.{String, Option, none, some, List, [], ◌∷◌}
use backend_template.ParamPolicy.{assign}
use backend_template.Scrubbing.{redacted}

-- `Detector`: the `sub` of its pattern, by the replacement and the text
pub record Detector : Type 0 where
  pub name : String
  pub pattern : Option (String → String → Option String)
  pub redactor : Option (String → Option String)
  pub label : String
  pub replacement : String

-- What is registered: a detector, a pattern with its text, a callable with its name, or something else.
pub data Given : Type 0 where
  detector : Detector → Given
  regex : String → (String → String → Option String) → Given
  callable : String → (String → Option String) → Given
  other : Given

-- `_coerce_detector`
unfoldable pub coerce_detector : Given → Option Detector
coerce_detector (detector d) = some d
coerce_detector (regex text sub) = some (record {
  name = "pattern:" ++ text;
  pattern = some sub;
  redactor = none;
  label = "PII";
  replacement = redacted;
})
coerce_detector (callable name f) = some (record {
  name = "callable:" ++ name;
  pattern = none;
  redactor = some f;
  label = "PII";
  replacement = redacted;
})
coerce_detector other = none

-- `register_extra_detectors`
unfoldable pub register_extra_detectors :
    List Given → List (String × Detector) → List (String × Detector)
register_extra_detectors [] detectors = detectors
register_extra_detectors (given ∷ more) detectors = elim (coerce_detector given) [
  | none ↦ register_extra_detectors more detectors
  | some d ↦ register_extra_detectors more (assign d.name d detectors)
]

-- one round of `_apply_extra_detectors`
unfoldable pub apply_detector : Detector → String → Option String
apply_detector d text = elim d.pattern [
  | some sub ↦ sub d.replacement text
  | none ↦ elim d.redactor [ some f ↦ f text | none ↦ some text ]
]

-- `_apply_extra_detectors`
unfoldable pub apply_extra_detectors : List (String × Detector) → String → String
apply_extra_detectors [] text = text
apply_extra_detectors ((name, d) ∷ more) text = elim (apply_detector d text) [
  | none ↦ apply_extra_detectors more text
  | some changed ↦ apply_extra_detectors more changed
]

-- The substitutions by the module's own patterns, each from text to text.
pub record Patterns : Type 0 where
  pub bearer : String → String
  pub secret : String → String
  pub url_secret : String → String
  pub email : String → String
  pub iban : String → String
  pub long_digits : String → String

-- `_redact_str`
unfoldable pub redact_str : Patterns → List (String × Detector) → String → String
redact_str p detectors text =
    p.long_digits
      (apply_extra_detectors detectors (p.iban (p.email (p.url_secret (p.secret (p.bearer text))))))

-- `redact_pii_text`, with the configured backend's `redact_fast`
unfoldable pub redact_pii_text :
    (String → Option String) → Patterns → List (String × Detector) → String → String
redact_pii_text redact_fast p detectors text = elim (redact_fast text) [
  | some safe ↦ safe
  | none ↦ redact_str p detectors text
]
