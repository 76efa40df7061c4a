-- ===== src/Tests/Scrubbing.antt =====
-- An event with a user, a request and extra data.
use backend_template.Prelude.{if◌then◌else◌, String, ◌≡◌, refl, none, [], ◌∷◌, str_eq}
use backend_template.Values.{text, Value, str, list, dict, nil, cons, Fields, end, field}
use backend_template.Scrubbing.{redact, redacted}
use backend_template.Scrubbing.Events.{scrub_event}
use backend_template.Scrubbing.Detectors.{
  Detector, Given, callable, Patterns, register_extra_detectors, redact_pii_text,
}
use backend_template.Scrubbing.Outgoing.{IsScrubbed, scrub_event-IsScrubbed}

abbrev lower : String → String
lower s = if str_eq s "Token" then "token" else s

abbrev patterns : Patterns
patterns = record {
  bearer = λ s. s;
  secret = λ s. if str_eq s "sk-12345678" then redacted else s;
  url_secret = λ s. s;
  email = λ s. if str_eq s "a@b.pl" then redacted else s;
  iban = λ s. s;
  long_digits = λ s. s;
}

abbrev redact_text : String → String
redact_text =
    redact_pii_text (λ s. none) patterns
      (register_extra_detectors (callable "raises" (λ s. none) ∷ []) [])

abbrev extra : Value
extra = dict (
    field (text "Token") (str "abc")
      (field (text "mails") (list (cons (str "a@b.pl") (cons (str "hello") nil))) end))

abbrev event : Fields
event = field (text "message") (str "a@b.pl") (
    field (text "user")
      (dict (field (text "id") (str "7") (field (text "email") (str "a@b.pl") end)))
      (field (text "extra") extra end))

texts_are_hidden :
    redact lower redact_text extra 0
    ≡ dict (
        field
          (text "Token")
          (str redacted)
          (field (text "mails") (list (cons (str redacted) (cons (str "hello") nil))) end))
unfolding redact backend_template.Scrubbing.is_sensitive backend_template.ParamPolicy.mem
    redact_pii_text register_extra_detectors backend_template.Scrubbing.Detectors.redact_str
    backend_template.Scrubbing.Detectors.apply_extra_detectors
    backend_template.Scrubbing.Detectors.apply_detector
    backend_template.Scrubbing.Detectors.coerce_detector backend_template.ParamPolicy.assign
texts_are_hidden = refl

scrub_event-IsScrubbed_example : IsScrubbed lower redact_text (scrub_event lower redact_text event)
scrub_event-IsScrubbed_example = scrub_event-IsScrubbed lower redact_text event
