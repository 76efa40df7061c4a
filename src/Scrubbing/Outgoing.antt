-- ===== src/Scrubbing/Outgoing.antt =====
-- What an event holds when it leaves (observability/sentry_scrubbing.py).
use backend_template.Prelude.{
  String, ◌≡◌, refl, false, Option, none, some, Option-cases, ◌⊎◌, inl, inr,
}
use backend_template.Values.{Value, Fields, find}
use backend_template.Prelude.Options.{◌>>=◌}
use backend_template.ParamPolicy.{mem}
use backend_template.Scrubbing.Events.{pick, minimal_keys, run_steps, steps, scrub_event}
use backend_template.Scrubbing.Finding.{find-run_steps, find-pick, stepped}
use backend_template.Scrubbing.Sections.{
  TextSafe, SectionClean, IdOnly, LogClean, text-safe, section-clean, id-only, log-clean,
}
use backend_template.Scrubbing.Traces.{ExceptionClean, exception-clean}
use backend_template.Scrubbing.Requests.{RequestClean, request-clean}

module _ (lower : String → String) (redact_text : String → String) where
  scrub_event_lem :
      (event : Fields)
      → (scrub_event lower redact_text event ≡ pick minimal_keys event)
        ⊎ ((e : Fields) × (run_steps (steps lower redact_text) event ≡ some e)
            × (scrub_event lower redact_text event ≡ e))
  unfolding scrub_event
  scrub_event_lem event = elim (Option-cases (run_steps (steps lower redact_text) event)) [
    | inl raised ↦ inl (rw (scrub_event, raised) refl)
    | inr (e, done) ↦ inr (e, done, rw (scrub_event, done) refl)
  ]

  -- what goes for a key of the event that is sent, from what the steps make of any value under it
  leaves :
      (P : Option Value → Type 0) (k : String)
      → mem k minimal_keys ≡ false
      → P none
      → ((v : Value) → P (stepped k (steps lower redact_text) v))
      → (event : Fields) → P (find k (scrub_event lower redact_text event))
  leaves P k other P-none P-stepped event = elim (scrub_event_lem event) [
    | inl minimal ↦ rw (minimal, find-pick k minimal_keys event other) P-none
    | inr (e, done, sent) ↦
        rw (sent, find-run_steps k (steps lower redact_text) event e done) (each (find k event))
  ]
    where
      each : (o : Option Value) → P (o >>= stepped k (steps lower redact_text))
      each none = P-none
      each (some v) = P-stepped v

  -- What may stand under the keys of an event that is sent.
  unfoldable pub IsScrubbed : Fields → Type 0
  IsScrubbed event =
      RequestClean lower redact_text (find "request" event)
      × IdOnly lower redact_text (find "user" event)
      × ExceptionClean lower redact_text (find "exception" event)
      × LogClean lower redact_text (find "logentry" event)
      × TextSafe lower redact_text (find "message" event)
      × SectionClean lower redact_text (find "extra" event)
      × SectionClean lower redact_text (find "contexts" event)
      × SectionClean lower redact_text (find "tags" event)

  -- Whatever event `scrub_event` gets, the event that it returns, the minimal one after an exception included,
  -- holds under "request" a dict with a redacted "url" and "method" and with allowed headers at most, under "user" a
  -- dict with an "id" at most, under "exception" entries whose messages are redacted and whose frames have no
  -- variables, and under "logentry", "message", "extra", "contexts" and "tags" only redacted texts, as far as the
  -- values there have the type that the code asks for.
  pub scrub_event-IsScrubbed : (event : Fields) → IsScrubbed (scrub_event lower redact_text event)
  unfolding IsScrubbed RequestClean IdOnly ExceptionClean LogClean TextSafe SectionClean stepped mem
  scrub_event-IsScrubbed event = (
    leaves (RequestClean lower redact_text) "request" refl tt (request-clean lower redact_text)
        event,
    leaves (IdOnly lower redact_text) "user" refl tt (id-only lower redact_text) event,
    leaves (ExceptionClean lower redact_text) "exception" refl tt
        (exception-clean lower redact_text) event,
    leaves (LogClean lower redact_text) "logentry" refl tt (log-clean lower redact_text) event,
    leaves (TextSafe lower redact_text) "message" refl tt (text-safe lower redact_text) event,
    leaves (SectionClean lower redact_text) "extra" refl tt (section-clean lower redact_text) event,
    leaves (SectionClean lower redact_text) "contexts" refl tt (section-clean lower redact_text)
        event,
    leaves (SectionClean lower redact_text) "tags" refl tt (section-clean lower redact_text) event,
  )
