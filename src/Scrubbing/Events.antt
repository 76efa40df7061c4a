-- ===== src/Scrubbing/Events.antt =====
-- The hooks for outgoing events and breadcrumbs (observability/sentry_scrubbing.py). An event is the entries of a
-- dict, no part of which stands in another place too; a call that raises gives none.
use backend_template.Prelude.{String, Option, none, some, List, [], ◌∷◌, if◌then◌else◌}
use backend_template.Values.{
  text, number, Value, str, list, tuple, dict, Items, nil, cons, Fields, end, field, find, put, pop,
  is_truthy,
}
use backend_template.Prelude.Options.{◌>>=◌}
use backend_template.ParamPolicy.{mem}
use backend_template.Scrubbing.{redact}

-- Changes the value under a key, if there is one.
unfoldable pub change : String → (Value → Option Value) → Fields → Option Fields
change name f d = elim (find name d) [
  | none ↦ some d
  | some value ↦ f value >>= λ new. some (put name new d)
]

abbrev pub map_items : (Value → Value) → Items → Items
map_items f nil = nil
map_items f (cons v vs) = cons (f v) (map_items f vs)

-- `_ALLOWED_HEADERS`
abbrev pub allowed_headers : List String
allowed_headers =
    "content-type" ∷ "content-length" ∷ "accept" ∷ "accept-language" ∷ "user-agent" ∷ "host"
    ∷ "x-request-id" ∷ []

-- `_scrub_user`
unfoldable pub scrub_user : Fields → Fields
scrub_user user = elim (find "id" user) [ none ↦ end | some id ↦ field (text "id") id end ]

-- the frames of a stack trace without their variables
abbrev pub scrub_frame : Value → Value
scrub_frame (dict frame) = dict (pop "vars" frame)
scrub_frame v = v

abbrev pub scrub_frames : Value → Option Value
scrub_frames (list frames) = some (list (map_items scrub_frame frames))
scrub_frames v = some v

-- `(entry.get("stacktrace") or {}).get("frames")`, and the loop on it
unfoldable pub scrub_stacktrace : Value → Option Value
scrub_stacktrace (dict trace) = change "frames" scrub_frames trace >>= λ new. some (dict new)
scrub_stacktrace v = if is_truthy v then none else some v

-- the body of the `try`
unfoldable pub run_steps : List (String × (Value → Option Value)) → Fields → Option Fields
run_steps [] event = some event
run_steps ((name, f) ∷ more) event = change name f event >>= run_steps more

-- the event that is sent when a step raises; no step changes a value under these keys
abbrev pub minimal_keys : List String
minimal_keys = "event_id" ∷ "timestamp" ∷ "platform" ∷ "level" ∷ "release" ∷ "environment" ∷ []

unfoldable pub pick : List String → Fields → Fields
pick [] event = end
pick (name ∷ names) event = elim (find name event) [
  | none ↦ pick names event
  | some value ↦ field (text name) value (pick names event)
]

-- `str.lower`, and `redact_pii_text`
module _ (lower : String → String) (redact_text : String → String) where
  -- a text redacted, another value as it is
  abbrev pub scrub_text : Value → Option Value
  scrub_text (str s) = some (str (redact_text s))
  scrub_text v = some v

  -- the headers that are kept
  unfoldable pub keep_headers : Fields → Option Fields
  keep_headers end = some end
  keep_headers (field (number n) value d) = none
  keep_headers (field (text key) value d) = do
    kept ← keep_headers d
    some (if mem (lower key) allowed_headers then field (text key) value kept else kept)

  abbrev pub copy_redacted : String → Fields → Fields → Fields
  copy_redacted name request scrubbed = elim (find name request) [
    | none ↦ scrubbed
    | some value ↦ put name (redact lower redact_text value 7) scrubbed
  ]

  -- `_scrub_request`
  unfoldable pub scrub_request : Fields → Option Fields
  scrub_request request =
      let scrubbed = copy_redacted "method" request (copy_redacted "url" request end) in
      elim (find "headers" request) [
        | some (dict headers) ↦
            keep_headers headers >>= λ kept. some (put "headers" (dict kept) scrubbed)
        | _ ↦ some scrubbed
      ]

  -- the body of the loop on the exception's values
  unfoldable pub scrub_entry : Value → Option Value
  scrub_entry (dict entry) = do
    redacted_entry ← change "value" scrub_text entry
    new ← change "stacktrace" scrub_stacktrace redacted_entry
    some (dict new)
  scrub_entry v = none

  unfoldable pub scrub_entries : Items → Option Items
  scrub_entries nil = some nil
  scrub_entries (cons v vs) = do new ← scrub_entry v; news ← scrub_entries vs; some (cons new news)

  -- The loop itself: of the values that are not a list or tuple, only the falsy ones can be looped over without an
  -- entry that raises.
  unfoldable pub scrub_values : Value → Option Value
  scrub_values (list entries) = scrub_entries entries >>= λ news. some (list news)
  scrub_values (tuple entries) = scrub_entries entries >>= λ news. some (tuple news)
  scrub_values v = if is_truthy v then none else some v

  -- a dict redacted, another value as it is
  abbrev pub scrub_section : Value → Option Value
  scrub_section (dict section) = some (redact lower redact_text (dict section) 0)
  scrub_section v = some v

  -- `scrub_breadcrumb`
  unfoldable pub scrub_breadcrumb : Value → Option Value
  scrub_breadcrumb (dict crumb) = do
    new ← change "message" scrub_text crumb
    crumb_without_data ← change "data" scrub_section new
    some (dict crumb_without_data)
  scrub_breadcrumb v = none

  -- `scrub_breadcrumb(crumb) or crumb`
  abbrev pub scrub_crumb : Value → Value
  scrub_crumb crumb = elim (scrub_breadcrumb crumb) [
    | none ↦ crumb
    | some new ↦ if is_truthy new then new else crumb
  ]

  abbrev pub scrub_crumbs : Value → Option Value
  scrub_crumbs (list crumbs) = some (list (map_items scrub_crumb crumbs))
  scrub_crumbs v = some v

  -- what `scrub_event` does with the value under each key
  unfoldable pub request_step : Value → Option Value
  request_step (dict request) = scrub_request request >>= λ new. some (dict new)
  request_step v = some v

  unfoldable pub user_step : Value → Option Value
  user_step (dict user) = some (dict (scrub_user user))
  user_step v = some v

  unfoldable pub exception_step : Value → Option Value
  exception_step (dict exception) =
      change "values" scrub_values exception >>= λ new. some (dict new)
  exception_step v = some v

  unfoldable pub logentry_step : Value → Option Value
  logentry_step (dict logentry) = do
    new ← change "message" scrub_text logentry
    newer ← change "params" (λ params. some (redact lower redact_text params 0)) new
    some (dict newer)
  logentry_step v = some v

  unfoldable pub breadcrumbs_step : Value → Option Value
  breadcrumbs_step (dict breadcrumbs) =
      change "values" scrub_crumbs breadcrumbs >>= λ new. some (dict new)
  breadcrumbs_step v = some v

  abbrev pub steps : List (String × (Value → Option Value))
  steps =
      ("request", request_step)
      ∷ ("user", user_step)
      ∷ ("exception", exception_step)
      ∷ ("logentry", logentry_step)
      ∷ ("message", scrub_text)
      ∷ ("extra", scrub_section)
      ∷ ("contexts", scrub_section)
      ∷ ("tags", scrub_section)
      ∷ ("breadcrumbs", breadcrumbs_step)
      ∷ []

  -- `scrub_event`
  unfoldable pub scrub_event : Fields → Fields
  scrub_event event = elim (run_steps steps event) [
    | some scrubbed ↦ scrubbed
    | none ↦ pick minimal_keys event
  ]
