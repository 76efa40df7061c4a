-- ===== src/Scrubbing/Sections.antt =====
-- What the steps of `scrub_event` leave in a text, a section, a user and a log entry
-- (observability/sentry_scrubbing.py).
use backend_template.Prelude.{String, ◌≡◌, refl, Option, none, some, Option-cases, ◌⊎◌, inl, inr}
use backend_template.Values.{
  text, Value, null, bool, int, float, str, list, tuple, dict, end, field, find,
}
use backend_template.Prelude.Options.{◌>>=◌}
use backend_template.Scrubbing.{redact}
use backend_template.Scrubbing.Clean.{IsSafe, IsClean, redact-IsClean}
use backend_template.Scrubbing.Events.{
  scrub_user, scrub_text, scrub_section, user_step, logentry_step,
}
use backend_template.Scrubbing.Finding.{ends, two-changes}

module _ (lower : String → String) (redact_text : String → String) where
  -- A text is safe.
  unfoldable pub TextSafe : Option Value → Type 0
  TextSafe (some (str s)) = IsSafe lower redact_text s
  TextSafe _ = Unit

  -- A dict is clean.
  unfoldable pub SectionClean : Option Value → Type 0
  SectionClean (some (dict section)) = IsClean lower redact_text 9 (dict section)
  SectionClean _ = Unit

  -- A user has an id at most.
  unfoldable pub IdOnly : Option Value → Type 0
  IdOnly (some (dict user)) = (user ≡ end) ⊎ ((id : Value) × (user ≡ field (text "id") id end))
  IdOnly _ = Unit

  -- A log entry's message is safe and its parameters are clean.
  unfoldable pub ParamsClean : Option Value → Type 0
  ParamsClean (some v) = IsClean lower redact_text 9 v
  ParamsClean none = Unit

  unfoldable pub LogClean : Option Value → Type 0
  LogClean (some (dict entry)) = TextSafe (find "message" entry) × ParamsClean (find "params" entry)
  LogClean _ = Unit

  pub text-safe_once : (v : Value) → TextSafe (scrub_text lower redact_text v)
  unfolding TextSafe
  text-safe_once null = tt
  text-safe_once (bool b) = tt
  text-safe_once (int n) = tt
  text-safe_once (float x) = tt
  text-safe_once (str s) = inr (s, refl)
  text-safe_once (list vs) = tt
  text-safe_once (tuple vs) = tt
  text-safe_once (dict d) = tt

  pub text-safe : (v : Value) → TextSafe (scrub_text lower redact_text v >>= some)
  text-safe v = ends TextSafe (scrub_text lower redact_text v) (text-safe_once v)

  pub section-clean : (v : Value) → SectionClean (scrub_section lower redact_text v >>= some)
  unfolding SectionClean redact
  section-clean null = tt
  section-clean (bool b) = tt
  section-clean (int n) = tt
  section-clean (float x) = tt
  section-clean (str s) = tt
  section-clean (list vs) = tt
  section-clean (tuple vs) = tt
  section-clean (dict d) = redact-IsClean lower redact_text (dict d)

  pub id-only : (v : Value) → IdOnly (user_step lower redact_text v >>= some)
  unfolding IdOnly user_step scrub_user
  id-only null = tt
  id-only (bool b) = tt
  id-only (int n) = tt
  id-only (float x) = tt
  id-only (str s) = tt
  id-only (list vs) = tt
  id-only (tuple vs) = tt
  id-only (dict d) = elim (Option-cases (find "id" d)) [
    | inl missing ↦ inl (rw (scrub_user, missing) refl)
    | inr (id, found) ↦ inr (id, rw (scrub_user, found) refl)
  ]

  pub log-clean : (v : Value) → LogClean (logentry_step lower redact_text v >>= some)
  unfolding LogClean TextSafe ParamsClean logentry_step
  log-clean null = tt
  log-clean (bool b) = tt
  log-clean (int n) = tt
  log-clean (float x) = tt
  log-clean (str s) = tt
  log-clean (list vs) = tt
  log-clean (tuple vs) = tt
  log-clean (dict d) = ends LogClean _ (
      two-changes LogClean TextSafe ParamsClean "message" "params" _ _ d refl tt tt text-safe_once
        tt (redact-IsClean lower redact_text) (λ e safe clean. (safe, clean)))
