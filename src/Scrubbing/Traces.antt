-- ===== src/Scrubbing/Traces.antt =====
-- What `scrub_event` leaves in an exception (observability/sentry_scrubbing.py).
use backend_template.Prelude.{
  String, ◌≡◌, refl, Bool, true, false, Option, none, some, Bool-cases, inl, inr, if◌then◌else◌,
}
use backend_template.Values.{
  Value, null, bool, int, float, str, list, tuple, dict, Items, nil, cons, Fields, end, field,
  is_key, find, pop, is_truthy,
}
use backend_template.Prelude.Options.{◌>>=◌}
use backend_template.Scrubbing.Events.{exception_step}
use backend_template.Scrubbing.Finding.{ends, one-change, two-changes}
use backend_template.Scrubbing.Events.{
  scrub_frame, scrub_frames, scrub_stacktrace, scrub_entry, scrub_entries, scrub_values, map_items,
}
use backend_template.Scrubbing.Sections.{TextSafe, text-safe_once}

find-pop : (k : String) (d : Fields) → find k (pop k d) ≡ none
unfolding find pop
find-pop k end = refl
find-pop k (field key v d) = elim (Bool-cases (is_key k key)) [
  | inl e ↦ rw e (find-pop k d)
  | inr e ↦ rw (e, e) (find-pop k d)
]

-- No frame has variables.
unfoldable pub FrameBare : Value → Type 0
FrameBare (dict frame) = find "vars" frame ≡ none
FrameBare _ = Unit

unfoldable pub FramesBare : Items → Type 0
FramesBare nil = Unit
FramesBare (cons v vs) = FrameBare v × FramesBare vs

unfoldable pub ListBare : Option Value → Type 0
ListBare (some (list frames)) = FramesBare frames
ListBare _ = Unit

unfoldable pub TraceBare : Option Value → Type 0
TraceBare (some (dict trace)) = ListBare (find "frames" trace)
TraceBare _ = Unit

frame-bare : (v : Value) → FrameBare (scrub_frame v)
unfolding FrameBare
frame-bare null = tt
frame-bare (bool b) = tt
frame-bare (int n) = tt
frame-bare (float x) = tt
frame-bare (str s) = tt
frame-bare (list vs) = tt
frame-bare (tuple vs) = tt
frame-bare (dict d) = find-pop "vars" d

frames-bare : (vs : Items) → FramesBare (map_items scrub_frame vs)
unfolding FramesBare
frames-bare nil = tt
frames-bare (cons v vs) = (frame-bare v, frames-bare vs)

list-bare : (v : Value) → ListBare (scrub_frames v)
unfolding ListBare
list-bare null = tt
list-bare (bool b) = tt
list-bare (int n) = tt
list-bare (float x) = tt
list-bare (str s) = tt
list-bare (list vs) = frames-bare vs
list-bare (tuple vs) = tt
list-bare (dict d) = tt

either :
    (P : Option Value → Type 0) (b : Bool) (v : Value)
    → P none
    → P (some v)
    → P (if b then none else some v)
either P true v p q = p
either P false v p q = q

trace-bare : (v : Value) → TraceBare (scrub_stacktrace v)
unfolding TraceBare ListBare scrub_stacktrace is_truthy
trace-bare null = tt
trace-bare (bool b) = either TraceBare (is_truthy (bool b)) (bool b) tt tt
trace-bare (int n) = either TraceBare (is_truthy (int n)) (int n) tt tt
trace-bare (float x) = either TraceBare (is_truthy (float x)) (float x) tt tt
trace-bare (str s) = either TraceBare (is_truthy (str s)) (str s) tt tt
trace-bare (list vs) = either TraceBare (is_truthy (list vs)) (list vs) tt tt
trace-bare (tuple vs) = either TraceBare (is_truthy (tuple vs)) (tuple vs) tt tt
trace-bare (dict d) =
    one-change TraceBare ListBare "frames" scrub_frames d tt tt list-bare (λ e bare. bare)

module _ (lower : String → String) (redact_text : String → String) where
  -- An entry's message is safe, and its stack trace is bare.
  unfoldable pub EntryClean : Value → Type 0
  EntryClean (dict entry) =
      TextSafe lower redact_text (find "value" entry) × TraceBare (find "stacktrace" entry)
  EntryClean _ = ⊥

  unfoldable pub EntriesClean : Items → Type 0
  EntriesClean nil = Unit
  EntriesClean (cons v vs) = EntryClean v × EntriesClean vs

  unfoldable pub ValuesClean : Option Value → Type 0
  ValuesClean (some (list entries)) = EntriesClean entries
  ValuesClean (some (tuple entries)) = EntriesClean entries
  ValuesClean _ = Unit

  unfoldable pub ExceptionClean : Option Value → Type 0
  ExceptionClean (some (dict exception)) = ValuesClean (find "values" exception)
  ExceptionClean _ = Unit

  EntryLeft : Option Value → Type 0
  EntryLeft none = Unit
  EntryLeft (some v) = EntryClean v

  entry-clean : (v : Value) → EntryLeft (scrub_entry lower redact_text v)
  unfolding EntryLeft EntryClean TextSafe TraceBare scrub_entry
  entry-clean null = tt
  entry-clean (bool b) = tt
  entry-clean (int n) = tt
  entry-clean (float x) = tt
  entry-clean (str s) = tt
  entry-clean (list vs) = tt
  entry-clean (tuple vs) = tt
  entry-clean (dict d) =
      two-changes EntryLeft (TextSafe lower redact_text) TraceBare "value" "stacktrace" _ _ d refl
        tt tt (text-safe_once lower redact_text) tt trace-bare (λ e safe bare. (safe, bare))

  EntriesLeft : Option Items → Type 0
  EntriesLeft none = Unit
  EntriesLeft (some vs) = EntriesClean vs

  both :
      (v : Option Value) (vs : Option Items)
      → EntryLeft v
      → EntriesLeft vs
      → EntriesLeft (v >>= λ new. vs >>= λ news. some (cons new news))
  unfolding EntryLeft EntriesLeft EntriesClean
  both none vs p q = tt
  both (some v) none p q = tt
  both (some v) (some vs) p q = (p, q)

  entries-clean : (vs : Items) → EntriesLeft (scrub_entries lower redact_text vs)
  unfolding EntriesLeft EntriesClean scrub_entries
  entries-clean nil = tt
  entries-clean (cons v vs) = both _ _ (entry-clean v) (entries-clean vs)

  looped :
      (c : Items → Value) (vs : Option Items)
      → ((news : Items) → EntriesClean news → ValuesClean (some (c news)))
      → EntriesLeft vs
      → ValuesClean (vs >>= λ news. some (c news))
  unfolding EntriesLeft ValuesClean
  looped c none f p = tt
  looped c (some vs) f p = f vs p

  values-clean : (v : Value) → ValuesClean (scrub_values lower redact_text v)
  unfolding ValuesClean scrub_values is_truthy
  values-clean null = tt
  values-clean (bool b) = either ValuesClean (is_truthy (bool b)) (bool b) tt tt
  values-clean (int n) = either ValuesClean (is_truthy (int n)) (int n) tt tt
  values-clean (float x) = either ValuesClean (is_truthy (float x)) (float x) tt tt
  values-clean (str s) = either ValuesClean (is_truthy (str s)) (str s) tt tt
  values-clean (list vs) = looped list _ (λ news p. p) (entries-clean vs)
  values-clean (tuple vs) = looped tuple _ (λ news p. p) (entries-clean vs)
  values-clean (dict d) = either ValuesClean (is_truthy (dict d)) (dict d) tt tt

  pub exception-clean : (v : Value) → ExceptionClean (exception_step lower redact_text v >>= some)
  unfolding ExceptionClean ValuesClean exception_step
  exception-clean null = tt
  exception-clean (bool b) = tt
  exception-clean (int n) = tt
  exception-clean (float x) = tt
  exception-clean (str s) = tt
  exception-clean (list vs) = tt
  exception-clean (tuple vs) = tt
  exception-clean (dict d) =
      ends ExceptionClean _
        (one-change ExceptionClean ValuesClean "values" _ d tt tt values-clean (λ e clean. clean))
