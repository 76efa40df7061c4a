-- ===== src/Scrubbing/Finding.antt =====
-- What is found in a dict after changes, and in an event after the steps of `scrub_event`
-- (observability/sentry_scrubbing.py).
use backend_template.Prelude.{
  String, ◌≡◌, refl, sym, ◌∙◌, false, Option, none, some, List, [], ◌∷◌, str_eq, eq_iff, arith,
  Option-cases, Bool-cases, ◌⊎◌, inl, inr, if◌then◌else◌,
}
use backend_template.Values.{text, number, Value, dict, Fields, end, field, is_key, find, put}
use backend_template.Prelude.Options.{◌>>=◌}
use backend_template.ParamPolicy.{mem}
use backend_template.Scrubbing.Events.{change, pick, run_steps}

pub find-put :
    (k j : String) (v : Value) (d : Fields)
    → find k (put j v d) ≡ (if str_eq j k then some v else find k d)
unfolding find put is_key
find-put k j v end = refl
find-put k j v (field (number n) w d) = find-put k j v d
find-put k j v (field (text i) w d) =
    ground (arith, find-put k j v d, eq_iff i j, eq_iff i k, eq_iff j k)

-- What is found under a key after a list of steps: what was found before, changed by the steps for that key.
unfoldable pub stepped : String → List (String × (Value → Option Value)) → Value → Option Value
stepped k [] v = some v
stepped k ((j, f) ∷ more) v = (if str_eq j k then f v else some v) >>= stepped k more

-- `change` in terms of what it finds, and of what it makes of that
change_lem :
    (j : String) (f : Value → Option Value) (d e : Fields)
    → change j f d ≡ some e
    → ((find j d ≡ none) × (e ≡ d))
      ⊎ ((v : Value) × (new : Value) × (find j d ≡ some v) × (f v ≡ some new) × (e ≡ put j new d))
unfolding change
change_lem j f d e h = elim (Option-cases (find j d)) [
  | inl none_found ↦ inl (none_found, ground arith)
  | inr (v, found) ↦ elim (Option-cases (f v)) [
    | inl raised ↦ ground arith
    | inr (new, done) ↦ inr (v, new, found, done, ground arith)
  ]
]

pub find-change_same :
    (j : String) (f : Value → Option Value) (d e : Fields)
    → change j f d ≡ some e
    → find j e ≡ (find j d >>= f)
find-change_same j f d e h = elim (change_lem j f d e h) [
  | inl (none_found, same) ↦ rw (same, none_found) refl
  | inr (v, new, found, done, is_put) ↦
      rw (is_put, found, done) (find-put j j new d ∙ ground (arith, eq_iff j j))
]

pub find-change_other :
    (k j : String) (f : Value → Option Value) (d e : Fields)
    → change j f d ≡ some e
    → str_eq j k ≡ false
    → find k e ≡ find k d
find-change_other k j f d e h other = elim (change_lem j f d e h) [
  | inl (none_found, same) ↦ rw same refl
  | inr (v, new, found, done, is_put) ↦ rw is_put (find-put k j new d ∙ ground arith)
]

find-change :
    (k j : String) (f : Value → Option Value) (d e : Fields)
    → change j f d ≡ some e
    → find k e ≡ (find k d >>= λ v. if str_eq j k then f v else some v)
find-change k j f d e h = elim (Bool-cases (str_eq j k)) [
  | inl same ↦ rw (same, sym ((eq_iff j k).0 same)) (find-change_same j f d e h)
  | inr other ↦ rw other (find-change_other k j f d e h other ∙ ground arith)
]

pub find-run_steps :
    (k : String) (fs : List (String × (Value → Option Value))) (d e : Fields)
    → run_steps fs d ≡ some e
    → find k e ≡ (find k d >>= stepped k fs)
unfolding run_steps stepped
find-run_steps k [] d e h = ground arith
find-run_steps k ((j, f) ∷ more) d e h = elim (Option-cases (change j f d)) [
  | inl raised ↦ ground arith
  | inr (d', done) ↦
      find-run_steps k more d' e (ground arith) ∙ rw (find-change k j f d d' done) (ground arith)
]

pub find-pick :
    (k : String) (names : List String) (d : Fields)
    → mem k names ≡ false
    → find k (pick names d) ≡ none
unfolding pick mem find is_key
find-pick k [] d h = refl
find-pick k (name ∷ names) d h = ground (arith, find-pick k names d, eq_iff k name, eq_iff name k)

-- a predicate on what is found after a change
pub change-P :
    (P : Option Value → Type 0) (k : String) (f : Value → Option Value) (d e : Fields)
    → change k f d ≡ some e
    → P none
    → ((v : Value) → P (f v))
    → P (find k e)
change-P P k f d e h P-none P-f = rw (find-change_same k f d e h) (each (find k d))
  where
    each : (o : Option Value) → P (o >>= f)
    each none = P-none
    each (some v) = P-f v

pub ends : (P : Option Value → Type 0) (o : Option Value) → P o → P (o >>= some)
ends P none h = h
ends P (some v) h = h

-- a predicate on the dict that one change, or two at different keys, make
pub one-change :
    (Q : Option Value → Type 0) (P : Option Value → Type 0) (k : String) (f : Value → Option Value)
    (d : Fields)
    → Q none
    → P none
    → ((v : Value) → P (f v))
    → ((e : Fields) → P (find k e) → Q (some (dict e)))
    → Q (change k f d >>= λ e. some (dict e))
one-change Q P k f d Q-none P-none P-f Q-dict = elim (Option-cases (change k f d)) [
  | inl raised ↦ rw raised Q-none
  | inr (e, done) ↦ rw done (Q-dict e (change-P P k f d e done P-none P-f))
]

pub two-changes :
    (Q P R : Option Value → Type 0) (j k : String) (f g : Value → Option Value) (d : Fields)
    → str_eq k j ≡ false
    → Q none
    → P none
    → ((v : Value) → P (f v))
    → R none
    → ((v : Value) → R (g v))
    → ((e : Fields) → P (find j e) → R (find k e) → Q (some (dict e)))
    → Q (change j f d >>= λ e. change k g e >>= λ e'. some (dict e'))
two-changes Q P R j k f g d differ Q-none P-none P-f R-none R-g Q-dict =
    elim (Option-cases (change j f d)) [
      | inl raised ↦ rw raised Q-none
      | inr (e, first) ↦ rw first (elim (Option-cases (change k g e)) [
        | inl raised ↦ rw raised Q-none
        | inr (e', second) ↦ rw second (
            Q-dict e'
              (rw (find-change_other j k g e e' second differ)
                (change-P P j f d e first P-none P-f))
              (change-P R k g e e' second R-none R-g))
      ])
    ]
