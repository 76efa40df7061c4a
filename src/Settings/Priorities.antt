-- ===== src/Settings/Priorities.antt =====
-- Which of the overrides for all calls takes effect (services/llm_config_service.py).
use mathlib.Core.Option.{some-injective, none-ne-some}
use backend_template.Prelude.{
  ℕ, String, str_eq, ◌≡◌, refl, subst, ap, ◌∙◌, Bool, true, false, ◌&&◌, Option, none, some, List,
  [], ◌∷◌, arith, Bool-cases, Option-cases, inl, inr, if◌then◌else◌,
}
use backend_template.Prelude.Int.{ℤ, leb_ℤ}
use backend_template.Values.{Fields}
use backend_template.Settings.{
  Scope, global, model, agent, same_scope, Override, Overrides, current, insert_by_priority,
  by_priority, add_overrides, add_override_to, overrides_at, no_overrides,
}
use backend_template.ParamPolicy.{get}
use backend_template.ParamPolicy.Targets.{get-assign}

-- an override for all calls of this key
abbrev pub is_for : String → Override → Bool
is_for key o = same_scope o.scope global && str_eq o.config_key key

-- Of the overrides for all calls of a key: one of the lowest priority, and of those the last.
unfoldable pub lowest : String → List Override → Option Override
lowest key [] = none
lowest key (o ∷ os) =
    let rest = lowest key os in
    if is_for key o
    then elim rest [
      | none ↦ some o
      | some p ↦ if leb_ℤ p.priority o.priority then some p else some o
    ]
    else rest

unfoldable last_for : String → List Override → Option Override
last_for key [] = none
last_for key (o ∷ os) = elim (last_for key os) [
  | some p ↦ some p
  | none ↦ if is_for key o then some o else none
]

abbrev value_of : Option Override → Option Fields → Option Fields
value_of none old = old
value_of (some o) old = some o.config_value

get-add_override_to :
    (key : String) (scope : Scope) (o : Override) (r : Overrides)
    → get key (add_override_to scope o r).global_dict ≡ (
        if same_scope scope global && str_eq o.config_key key
        then some o.config_value
        else get key r.global_dict)
get-add_override_to key global o r = get-assign key o.config_key o.config_value r.global_dict
get-add_override_to key model o r = refl
get-add_override_to key agent o r = refl

get-add_overrides :
    (key : String) (os : List Override) (r : Overrides)
    → get key (add_overrides os r).global_dict ≡ value_of (last_for key os) (get key r.global_dict)
unfolding add_overrides last_for
get-add_overrides key [] r = refl
get-add_overrides key (o ∷ os) r =
    get-add_overrides key os (add_override_to o.scope o r)
    ∙ ap (value_of (last_for key os)) (get-add_override_to key o.scope o r)
    ∙ ground arith

-- the rows come in the order of their priorities, the highest first
abbrev Descends : Override → List Override → Type 0
Descends o [] = Unit
Descends o (p ∷ ps) = leb_ℤ p.priority o.priority ≡ true

abbrev IsSorted : List Override → Type 0
IsSorted [] = Unit
IsSorted (o ∷ os) = Descends o os × IsSorted os

leb_ℤ_trans : (a b c : ℤ) → leb_ℤ a b ≡ true → leb_ℤ b c ≡ true → leb_ℤ a c ≡ true
leb_ℤ_trans a b c p q = ground arith

last_for-below :
    (key : String) (o q : Override) (ps : List Override)
    → Descends o ps
    → IsSorted ps
    → last_for key ps ≡ some q
    → leb_ℤ q.priority o.priority ≡ true
unfolding last_for
last_for-below key o q [] d k h = ground arith
last_for-below key o q (p ∷ ps) d (e, k) h = elim (Option-cases (last_for key ps)) [
  | inl n ↦ elim (Bool-cases (is_for key p)) [
    | inl f ↦
        subst (λ x. leb_ℤ x.priority o.priority ≡ true)
          (some-injective _ _ (rw (last_for, n, f) at h)) d
    | inr f ↦ absurd (none-ne-some q (rw (last_for, n, f) at h))
  ]
  | inr (r, n) ↦
      let same : r ≡ q = some-injective _ _ (rw (last_for, n) at h) in
      leb_ℤ_trans q.priority p.priority o.priority
        (last_for-below key p q ps e k (n ∙ ap some same)) d
]

-- a row that comes before the others of its list, one of which is new
before_insert :
    (o p : Override) (a rest : Option Override) (is_o is_p : Bool) (low : Override → Bool)
    → a ≡ (
        if is_o
        then elim rest [ none ↦ some o | some q ↦ if low q then some q else some o ]
        else rest)
    → low p ≡ false
    → let all : Option Override = elim rest [
      | some q ↦ some q
      | none ↦ if is_p then some p else none
    ] in
      elim a [ some q ↦ some q | none ↦ if is_p then some p else none ] ≡ (
        if is_o
        then elim all [ none ↦ some o | some q ↦ if low q then some q else some o ]
        else all)
before_insert o p a none true true low e f = rw (e, f) refl
before_insert o p a none true false low e f = rw e refl
before_insert o p a none false is_p low e f = rw e refl
before_insert o p a (some q) false is_p low e f = rw e refl
before_insert o p a (some q) true is_p low e f = elim (Bool-cases (low q)) [
  | inl g ↦ rw (e, g) refl
  | inr g ↦ rw (e, g) refl
]

Descends-insert :
    (o p : Override) (ps : List Override)
    → leb_ℤ p.priority o.priority ≡ false
    → Descends p ps
    → Descends p (insert_by_priority o ps)
unfolding insert_by_priority
Descends-insert o p [] e d = ground arith
Descends-insert o p (q ∷ ps) e d = elim (Bool-cases (leb_ℤ q.priority o.priority)) [
  | inl f ↦ rw (insert_by_priority, f) (ground arith)
  | inr f ↦ rw (insert_by_priority, f) d
]

insert-IsSorted :
    (o : Override) (ps : List Override) → IsSorted ps → IsSorted (insert_by_priority o ps)
unfolding insert_by_priority
insert-IsSorted o [] k = (tt, tt)
insert-IsSorted o (p ∷ ps) (d, k) = elim (Bool-cases (leb_ℤ p.priority o.priority)) [
  | inl e ↦ rw (insert_by_priority, e) (e, (d, k))
  | inr e ↦ rw (insert_by_priority, e) (Descends-insert o p ps e d, insert-IsSorted o ps k)
]

last_for-insert :
    (key : String) (o : Override) (ps : List Override)
    → IsSorted ps
    → last_for key (insert_by_priority o ps) ≡ (
        if is_for key o
        then elim (last_for key ps) [
          | none ↦ some o
          | some p ↦ if leb_ℤ p.priority o.priority then some p else some o
        ]
        else last_for key ps)
unfolding last_for insert_by_priority
last_for-insert key o [] k = ground arith
last_for-insert key o (p ∷ ps) (d, k) = elim (Bool-cases (leb_ℤ p.priority o.priority)) [
  | inl e ↦ elim (Option-cases (last_for key (p ∷ ps))) [
    | inl n ↦ rw (insert_by_priority, e) (ground arith)
    | inr (q, n) ↦
        let low = last_for-below key o q (p ∷ ps) e (d, k) n in
        rw (insert_by_priority, e) (ground arith)
  ]
  | inr e ↦
      rw (insert_by_priority, e)
        (before_insert o p (last_for key (insert_by_priority o ps)) (last_for key ps) (is_for key o)
          (is_for key p) (λ q. leb_ℤ q.priority o.priority) (last_for-insert key o ps k) e)
]

by_priority-IsSorted : (os : List Override) → IsSorted (by_priority os)
unfolding by_priority
by_priority-IsSorted [] = tt
by_priority-IsSorted (o ∷ os) = insert-IsSorted o (by_priority os) (by_priority-IsSorted os)

last_for-by_priority :
    (key : String) (os : List Override) → last_for key (by_priority os) ≡ lowest key os
unfolding by_priority lowest
last_for-by_priority key [] = unfold last_for in refl
last_for-by_priority key (o ∷ os) =
    rw
      (
        last_for-insert key o (by_priority os) (by_priority-IsSorted os),
        last_for-by_priority key os,
      )
      refl

-- Of the overrides for all calls that are current at a time, the one that takes effect for a key is one of the
-- lowest priority; of several, the last in the table.
pub overrides_at-lowest :
    (t : ℕ) (rows : List Override) (key : String)
    → get key (overrides_at t rows).global_dict
      ≡ elim (lowest key (current t rows)) [ none ↦ none | some o ↦ some o.config_value ]
unfolding overrides_at get
overrides_at-lowest t rows key =
    get-add_overrides key (by_priority (current t rows)) no_overrides
    ∙ rw (last_for-by_priority key (current t rows))
        (elim (Option-cases (lowest key (current t rows))) [
          | inl e ↦ rw e refl
          | inr (o, e) ↦ rw e refl
        ])
