-- ===== src/Usage/Fragments.antt =====
-- The fragments of a streamed usage (llm/usage_logging.py).
use backend_template.Prelude.{
  ℕ, ◌+◌, String, str_eq, eq_iff, ◌≡◌, refl, ◌∙◌, List, [], ◌∷◌, arith, Bool-cases, inl, inr,
  if◌then◌else◌,
}
use backend_template.Usage.{Dict, or_zero, accumulate}
use backend_template.ParamPolicy.{get, assign}
use backend_template.ParamPolicy.Targets.{get-assign}

-- the calls of `accumulate` for the fragments of a stream
unfoldable pub accumulate_all : List (Dict ℕ) → Dict ℕ → Dict ℕ
unfolding accumulate
accumulate_all [] usage = usage
accumulate_all (f ∷ fs) usage = accumulate_all fs (accumulate f usage)

-- the sum of a fragment's counts for a key
unfoldable pub sum_of : String → Dict ℕ → ℕ
sum_of key [] = 0
sum_of key ((k, n) ∷ f) = let rest = sum_of key f in if str_eq k key then n + rest else rest

unfoldable pub sum_all : String → List (Dict ℕ) → ℕ
unfolding sum_of
sum_all key [] = 0
sum_all key (f ∷ fs) = sum_of key f + sum_all key fs

get-accumulate :
    (key : String) (f usage : Dict ℕ)
    → or_zero (get key (accumulate f usage)) ≡ or_zero (get key usage) + sum_of key f
unfolding accumulate sum_of
get-accumulate key [] usage = omega arith
get-accumulate key ((k, n) ∷ f) usage =
    let rest = get-accumulate key f (assign k (or_zero (get k usage) + n) usage) in
    let here = get-assign key k (or_zero (get k usage) + n) usage in
    elim (Bool-cases (str_eq k key)) [
      | inl e ↦ rw e (rest ∙ rw (here, e, (eq_iff k key).0 e) (omega arith))
      | inr e ↦ rw e (rest ∙ rw (here, e) refl)
    ]

get-accumulate_all_from :
    (key : String) (fs : List (Dict ℕ)) (usage : Dict ℕ)
    → or_zero (get key (accumulate_all fs usage)) ≡ or_zero (get key usage) + sum_all key fs
unfolding accumulate_all sum_all
get-accumulate_all_from key [] usage = omega arith
get-accumulate_all_from key (f ∷ fs) usage =
    let rest = get-accumulate_all_from key fs (accumulate f usage) in
    omega (arith, rest, get-accumulate key f usage)

-- However a stream cuts its usage into fragments: what is accumulated for a key is the sum of the fragments' counts for it.
pub get-accumulate_all :
    (key : String) (fs : List (Dict ℕ)) → or_zero (get key (accumulate_all fs [])) ≡ sum_all key fs
unfolding get
get-accumulate_all key fs = get-accumulate_all_from key fs [] ∙ omega arith
