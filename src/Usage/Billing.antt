-- ===== src/Usage/Billing.antt =====
-- Which tokens PricingCalculator.compute_cost of llm/usage_logging.py bills at which price.
use mathlib.Core.Option.{some-injective}
use backend_template.Prelude.{
  ◌||◌, ℕ, ◌+◌, ◌-◌, ◌≤◌, String, str_eq, eq_iff, ◌≡◌, refl, ◌∙◌, Bool, true, false, ◌==◌, Option,
  none, some, [], ◌∷◌, arith, Bool-cases, Option-cases, inl, inr, if◌then◌else◌,
}
use backend_template.Usage.{Dict, or_zero, ends_with}
use backend_template.Usage.Costs.{
  Floats, Price, Pricing, Costs, resolve_parent, deduct_used, subset_deductions,
  get_context_multiplier, dimension_cost, compute_cost, is_unpriced, any_unpriced, round_costs,
}
use backend_template.ParamPolicy.{get}
use backend_template.ParamPolicy.Targets.{get-assign}

abbrev if_parent : Option String → String → ℕ → ℕ
if_parent none parent n = 0
if_parent (some p) parent n = if str_eq p parent then n else 0

abbrev counted : Bool → Option String → String → Option ℕ → ℕ
counted true p parent used = 0
counted false p parent none = 0
counted false p parent (some n) = if_parent p parent n

-- how many tokens of a core dimension have a price of their own: those of the extras that it contains
unfoldable pub subset : {F : Type 0} → String → Dict (Price F) → Dict ℕ → ℕ
unfolding resolve_parent
subset parent [] usage = 0
subset parent ((name, price) ∷ extras) usage =
    counted price.billed_separately (resolve_parent name) parent (get name usage)
    + subset parent extras usage

get-deduct_used :
    (parent name : String) (separate : Bool) (used : Option ℕ) (d : Dict ℕ)
    → or_zero (get parent (deduct_used separate name used d))
      ≡ or_zero (get parent d) + counted separate (resolve_parent name) parent used
get-deduct_used parent name true used d = omega arith
get-deduct_used parent name false none d = omega arith
get-deduct_used parent name false (some n) d = elim (Option-cases (resolve_parent name)) [
  | inl e ↦ rw e (omega arith)
  | inr (p, e) ↦
      let here = get-assign parent p (or_zero (get p d) + n) d in
      rw e (elim (Bool-cases (str_eq p parent)) [
        | inl f ↦ rw (here, f, (eq_iff p parent).0 f) refl
        | inr f ↦ rw (here, f) (omega arith)
      ])
]

get-subset_deductions :
    {F : Type 0} (parent : String) (extras : Dict (Price F)) (usage d : Dict ℕ)
    → or_zero (get parent (subset_deductions extras usage d))
      ≡ or_zero (get parent d) + subset parent extras usage
unfolding subset_deductions subset
get-subset_deductions parent [] usage d = omega arith
get-subset_deductions parent ((name, price) ∷ extras) usage d =
    let rest =
      get-subset_deductions parent extras usage
        (deduct_used price.billed_separately name (get name usage) d) in
    let here = get-deduct_used parent name price.billed_separately (get name usage) d in
    omega (arith, rest, here)

no_deductions :
    {F : Type 0} (parent : String) (extras : Dict (Price F)) (usage : Dict ℕ)
    → or_zero (get parent (subset_deductions extras usage [])) ≡ subset parent extras usage
unfolding get
no_deductions parent extras usage = get-subset_deductions parent extras usage [] ∙ omega arith

-- When input and output tokens were counted, the extras inside each are no more than it, and no rounding is asked
-- for: the tokens that are billed at the price of the input, or of the output, and those of the extras that it
-- contains add up to its count.
pub compute_cost_lem :
    {F : Type 0} (math : Floats F) (usage : Dict ℕ) (pricing : Pricing F) (input output : ℕ)
    → or_zero (get "input_tokens" usage) ≡ input
    → or_zero (get "output_tokens" usage) ≡ output
    → (input == 0) ≡ false
    → (output == 0) ≡ false
    → subset "input_tokens" pricing.extras usage ≤ input
    → subset "output_tokens" pricing.extras usage ≤ output
    → pricing.rounding ≡ none
    → ((n : ℕ) × (n + subset "input_tokens" pricing.extras usage ≡ input)
        × ((compute_cost math usage pricing).cost_input
            ≡ some (
                dimension_cost math n pricing.input.cost_per_1k
                  (get_context_multiplier math (input + output) pricing.context_tiers))))
      × ((n : ℕ) × (n + subset "output_tokens" pricing.extras usage ≡ output)
          × ((compute_cost math usage pricing).cost_output
              ≡ some (
                  dimension_cost math n pricing.output.cost_per_1k
                    (get_context_multiplier math (input + output) pricing.context_tiers))))
unfolding compute_cost
compute_cost_lem math usage pricing input output is_input is_output i o p q r =
    let inside = no_deductions "input_tokens" pricing.extras usage in
    let outside = no_deductions "output_tokens" pricing.extras usage in
    (
      (
        input - subset "input_tokens" pricing.extras usage,
        omega (arith, p),
        rw (r, is_input, is_output, i, inside) refl,
      ),
      (
        output - subset "output_tokens" pricing.extras usage,
        omega (arith, q),
        rw (r, is_input, is_output, o, outside) refl,
      ),
    )

or_true : (b : Bool) → (b || true) ≡ true
or_true true = refl
or_true false = refl

any_unpriced-get :
    {F : Type 0} (extras : Dict (Price F)) (usage : Dict ℕ) (key : String) (n : ℕ)
    → get key usage ≡ some n
    → is_unpriced extras key n ≡ true
    → any_unpriced extras usage ≡ true
unfolding get any_unpriced
any_unpriced-get extras [] key n e h = ground arith
any_unpriced-get extras ((k, m) ∷ usage) key n e h = elim (Bool-cases (str_eq k key)) [
  | inl f ↦
      let same : m ≡ n = some-injective _ _ (rw (get, f) at e) in
      rw (any_unpriced, (eq_iff k key).0 f, same, h) refl
  | inr f ↦
      let rest = any_unpriced-get extras usage key n (rw (get, f) at e) h in
      rw (any_unpriced, rest) (or_true (is_unpriced extras k m))
]

estimated_kept :
    {F : Type 0} (math : Floats F) (rounding : Option ℕ) (c : Costs F)
    → (round_costs math rounding c).cost_estimated ≡ c.cost_estimated
estimated_kept math none c = refl
estimated_kept math (some decimals) c = refl

-- The costs of a usage that reports its total are marked as estimated, also when every dimension has a price: the
-- total counts as a dimension, unless it is priced as an extra.
pub compute_cost-total_tokens :
    {F : Type 0} (math : Floats F) (usage : Dict ℕ) (pricing : Pricing F) (n : ℕ)
    → get "total_tokens" usage ≡ some n
    → (n == 0) ≡ false
    → get "total_tokens" pricing.extras ≡ none
    → (compute_cost math usage pricing).cost_estimated ≡ true
unfolding compute_cost is_unpriced ends_with
compute_cost-total_tokens math usage pricing n e h unpriced =
    estimated_kept math pricing.rounding _
    ∙ any_unpriced-get pricing.extras usage "total_tokens" n e (rw (unpriced, h) refl)
