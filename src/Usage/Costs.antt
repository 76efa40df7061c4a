-- ===== src/Usage/Costs.antt =====
-- PricingCalculator of llm/usage_logging.py, and its prices (llm/config.py).
use backend_template.Prelude.{
  ℕ, ◌-◌, ◌+◌, String, str_eq, Bool, true, false, ◌||◌, ◌&&◌, not, ltb, leb, ◌==◌, Option, none,
  some, List, [], ◌∷◌, if◌then◌else◌,
}
use backend_template.Usage.{Dict, or_zero, contains, ends_with}
use backend_template.ParamPolicy.{get, assign, is_some}

-- Python's floats: 0.0 and 1.0, their sum, `(tokens / 1000.0) * cost_per_1k * multiplier`, and the rounding by a Decimal
pub record Floats (F : Type 0) : Type 0 where
  pub zero_float : F
  pub one_float : F
  pub add : F → F → F
  pub scale : ℕ → F → F → F
  pub round : ℕ → F → F

-- `DimensionPrice`
pub record Price (F : Type 0) : Type 0 where
  pub cost_per_1k : F
  pub billed_separately : Bool

-- `ContextTier`
pub record Tier (F : Type 0) : Type 0 where
  pub max_context : ℕ
  pub multiplier : F

-- `PricingConfig`
pub record Pricing (F : Type 0) : Type 0 where
  pub input : Price F
  pub output : Price F
  pub extras : Dict (Price F)
  pub context_tiers : List (Tier F)
  pub rounding : Option ℕ

-- the result of `compute_cost`
pub record Costs (F : Type 0) : Type 0 where
  pub cost_input : Option F
  pub cost_output : Option F
  pub cost_extras : F
  pub cost_total : F
  pub extra_costs : Dict F
  pub cost_estimated : Bool
  pub context_multiplier : F

abbrev pub any_part : List String → String → Bool
any_part [] name = false
any_part (part ∷ parts) name = contains part name || any_part parts name

-- `_resolve_parent_dimension`
unfoldable pub resolve_parent : String → Option String
unfolding contains
resolve_parent name =
    if any_part ("cache" ∷ "cached" ∷ "prompt" ∷ "input" ∷ []) name
    then some "input_tokens"
    else if any_part ("reasoning" ∷ "completion" ∷ "output" ∷ []) name
    then some "output_tokens"
    else none

-- what an extra takes from the core dimension that contains it
abbrev pub deduct : Option String → ℕ → Dict ℕ → Dict ℕ
deduct none n d = d
deduct (some parent) n d = assign parent (or_zero (get parent d) + n) d

abbrev pub deduct_used : Bool → String → Option ℕ → Dict ℕ → Dict ℕ
deduct_used true name used d = d
deduct_used false name none d = d
deduct_used false name (some n) d = deduct (resolve_parent name) n d

module _ {F : Type 0} where
  -- the loop over `extras` that fills `subset_deductions`
  unfoldable pub subset_deductions : Dict (Price F) → Dict ℕ → Dict ℕ → Dict ℕ
  unfolding resolve_parent
  subset_deductions [] usage d = d
  subset_deductions ((name, price) ∷ extras) usage d =
      subset_deductions extras usage (deduct_used price.billed_separately name (get name usage) d)

  -- `sorted(context_tiers, key=...)`, and the loop over it
  unfoldable pub insert_tier : Tier F → List (Tier F) → List (Tier F)
  insert_tier t [] = t ∷ []
  insert_tier t (u ∷ us) =
      let rest = insert_tier t us in
      if leb t.max_context u.max_context then t ∷ u ∷ us else u ∷ rest

  unfoldable pub sort_tiers : List (Tier F) → List (Tier F)
  sort_tiers [] = []
  sort_tiers (t ∷ ts) = insert_tier t (sort_tiers ts)

  unfoldable pub first_fit : ℕ → List (Tier F) → Option F
  first_fit total [] = none
  first_fit total (t ∷ ts) =
      let rest = first_fit total ts in if leb total t.max_context then some t.multiplier else rest

  -- `max(context_tiers, key=...)`, the first of the largest
  unfoldable pub max_tier : Tier F → List (Tier F) → Tier F
  max_tier t [] = t
  max_tier t (u ∷ us) = max_tier (if ltb t.max_context u.max_context then u else t) us

  -- a count of tokens that has no price
  unfoldable pub is_unpriced : Dict (Price F) → String → ℕ → Bool
  unfolding ends_with
  is_unpriced extras key n =
      ends_with "_tokens" key
      && not (str_eq key "input_tokens" || str_eq key "output_tokens" || is_some (get key extras))
      && not (n == 0)

  unfoldable pub any_unpriced : Dict (Price F) → Dict ℕ → Bool
  any_unpriced extras [] = false
  any_unpriced extras ((key, n) ∷ usage) = is_unpriced extras key n || any_unpriced extras usage

module _ {F : Type 0} (math : Floats F) where
  -- `_get_context_multiplier`
  unfoldable pub get_context_multiplier : ℕ → List (Tier F) → F
  unfolding sort_tiers insert_tier first_fit max_tier
  get_context_multiplier total [] = math.one_float
  get_context_multiplier total (t ∷ ts) = elim (first_fit total (sort_tiers (t ∷ ts))) [
    | some m ↦ m
    | none ↦ (max_tier t ts).multiplier
  ]

  -- `_calculate_dimension_cost`
  abbrev pub dimension_cost : ℕ → F → F → F
  dimension_cost tokens cost_per_1k multiplier =
      if tokens == 0 then math.zero_float else math.scale tokens cost_per_1k multiplier

  -- the cost of a core dimension, for which tokens were counted
  abbrev pub core_cost : ℕ → ℕ → Price F → F → Option F
  core_cost tokens deducted price multiplier =
      if tokens == 0
      then none
      else some (dimension_cost (tokens - deducted) price.cost_per_1k multiplier)

  abbrev pub add_extra : String → ℕ → Price F → F → Dict F × F → Dict F × F
  add_extra name tokens price multiplier (costs, total) = if tokens == 0 then (costs, total) else (
    assign name (dimension_cost tokens price.cost_per_1k multiplier) costs,
    math.add total (dimension_cost tokens price.cost_per_1k multiplier),
  )

  -- the loop over the extras' costs
  unfoldable pub extras_costs : Dict (Price F) → Dict ℕ → F → Dict F × F → Dict F × F
  extras_costs [] usage multiplier acc = acc
  extras_costs ((name, price) ∷ extras) usage multiplier acc =
      extras_costs extras usage multiplier (elim (get name usage) [
        | none ↦ acc
        | some tokens ↦ add_extra name tokens price multiplier acc
      ])

  abbrev pub add_some : F → Option F → F
  add_some total none = total
  add_some total (some cost) = math.add total cost

  abbrev pub round_some : ℕ → Option F → Option F
  round_some decimals none = none
  round_some decimals (some x) = some (math.round decimals x)

  unfoldable pub round_dict : ℕ → Dict F → Dict F
  round_dict decimals [] = []
  round_dict decimals ((k, x) ∷ d) = (k, math.round decimals x) ∷ round_dict decimals d

  -- `_round_costs`
  abbrev pub round_costs : Option ℕ → Costs F → Costs F
  round_costs none c = c
  round_costs (some decimals) c = record c {
    cost_input = round_some decimals c.cost_input;
    cost_output = round_some decimals c.cost_output;
    cost_extras = math.round decimals c.cost_extras;
    cost_total = math.round decimals c.cost_total;
    extra_costs = round_dict decimals c.extra_costs;
  }

  -- `compute_cost`
  unfoldable pub compute_cost : Dict ℕ → Pricing F → Costs F
  unfolding subset_deductions get_context_multiplier extras_costs any_unpriced is_unpriced
      round_dict
  compute_cost usage pricing =
      let input_tokens = or_zero (get "input_tokens" usage) in
      let output_tokens = or_zero (get "output_tokens" usage) in
      let multiplier =
        get_context_multiplier (input_tokens + output_tokens) pricing.context_tiers in
      let deductions = subset_deductions pricing.extras usage [] in
      let cost_input =
        core_cost input_tokens (or_zero (get "input_tokens" deductions)) pricing.input multiplier in
      let cost_output =
        core_cost output_tokens (or_zero (get "output_tokens" deductions)) pricing.output
          multiplier in
      let extra = extras_costs pricing.extras usage multiplier ([], math.zero_float) in
      round_costs pricing.rounding (record {
        cost_input = cost_input;
        cost_output = cost_output;
        cost_extras = extra.1;
        cost_total = math.add (add_some (add_some math.zero_float cost_input) cost_output) extra.1;
        extra_costs = extra.0;
        cost_estimated = any_unpriced pricing.extras usage;
        context_multiplier = multiplier;
      })
