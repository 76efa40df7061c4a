-- ===== src/Tests/Usages.antt =====
-- Three workers in two processes, and the usage of one request.
use backend_template.Prelude.{
  ℕ, ◌+◌, ◌≤◌, String, ◌≡◌, refl, false, true, ◌==◌, none, some, List, [], ◌∷◌, arith,
  if◌then◌else◌,
}
use backend_template.Usage.{Dict, or_zero}
use backend_template.Usage.Costs.{
  Floats, Pricing, compute_cost, get_context_multiplier, dimension_cost, resolve_parent,
}
use backend_template.Usage.Billing.{subset, compute_cost_lem, compute_cost-total_tokens}
use backend_template.Usage.Fragments.{accumulate_all, sum_all, get-accumulate_all}
use backend_template.Usage.Snapshots.{System, done, find_snapshot, step, steps}
use backend_template.Usage.Workers.{count_snapshots}
use backend_template.Usage.Schedules.{turns, begin, steps-agree, steps-done}
use backend_template.ParamPolicy.{get}

abbrev process : ℕ → ℕ
process w = if w == 2 then 1 else 0

abbrev hash : ℕ → String
hash w = "prices"

-- both look before either inserts, and the third comes late
abbrev schedule : List ℕ
schedule = 0 ∷ 1 ∷ 0 ∷ 1 ∷ 1 ∷ 2 ∷ []

abbrev after : System
after = steps process hash schedule (begin process hash [] 5)

abbrev first_id : ℕ
first_id = 5

empty_table : (h : String) → count_snapshots h [] ≤ 1
unfolding count_snapshots
empty_table h = omega arith

first_done : after.phases 1 ≡ done 5
unfolding steps step find_snapshot
first_done = refl

third_done : after.phases 2 ≡ done 5
unfolding steps step find_snapshot
third_done = refl

steps-agree_example : (first_id ≡ 5) × ((h : String) → count_snapshots h after.snapshots ≤ 1)
steps-agree_example =
    steps-agree process hash [] 5 schedule 1 2 first_id 5 empty_table refl first_done third_done

three_turns : 3 ≤ turns 1 schedule
unfolding turns
three_turns = omega arith

steps-done_example :
    (id : ℕ) × (after.phases 1 ≡ done id) × (find_snapshot (hash 1) after.snapshots ≡ some id)
steps-done_example = steps-done process hash [] 5 schedule 1 empty_table three_turns

-- prices in numbers, for which a token costs its price
abbrev math : Floats ℕ
math = record {
  zero_float = 0;
  one_float = 1;
  add = λ a b. a + b;
  scale = λ tokens price multiplier. tokens;
  round = λ decimals x. x;
}

abbrev pricing : Pricing ℕ
pricing = record {
  input = record { cost_per_1k = 2; billed_separately = false };
  output = record { cost_per_1k = 3; billed_separately = false };
  extras = ("cache_read_tokens", record { cost_per_1k = 1; billed_separately = false }) ∷ [];
  context_tiers = [];
  rounding = none;
}

abbrev usage : Dict ℕ
usage = ("input_tokens", 10) ∷ ("output_tokens", 4) ∷ ("cache_read_tokens", 6) ∷ []

has_input : or_zero (get "input_tokens" usage) ≡ 10
unfolding get
has_input = refl

has_output : or_zero (get "output_tokens" usage) ≡ 4
unfolding get
has_output = refl

input_inside : subset "input_tokens" pricing.extras usage ≤ 10
unfolding subset get resolve_parent backend_template.Usage.contains
    backend_template.ParamPolicy.starts_with
input_inside = omega arith

output_inside : subset "output_tokens" pricing.extras usage ≤ 4
unfolding subset get resolve_parent backend_template.Usage.contains
    backend_template.ParamPolicy.starts_with
output_inside = omega arith

compute_cost_lem_example :
    ((n : ℕ) × (n + subset "input_tokens" pricing.extras usage ≡ 10)
      × ((compute_cost math usage pricing).cost_input
          ≡ some (dimension_cost math n 2 (get_context_multiplier math (10 + 4) []))))
    × ((n : ℕ) × (n + subset "output_tokens" pricing.extras usage ≡ 4)
        × ((compute_cost math usage pricing).cost_output
            ≡ some (dimension_cost math n 3 (get_context_multiplier math (10 + 4) []))))
compute_cost_lem_example =
    compute_cost_lem math usage pricing 10 4 has_input has_output refl refl input_inside
      output_inside refl

abbrev fragments : List (Dict ℕ)
fragments = usage ∷ (("output_tokens", 2) ∷ []) ∷ []

get-accumulate_all_example :
    or_zero (get "output_tokens" (accumulate_all fragments [])) ≡ sum_all "output_tokens" fragments
get-accumulate_all_example = get-accumulate_all "output_tokens" fragments

abbrev reported : Dict ℕ
reported = ("input_tokens", 10) ∷ ("output_tokens", 4) ∷ ("total_tokens", 14) ∷ []

has_total : get "total_tokens" reported ≡ some 14
unfolding get
has_total = refl

no_price : get "total_tokens" pricing.extras ≡ none
unfolding get
no_price = refl

compute_cost-total_tokens_example : (compute_cost math reported pricing).cost_estimated ≡ true
compute_cost-total_tokens_example =
    compute_cost-total_tokens math reported pricing 14 has_total refl no_price
