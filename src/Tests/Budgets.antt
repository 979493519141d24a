-- ===== src/Tests/Budgets.antt =====
-- The theorems on the budget of the language model, at two calls in one hour. Costs are numbers here,
-- and prices are for one token.
use project_b_multi_agent.Budget.{
  Call, Floats, Manager, Moment, Prices, amount, below_zero, check_budget, cost_of, costs_by,
  new_manager, record_usage, summary, warn_call,
}
use project_b_multi_agent.Budget.Limits.{check_budget-record_all, summary-record_all}
use project_b_multi_agent.Budget.Sums.{record_all, spent}
use project_b_multi_agent.Gateway.{dict_get, dict_put}
use project_b_multi_agent.Prelude.{
  List, String, [], false, leb, ltb, none, refl, some, true, ℕ, ◌*◌, ◌+◌, ◌∷◌, ◌≡◌,
}
use project_b_multi_agent.PyText.{strip}

abbrev whole_costs : Floats ℕ
whole_costs = record {
  zero_cost = 0;
  add = λ a b. a + b;
  times = λ a b. a * b;
  less = ltb;
  less_eq = leb;
  thousandths = λ n. n;
}

abbrev one_hour : Moment
one_hour = record { hour = "2025-01-01T10"; day = "2025-01-01" }

abbrev call_of : String → ℕ → Call ℕ
call_of provider cost = record {
  now = one_hour;
  mode = "nl2sql";
  provider = provider;
  model = "";
  prompt_tokens = amount 100;
  completion_tokens = below_zero 1;
  cost = cost;
}

abbrev two_calls : List (Call ℕ)
two_calls = call_of "mock" 30 ∷ call_of "litellm" 20 ∷ []

abbrev test_prices : Prices ℕ
test_prices = record {
  llm_cost_estimation_enabled = true;
  llm_estimated_completion_tokens = amount 5;
  llm_cost_per_1k_prompt_tokens_usd = 4;
  llm_cost_per_1k_completion_tokens_usd = 2;
}

abbrev hourly_manager : Manager ℕ
hourly_manager = record_all whole_costs two_calls (new_manager (λ s. s) true 40 64 " hourly ")

-- the prompt has one token: 4 for it and 10 for the answer
blocked_at_limit :
    ((check_budget whole_costs test_prices hourly_manager one_hour 0 (some "hello")).allowed
      ≡ false)
    × ((check_budget whole_costs test_prices hourly_manager one_hour 13 none).action ≡ warn_call)
unfolding check_budget record_all record_usage dict_get dict_put strip
blocked_at_limit = (refl, refl)

summed :
    (summary whole_costs hourly_manager one_hour).by_provider ≡ ("mock", 30) ∷ ("litellm", 20) ∷ []
unfolding summary costs_by record_all record_usage dict_get dict_put strip
summed = refl

summary-record_all_example :
    let s = summary whole_costs hourly_manager one_hour in
    (s.current_cost ≡ 50)
    × (cost_of whole_costs "mock" s.by_provider ≡ 30)
    × (cost_of whole_costs "mock" s.by_model ≡ 0)
unfolding spent strip
summary-record_all_example =
    summary-record_all whole_costs (λ s. s) 40 64 " hourly " two_calls true one_hour "mock"

check_budget-record_all_example :
    let d = check_budget whole_costs test_prices hourly_manager one_hour 0 (some "hello") in
    (d.allowed ≡ false) × (d.estimated_cost ≡ 14)
unfolding spent strip
check_budget-record_all_example =
    check_budget-record_all whole_costs (λ s. s) 40 64 " hourly " two_calls true test_prices
      one_hour 0 (some "hello")
