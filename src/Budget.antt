-- ===== src/Budget.antt =====
-- app/harness/llm/budget.py: the budget of the language model.
--
-- Costs are the program's floats: a type `C` with the operations that the code uses, of which nothing
-- is assumed, so that their rounding is whatever it is. A number of tokens is a whole one that may be
-- below zero. The two texts that `strftime` makes of a time are an argument, `str.lower` a parameter.
pub mod Sums
pub mod Limits
use Prim.Native.Nat.{◌/◌}
use project_b_multi_agent.Gateway.{dict_get, dict_put}
use project_b_multi_agent.Prelude.{
  Bool, List, Option, String, [], false, if◌then◌else◌, length, none, not, some, true, ℕ, ◌&&◌,
  ◌++◌, ◌==◌, ◌∷◌,
}
use project_b_multi_agent.PyText.{strip}
use project_b_multi_agent.RequestGuards.{at_least_one}
use project_b_multi_agent.SqlGuard.{codes}

-- `0.0`, `+`, `*`, `<`, `<=`, and a number of tokens divided by `1000.0`
pub record Floats (C : Type 0) : Type 0 where
  pub zero_cost : C
  pub add : C → C → C
  pub times : C → C → C
  pub less : C → C → Bool
  pub less_eq : C → C → Bool
  pub thousandths : ℕ → C

pub data Amount : Type 0 where
  amount : ℕ → Amount
  below_zero : ℕ → Amount

-- `max(0, n)`
abbrev pub not_below_zero : Amount → ℕ
not_below_zero (amount n) = n
not_below_zero (below_zero n) = 0

-- `settings`
pub record Prices (C : Type 0) : Type 0 where
  pub llm_cost_estimation_enabled : Bool
  pub llm_estimated_completion_tokens : Amount
  pub llm_cost_per_1k_prompt_tokens_usd : C
  pub llm_cost_per_1k_completion_tokens_usd : C

abbrev pub estimate_prompt_tokens : String → ℕ
estimate_prompt_tokens prompt = if prompt == "" then 0 else at_least_one (length (codes prompt) / 4)

abbrev pub or_estimated : {C : Type 0} → Prices C → Option Amount → Amount
or_estimated p none = amount (not_below_zero p.llm_estimated_completion_tokens)
or_estimated p (some completion_tokens) = completion_tokens

pub data Action : Type 0 where
  allow_call warn_call fallback_call : Action

pub data BudgetReason (C : Type 0) : Type 0 where
  budget_disabled budget_ok : BudgetReason C
  budget_soft_limit_reached hard_limit_exceeded : C → BudgetReason C

pub record BudgetDecision (C : Type 0) : Type 0 where
  pub allowed : Bool
  pub action : Action
  pub reason : BudgetReason C
  pub budget_scope : String
  pub current_cost : C
  pub soft_limit : C
  pub hard_limit : C
  pub estimated_cost : C

pub record Usage (C : Type 0) : Type 0 where
  pub scope_key : String
  pub mode : String
  pub provider : String
  pub model : String
  pub prompt_tokens : ℕ
  pub completion_tokens : ℕ
  pub cost : C

pub record Manager (C : Type 0) : Type 0 where
  pub enabled : Bool
  pub soft_limit : C
  pub hard_limit : C
  pub scope : String
  pub cost_by_scope : List (String × C)
  pub usage_events : List (Usage C)

-- a time as "%Y-%m-%dT%H" and as "%Y-%m-%d"
pub record Moment : Type 0 where
  pub hour : String
  pub day : String

-- `scope.strip().lower() or "daily"`
abbrev pub normal_scope : (String → String) → String → String
normal_scope lower scope = let s = lower (strip scope) in if s == "" then "daily" else s

abbrev pub or_unknown : String → String
or_unknown s = if s == "" then "unknown" else s

-- the arguments of one call of `record_usage`, and its time
pub record Call (C : Type 0) : Type 0 where
  pub now : Moment
  pub mode : String
  pub provider : String
  pub model : String
  pub prompt_tokens : Amount
  pub completion_tokens : Amount
  pub cost : C

pub record Summary (C : Type 0) : Type 0 where
  pub enabled : Bool
  pub scope : String
  pub current_cost : C
  pub soft_limit : C
  pub hard_limit : C
  pub by_provider : List (String × C)
  pub by_model : List (String × C)

-- `_scope_key`
abbrev pub scope_key_of : {C : Type 0} → Manager C → Moment → String
scope_key_of m now =
    if m.scope == "global" then "global" else if m.scope == "hourly" then now.hour else now.day

-- `LLMBudgetManager.__init__`, each argument with its setting
abbrev pub new_manager : {C : Type 0} → (String → String) → Bool → C → C → String → Manager C
new_manager lower enabled soft_limit hard_limit scope = record {
  enabled = enabled;
  soft_limit = soft_limit;
  hard_limit = hard_limit;
  scope = normal_scope lower scope;
  cost_by_scope = [];
  usage_events = [];
}

module _ {C : Type 0} (fl : Floats C) where
  -- `max(0.0, cost)`
  abbrev pub max_zero : C → C
  max_zero cost = if fl.less fl.zero_cost cost then cost else fl.zero_cost

  abbrev pub estimate_llm_cost_usd : Prices C → Amount → Option Amount → C
  estimate_llm_cost_usd p prompt_tokens completion_tokens =
      if not p.llm_cost_estimation_enabled
      then fl.zero_cost
      else fl.add
          (fl.times (fl.thousandths (not_below_zero prompt_tokens))
            (max_zero p.llm_cost_per_1k_prompt_tokens_usd))
          (fl.times (fl.thousandths (not_below_zero (or_estimated p completion_tokens)))
            (max_zero p.llm_cost_per_1k_completion_tokens_usd))

  -- `costs.get(key, 0.0)`
  abbrev pub or_zero : Option C → C
  or_zero none = fl.zero_cost
  or_zero (some cost) = cost

  abbrev pub cost_of : String → List (String × C) → C
  cost_of key costs = or_zero (dict_get key costs)

  -- `limit > 0 and projected >= limit`
  abbrev pub reaches : C → C → Bool
  reaches limit projected = fl.less fl.zero_cost limit && fl.less_eq limit projected

  abbrev pub estimated : Prices C → C → Option String → C
  estimated p cost none = cost
  estimated p cost (some prompt) =
      if fl.less_eq cost fl.zero_cost
      then estimate_llm_cost_usd p (amount (estimate_prompt_tokens prompt)) none
      else cost

  abbrev pub decision_of : Manager C → C → C → Bool → Action → BudgetReason C → BudgetDecision C
  decision_of m current cost allowed action reason = record {
    allowed = allowed;
    action = action;
    reason = reason;
    budget_scope = m.scope;
    current_cost = current;
    soft_limit = m.soft_limit;
    hard_limit = m.hard_limit;
    estimated_cost = cost;
  }

  -- `check_budget`
  unfoldable pub check_budget : Prices C → Manager C → Moment → C → Option String → BudgetDecision C
  unfolding dict_get
  check_budget p m now estimated_cost prompt =
      let cost = estimated p (max_zero estimated_cost) prompt in
      let current = cost_of (scope_key_of m now) m.cost_by_scope in
      let projected = fl.add current cost in
      if not m.enabled
      then decision_of m fl.zero_cost fl.zero_cost true allow_call budget_disabled
      else if reaches m.hard_limit projected
      then decision_of m current cost false fallback_call (hard_limit_exceeded m.hard_limit)
      else if reaches m.soft_limit projected
      then decision_of m current cost true warn_call (budget_soft_limit_reached m.soft_limit)
      else decision_of m current cost true allow_call budget_ok

  abbrev pub usage_of : Manager C → Call C → Usage C
  usage_of m c = record {
    scope_key = scope_key_of m c.now;
    mode = c.mode;
    provider = or_unknown c.provider;
    model = or_unknown c.model;
    prompt_tokens = not_below_zero c.prompt_tokens;
    completion_tokens = not_below_zero c.completion_tokens;
    cost = max_zero c.cost;
  }

  -- `costs[key] = costs.get(key, 0.0) + cost`
  abbrev pub add_cost : String → C → List (String × C) → List (String × C)
  add_cost key cost costs = dict_put key (fl.add (cost_of key costs) cost) costs

  -- `record_usage`
  unfoldable pub record_usage : Call C → Manager C → Manager C
  unfolding dict_get dict_put
  record_usage c m =
      let usage = usage_of m c in
      if not m.enabled then m else record m {
        cost_by_scope = add_cost usage.scope_key usage.cost m.cost_by_scope;
        usage_events = m.usage_events ++ usage ∷ [];
      }

  -- the loop over the events for one of the two dicts: `name` reads the provider or the model. A cost
  -- that was recorded is no `-0.0`, so `or 0.0` leaves it as it is.
  unfoldable pub costs_by :
      (Usage C → String) → String → List (Usage C) → List (String × C) → List (String × C)
  unfolding dict_get dict_put
  costs_by name key [] costs = costs
  costs_by name key (event ∷ events) costs = costs_by name key events (
      if event.scope_key == key then add_cost (or_unknown (name event)) event.cost costs else costs)

  -- `summary`
  unfoldable pub summary : Manager C → Moment → Summary C
  unfolding dict_get costs_by
  summary m now =
      let key = scope_key_of m now in
      record {
        enabled = m.enabled;
        scope = m.scope;
        current_cost = if m.enabled then cost_of key m.cost_by_scope else fl.zero_cost;
        soft_limit = m.soft_limit;
        hard_limit = m.hard_limit;
        by_provider = if m.enabled then costs_by (λ e. e.provider) key m.usage_events [] else [];
        by_model = if m.enabled then costs_by (λ e. e.model) key m.usage_events [] else [];
      }
