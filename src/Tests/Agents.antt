-- ===== src/Tests/Agents.antt =====
-- The theorems on the agents that work together, at small data: the demonstration of a refund, and
-- a question for the date.
use project_b_multi_agent.Gateway.{dict_get, get_tool}
use project_b_multi_agent.Json.{get}
use project_b_multi_agent.Keyword.{
  RoutingRule, build_coordinator_rules, build_planner_rules, match_of, plan, rule_enabled,
}
use project_b_multi_agent.MultiAgent.{mode_or_auto}
use project_b_multi_agent.MultiAgent.Agrees.{match_rule-plan}
use project_b_multi_agent.MultiAgent.Blocked.{IsHeldBack, StopsIn, orchestrate-StopsIn}
use project_b_multi_agent.MultiAgent.Coordinator.{decide_mode, match_rule}
use project_b_multi_agent.MultiAgent.Executor.{Executor}
use project_b_multi_agent.MultiAgent.Orchestrator.{Orchestrator, orchestrate}
use project_b_multi_agent.Policy.{check, evaluate}
use project_b_multi_agent.Prelude.{[], none, refl, some, ℕ, ◌∷◌, ◌≡◌}
use project_b_multi_agent.PyText.{contains, starts_with}
use project_b_multi_agent.Raise.{failed_with}
use project_b_multi_agent.Tests.Graphs.{demo_gateway, refund_spec, switches_on}

abbrev test_executor : Executor ℕ
test_executor = record {
  nl2sql_pipeline = λ query w. (failed_with "no model", w);
  multitool_pipeline = λ query task_id w. (failed_with "no plan", w);
  gateway = some demo_gateway;
  policy_engine = some none;
  planner_rules = build_planner_rules;
  switches = switches_on;
  str_of = λ v. "value";
}

abbrev test_orchestrator : Orchestrator ℕ
test_orchestrator = record {
  executor = test_executor;
  risk_intent = λ query. none;
  coordinator_rules = build_coordinator_rules;
  provider = none;
}

refund_IsHeldBack : IsHeldBack test_executor "模拟退款" "simulate_refund_order" refund_spec
unfolding plan rule_enabled build_planner_rules contains starts_with evaluate check get_tool
    dict_get
refund_IsHeldBack = record {
  g = demo_gateway;
  whitelist = none;
  has_gateway = refl;
  has_policy = refl;
  planned = refl;
  matched = refl;
  named = refl;
  found = refl;
  denied = refl;
}

refund_by_keyword :
    mode_or_auto (
      get "selected_mode"
        (decide_mode {W = ℕ} switches_on build_coordinator_rules none "模拟退款" 0).0.metadata)
    ≡ "keyword"
unfolding decide_mode get build_coordinator_rules rule_enabled contains starts_with
refund_by_keyword = refl

orchestrate-StopsIn_example :
    StopsIn "keyword" 0 (orchestrate test_orchestrator "模拟退款" (some "t1") 0)
unfolding decide_mode
orchestrate-StopsIn_example =
    orchestrate-StopsIn test_orchestrator "模拟退款" (some "t1") "simulate_refund_order" refund_spec 0
      refl refund_IsHeldBack refund_by_keyword

date_matched :
    (r : RoutingRule) × (match_rule switches_on build_coordinator_rules "今天几号"
      ≡ some (r, "今天几号" ∷ []))
    × (r.tool_name ≡ some "date_lookup")
unfolding match_rule build_coordinator_rules rule_enabled contains starts_with
date_matched = (_, refl, refl)

match_rule-plan_example : plan switches_on build_planner_rules "今天几号" ≡ match_of date_matched.0
unfolding build_planner_rules build_coordinator_rules date_matched
match_rule-plan_example =
    match_rule-plan switches_on "今天几号" build_coordinator_rules date_matched.0 ("今天几号" ∷ [])
      date_matched.1 refl
