-- ===== src/Tests/Graphs.antt =====
-- The theorems on the keyword planner and on the graph runtime, at small data: a demonstration of a
-- refund, which is of high risk, and a question for the date.
use project_b_multi_agent.ApprovalStore.{get_approval}
use project_b_multi_agent.CheckpointStore.{get_checkpoint}
use project_b_multi_agent.Gateway.{Gateway, ToolSpec, dict_get, get_tool}
use project_b_multi_agent.GraphRun.{Adapter}
use project_b_multi_agent.GraphRun.Approved.{FreshIds, NeedsApproval}
use project_b_multi_agent.GraphRun.Completes.{
  CompletesWhenApproved, run_keyword-CompletesWhenApproved,
}
use project_b_multi_agent.GraphRun.Interrupted.{Returns}
use project_b_multi_agent.GraphRun.Safety.{Declines, run_keyword-high_risk}
use project_b_multi_agent.GraphRun.Stages.{run_keyword}
use project_b_multi_agent.Keyword.{RoutingRule, build_planner_rules, plan, rule_enabled}
use project_b_multi_agent.Keyword.Laws.{Applies, IsFirst, plan_lem}
use project_b_multi_agent.Policy.{check, evaluate}
use project_b_multi_agent.Prelude.{
  All, Bool, String, [], eqb, false, if◌then◌else◌, none, refl, some, true, ℕ, ◌==◌, ◌∷◌, ◌≡◌, ◌⊎◌,
}
use project_b_multi_agent.Prelude.Table.{select}
use project_b_multi_agent.PyText.{contains, starts_with}
use project_b_multi_agent.Tests.{counting, test_clock, test_gateway, test_state, tool_of}

-- the switch of the demonstration is on
abbrev pub switches_on : String → Bool
switches_on s = s == "demo_high_risk_tool_enabled"

plan_lem_example :
    let p = plan switches_on build_planner_rules "退款率是多少" in
    ((p.matched ≡ false)
      × (p.tool_name ≡ none)
      × All (λ r. Applies switches_on "退款率是多少" r → ⊥) build_planner_rules)
    ⊎ ((rule : RoutingRule) × IsFirst switches_on "退款率是多少" rule build_planner_rules
        × (p.matched ≡ true)
        × (p.tool_name ≡ rule.tool_name)
        × (p.label ≡ rule.label))
plan_lem_example = plan_lem switches_on "退款率是多少" build_planner_rules

refund_rate_planned :
    (plan switches_on build_planner_rules "退款率是多少").tool_name ≡ some "get_refund_rate"
unfolding plan rule_enabled build_planner_rules contains starts_with
refund_rate_planned = refl

-- with the switch off the demonstration falls to the rule for refunds in general
demonstration_off :
    (plan (λ s. false) build_planner_rules "模拟退款").tool_name ≡ some "get_refund_rate"
unfolding plan rule_enabled build_planner_rules contains starts_with
demonstration_off = refl

abbrev pub refund_spec : ToolSpec
refund_spec = tool_of "simulate_refund_order" "local"

abbrev pub demo_gateway : Gateway ℕ
demo_gateway = record test_gateway {
  registry = ("simulate_refund_order", refund_spec) ∷ [];
  callables = ("simulate_refund_order", some counting) ∷ [];
}

abbrev pub test_uuid : ℕ → String
test_uuid n = if eqb n 0 then "0a" else if eqb n 1 then "1b" else if eqb n 2 then "2c" else "3d"

abbrev test_adapter : Adapter ℕ
test_adapter = record {
  gateway = demo_gateway;
  policy = none;
  has_approval_store = true;
  rules = build_planner_rules;
  switches = switches_on;
  str_of = λ v. "value";
  uuid = test_uuid;
  now = λ n. n;
  integrity_error = "UNIQUE constraint failed: approvals.approval_id";
}

demo_planned :
    (plan switches_on build_planner_rules "模拟退款").tool_name ≡ some "simulate_refund_order"
unfolding plan rule_enabled build_planner_rules contains starts_with
demo_planned = refl

demo_matched : (plan switches_on build_planner_rules "模拟退款").matched ≡ true
unfolding plan rule_enabled build_planner_rules contains starts_with
demo_matched = refl

demo_found : get_tool "simulate_refund_order" demo_gateway ≡ some refund_spec
unfolding get_tool dict_get
demo_found = refl

run_keyword-high_risk_example :
    let (answer, m) = run_keyword test_adapter "t9" "模拟退款" test_state 0 in
    (m.stores.world ≡ 0) × Declines answer
run_keyword-high_risk_example =
    run_keyword-high_risk test_adapter "t9" "模拟退款" "simulate_refund_order" refund_spec test_state 0
      demo_planned demo_found refl

demo_NeedsApproval : NeedsApproval test_adapter "t9" "模拟退款" refund_spec "simulate_refund_order"
unfolding evaluate check
demo_NeedsApproval = record {
  planned = demo_planned;
  matched = demo_matched;
  named = refl;
  found = demo_found;
  risky = refl;
  has_store = refl;
}

demo_FreshIds : FreshIds test_adapter "t9" "模拟退款" test_state 0
unfolding get_checkpoint get_approval select
demo_FreshIds = record {
  assembled = refl;
  planned = refl;
  executed = refl;
  first_two = refl;
  first_last = refl;
  last_two = refl;
  approval = refl;
  keyed = (refl, (refl, tt));
}

run_keyword-CompletesWhenApproved_example :
    Returns
      (CompletesWhenApproved test_adapter "t9" "模拟退款" test_clock 20 "alice" "ok" test_state 0
        "simulate_refund_order")
      (run_keyword test_adapter "t9" "模拟退款" test_state 0)
run_keyword-CompletesWhenApproved_example =
    run_keyword-CompletesWhenApproved test_adapter "t9" "模拟退款" "simulate_refund_order" refund_spec
      test_state 0 test_clock 20 "alice" "ok" demo_NeedsApproval demo_FreshIds
