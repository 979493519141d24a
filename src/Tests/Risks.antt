-- ===== src/Tests/Risks.antt =====
-- The theorems on steps of high risk, under a policy engine without a whitelist.
use project_b_multi_agent.Gateway.{dict_get, get_tool}
use project_b_multi_agent.Json.{Value, cons, dict, end, get, nil, obj, text}
use project_b_multi_agent.Pipeline.{run_steps}
use project_b_multi_agent.Pipeline.Report.{Run}
use project_b_multi_agent.Pipeline.Risk.{run_steps-high_risk}
use project_b_multi_agent.Planner.{PlanStep, promotion_rule_plan}
use project_b_multi_agent.Prelude.{[], false, none, refl, some, true, ℕ, ◌∷◌, ◌≡◌}
use project_b_multi_agent.Resume.Steps.{Env, steps_loop}
use project_b_multi_agent.Resume.Steps.Report.{Subsequent}
use project_b_multi_agent.Resume.Steps.Risk.{steps_loop-high_risk}
use project_b_multi_agent.Tests.{test_env, test_state, tool_of}

abbrev careful_env : Env ℕ
careful_env = record test_env { policy = some none }

abbrev refund_step : PlanStep
refund_step = record {
  step_id = "s1";
  tool_name = "refund";
  arguments = end;
  depends_on = [];
  save_as = none;
}

run_steps-high_risk_example :
    let o =
      run_steps careful_env true "refund" "t1" promotion_rule_plan
        (refund_step ∷ [])
        []
        end
        nil
        test_state in
    (o.0.world ≡ test_state.world) × ((r : Run) → o.1 ≡ some r → r.success ≡ false)
unfolding get_tool dict_get
run_steps-high_risk_example =
    run_steps-high_risk careful_env true "refund" "t1" promotion_rule_plan refund_step []
      (tool_of "refund" "local") none [] end nil test_state refl refl refl

abbrev refund_value : Value
refund_value = obj (dict (("step_id", text "s1") ∷ ("tool_name", text "refund") ∷ []))

steps_loop-high_risk_example :
    let o = steps_loop careful_env "t1" nil (cons refund_value nil) [] end nil test_state in
    (o.0.world ≡ test_state.world) × ((sub : Subsequent) → o.1 ≡ some sub → sub.success ≡ false)
unfolding get_tool dict_get get
steps_loop-high_risk_example =
    steps_loop-high_risk careful_env "t1" nil refund_value nil (tool_of "refund" "local") none []
      end nil test_state refl refl refl refl
