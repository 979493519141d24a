-- ===== src/Tests/Resumes.antt =====
-- The theorems on resumes and on the pipeline, at small states.
use mathlib.Core.Option
use project_b_multi_agent.ApprovalStore.{Approval, approved, get_approval, pending}
use project_b_multi_agent.CheckpointStore.{checkpoint_key, claim_for_resume, get_checkpoint}
use project_b_multi_agent.CheckpointStore.History.{execute_all}
use project_b_multi_agent.Gateway.{Gateway, dict_get, get_tool}
use project_b_multi_agent.Gateway.Call.{call, call_local, call_with_retry, retry_loop}
use project_b_multi_agent.Json.{
  Fields, Items, arr, cons, dict, end, get, is_set, merge, nil, obj, put, text,
}
use project_b_multi_agent.Pipeline.{run, run_plan, run_steps}
use project_b_multi_agent.Pipeline.Report.{Run, unmatched}
use project_b_multi_agent.Pipeline.Runs.{calls_match, run-success}
use project_b_multi_agent.Planner.{plan}
use project_b_multi_agent.Policy.{check_payload_integrity}
use project_b_multi_agent.Prelude.{String, [], false, none, refl, some, true, ℕ, ◌+◌, ◌∷◌, ◌≡◌}
use project_b_multi_agent.Prelude.Table.{IsKeyed, count_where, select, update_where}
use project_b_multi_agent.PyText.{contains, starts_with}
use project_b_multi_agent.Resolve.{resolve_value}
use project_b_multi_agent.Resume.{State}
use project_b_multi_agent.Resume.Graph.{build_result, early_answer, resume_graph, run_claimed}
use project_b_multi_agent.Resume.Graph.Once.{Untouched, has_called, resume_graph_once}
use project_b_multi_agent.Resume.Multitool.{resume_keyword}
use project_b_multi_agent.Resume.Service.{resume, settle}
use project_b_multi_agent.Resume.Service.Once.{resume_consumed_once}
use project_b_multi_agent.Resume.Service.Others.{resume-others}
use project_b_multi_agent.Resume.Service.Outcomes.{attempts, resumed_flag, settle-retry}
use project_b_multi_agent.Resume.Steps.{Env, execute_subsequent_steps, steps_loop}
use project_b_multi_agent.Resume.Steps.Complete.{
  every_step, execute_subsequent_steps-Completes, is_done, succeeded,
}
use project_b_multi_agent.Resume.Steps.Report.{all_done, missing_deps}
use project_b_multi_agent.Tests.{
  approval_at, counting, graph_payload, keyword_payload, test_checkpoints, test_clock, test_env,
  test_gateway, test_state, tool_of,
}

keyed : IsKeyed checkpoint_key test_checkpoints
unfolding select
keyed = (refl, (refl, tt))

abbrev graph_approval : Approval
graph_approval = approval_at "a1" approved graph_payload

abbrev after_graph : State ℕ
after_graph = (resume_graph test_gateway test_clock "a1" graph_approval test_state).0

resume_graph_once_example :
    Untouched after_graph (resume_graph test_gateway test_clock "a1" graph_approval after_graph).0
    × (has_called (resume_graph test_gateway test_clock "a1" graph_approval after_graph).1 ≡ false)
unfolding resume_graph run_claimed early_answer build_result get put merge claim_for_resume
    get_checkpoint update_where count_where select call get_tool dict_get call_with_retry retry_loop
    call_local execute_all
resume_graph_once_example =
    resume_graph_once test_gateway test_clock test_clock "a1" "a1" graph_approval graph_approval
      test_state after_graph [] keyed refl refl refl

abbrev other_graph_approval : Approval
other_graph_approval = approval_at "a7" approved graph_payload

abbrev after_keyword : State ℕ
after_keyword = (resume test_env test_clock "a2" test_state).0

resume_consumed_once_example :
    ((resume test_env test_clock "a2" after_keyword).0 ≡ after_keyword)
    × ((e : Fields) × ((resume test_env test_clock "a2" after_keyword).1 ≡ some e)
        × (is_set "already_resumed" e ≡ true))
unfolding resume resume_keyword settle get put merge get_approval update_where select call get_tool
    dict_get call_with_retry retry_loop call_local check_payload_integrity
resume_consumed_once_example =
    resume_consumed_once "a2" test_env test_env test_clock test_clock test_state after_keyword refl
      refl refl

settle-retry_example :
    let row = get_approval "a2" (settle "a2" end test_state).approvals in
    let old = some (approval_at "a2" approved keyword_payload) in
    (attempts row ≡ attempts old + 1)
    × (resumed_flag row ≡ resumed_flag old)
    × (Option.map (λ q. q.status) row ≡ some approved)
unfolding get_approval select get
settle-retry_example =
    settle-retry "a2" (approval_at "a2" approved keyword_payload) end test_state refl refl

abbrev tampered_payload : Fields
tampered_payload = dict (("mode", text "keyword") ∷ ("tool_name", text "wipe") ∷ [])

abbrev tampered_state : State ℕ
tampered_state = record test_state { approvals = approval_at "a2" approved tampered_payload ∷ [] }

abbrev later_steps : Items
later_steps = cons (obj (dict (("step_id", text "s1") ∷ ("tool_name", text "refund") ∷ []))) (
    cons
      (obj (
        dict (
          ("step_id", text "s2")
          ∷ ("tool_name", text "refund")
          ∷ ("depends_on", arr (cons (text "s1") nil))
          ∷ [])))
      nil)

abbrev reported : Items
reported =
    elim (execute_subsequent_steps test_env "t1" later_steps ("s1" ∷ []) end nil test_state).1 [
      | none ↦ nil
      | some sub ↦ sub.tool_calls
    ]

execute_subsequent_steps-Completes_example :
    ((i : String) → succeeded i nil ≡ true → succeeded i reported ≡ true)
    × (every_step (is_done ("s1" ∷ []) reported) later_steps ≡ true)
unfolding execute_subsequent_steps steps_loop missing_deps get resolve_value call get_tool dict_get
    call_with_retry retry_loop call_local
execute_subsequent_steps-Completes_example =
    execute_subsequent_steps-Completes test_env "t1" later_steps ("s1" ∷ []) end nil test_state
      (all_done reported) refl refl

abbrev rules_tool : Gateway ℕ
rules_tool = record test_gateway {
  registry = ("rule_lookup", tool_of "rule_lookup" "local") ∷ [];
  callables = ("rule_lookup", some counting) ∷ [];
}

abbrev rules_env : Env ℕ
rules_env = record test_env { gateway = rules_tool }

abbrev no_run : Run
no_run = unmatched

abbrev ran : Run
ran = elim (run rules_env true "促销规则" "t1" test_state).1 [ none ↦ no_run | some r ↦ r ]

run-success_example : calls_match (plan "促销规则").steps ran.tool_calls ≡ true
unfolding run run_plan run_steps plan contains starts_with missing_deps get resolve_value call
    get_tool dict_get call_with_retry retry_loop call_local
run-success_example = run-success rules_env true "促销规则" "t1" test_state ran refl refl

resume-others_example :
    get_approval "a3" after_keyword.approvals ≡ some (approval_at "a3" pending keyword_payload)
unfolding get_approval select
resume-others_example =
    resume-others test_env test_clock "a2" "a3" (approval_at "a3" pending keyword_payload) refl
      test_state refl
