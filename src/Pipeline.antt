-- ===== src/Pipeline.antt =====
-- `MultiToolPipeline.run` of app/services/multitool_pipeline.py: the steps of a plan are called in
-- order until one is refused, waits for an approval or fails.
--
-- `latency_ms` and the trace events are left out.
pub mod Report
pub mod Stops
pub mod Runs
pub mod Risk
use project_b_multi_agent.ApprovalStore.{Approvals, Request, create_approval}
use project_b_multi_agent.Gateway.{ToolCallRecord, ToolSpec, get_tool}
use project_b_multi_agent.Gateway.Call.{call}
use project_b_multi_agent.Json.{Fields, Items, arr, dict, end, join_text, nil, obj, text}
use project_b_multi_agent.Pipeline.Report.{
  Run, awaiting, blocked_call, fails, generate_answer, made_call, not_registered, plan_value,
  save_name, succeeds, unmatched,
}
use project_b_multi_agent.Planner.{Plan, PlanStep, plan}
use project_b_multi_agent.Policy.{PolicyDecision}
use project_b_multi_agent.Prelude.{
  Bool, List, Option, String, [], if◌then◌else◌, none, not, some, ◌&&◌, ◌∷◌,
}
use project_b_multi_agent.Resolve.{
  Resolved, record_value, resolve_fields, resolve_variable, resolved, unresolved,
}
use project_b_multi_agent.Resume.{AuditEntry, State, add_audit}
use project_b_multi_agent.Resume.Multitool.{add_id}
use project_b_multi_agent.Resume.Steps.{Env, decision_on}
use project_b_multi_agent.Resume.Steps.Report.{items_of, missing_deps, save, snoc}

-- `none` is the exception of an INSERT with an id that is taken
abbrev pub Outcome : Type 0 → Type 0
Outcome W = State W × Option Run

-- the loop's variables: completed steps, saved results, calls
abbrev pub Next : Type 0 → Type 0
Next W = List String → Fields → Items → State W → Outcome W

-- `has_store` is whether the pipeline was made with an approval store
module _ {W : Type 0} (env : Env W) (has_store : Bool) (query : String) (task_id : String)
    (p : Plan) where
  abbrev pub step_text : PlanStep → List String → String
  step_text st parts = join_text ("步骤 " ∷ st.step_id ∷ parts)

  abbrev pub after_call :
      PlanStep → ToolCallRecord × W → Next W → List String → Fields → Items → State W → Outcome W
  after_call st (r, w) next done_ids saved calls s =
      let calls' = snoc calls (made_call st r) in
      let s' = record s { world = w } in
      let go_on =
        next (add_id st.step_id done_ids) (save (save_name st.save_as) (record_value r) saved)
          calls' s' in
      if r.success then go_on else (
        s',
        some (
            fails p.intent "tool_call_failed" (step_text st (" 工具调用失败: " ∷ env.str_of r.error ∷ []))
              calls' st),
      )

  abbrev pub run_resolved :
      PlanStep → Resolved Fields → Next W → List String → Fields → Items → State W → Outcome W
  run_resolved st (unresolved path) next done_ids saved calls s = (
    s,
    some
        (record (fails p.intent "variable_resolution_failed"
          (step_text st (" 变量解析失败: $" ∷ path ∷ [])) calls st) { error_path = some path }),
  )
  run_resolved st (resolved arguments) next done_ids saved calls s =
      after_call st (call env.gateway st.tool_name arguments "" s.world) next done_ids saved calls s

  abbrev pub request_of : PlanStep → ToolSpec → PolicyDecision → List String → Items → Request
  request_of st spec d done_ids calls = record {
    task_id = task_id;
    tool_name = st.tool_name;
    action = join_text ("多工具步骤 " ∷ st.step_id ∷ " 调用 " ∷ st.tool_name ∷ []);
    risk_level = spec.risk_level;
    impact_scope = spec.permission_scope;
    agent_reason = d.reason;
    payload = some (
        dict (
          ("mode", text "multitool")
          ∷ ("query", text query)
          ∷ ("step_id", text st.step_id)
          ∷ ("tool_name", text st.tool_name)
          ∷ ("arguments", obj st.arguments)
          ∷ ("plan", plan_value p)
          ∷ ("completed_step_ids", arr (items_of done_ids))
          ∷ ("tool_calls", arr calls)
          ∷ []));
  }

  abbrev pub entry : String → String → String → AuditEntry
  entry event_type approval_id outcome = record {
    event_type = event_type;
    task_id = task_id;
    approval_id = approval_id;
    action = "multitool_step";
    outcome = outcome;
  }

  abbrev pub requested : PlanStep → PolicyDecision → Option Approvals → Items → State W → Outcome W
  requested st d none calls s = (s, none)
  requested st d (some rows) calls s = (
    add_audit (entry "approval_requested" env.fresh "waiting_approval")
        (record s { approvals = rows }),
    some
        (record (fails p.intent "approval_required" (step_text st (" 需要人工审批: " ∷ d.reason ∷ []))
          (snoc calls (blocked_call st d.reason (awaiting env.fresh))) st) {
            approval_id = some env.fresh;
          }),
  )

  abbrev pub under_policy :
      PlanStep
      → ToolSpec
      → Option PolicyDecision
      → Next W
      → List String
      → Fields
      → Items
      → State W
      → Outcome W
  under_policy st spec none next done_ids saved calls s =
      run_resolved st (resolve_fields (resolve_variable saved) st.arguments) next done_ids saved
        calls s
  under_policy st spec (some d) next done_ids saved calls s =
      if d.allowed
      then run_resolved st (resolve_fields (resolve_variable saved) st.arguments) next done_ids
          saved calls s
      else if d.requires_approval && has_store
      then requested st d
          (create_approval env.fresh env.now (request_of st spec d done_ids calls) s.approvals)
          calls s
      else (
        s,
        some (
            fails p.intent "policy_blocked" (step_text st (" 被策略拦截: " ∷ d.reason ∷ []))
              (snoc calls (blocked_call st d.reason end)) st),
      )

  abbrev pub with_spec :
      PlanStep → Option ToolSpec → Next W → List String → Fields → Items → State W → Outcome W
  with_spec st none next done_ids saved calls s = (
    add_audit (entry "operation_whitelist_blocked" "" "blocked") s,
    some (
        fails p.intent "operation_not_whitelisted"
          (step_text st (" 工具 '" ∷ st.tool_name ∷ "' 未注册，不允许执行" ∷ []))
          (snoc calls (blocked_call st (not_registered st) end)) st),
  )
  with_spec st (some spec) next done_ids saved calls s =
      under_policy st spec (decision_on env.policy spec st.tool_name) next done_ids saved calls s

  abbrev pub with_deps :
      PlanStep → List String → Next W → List String → Fields → Items → State W → Outcome W
  with_deps st [] next done_ids saved calls s =
      with_spec st (get_tool st.tool_name env.gateway) next done_ids saved calls s
  with_deps st (m ∷ ms) next done_ids saved calls s = (
    s,
    some
        (record (fails p.intent "dependency_not_satisfied"
          (step_text st (" 依赖未满足: " ∷ env.str_of (arr (items_of (m ∷ ms))) ∷ [])) calls st) {
            missing_depends_on = m ∷ ms;
          }),
  )

  unfoldable pub run_steps : List PlanStep → Next W
  run_steps [] done_ids saved calls s =
      (s, some (succeeds p.intent (generate_answer env.str_of p saved) calls))
  run_steps (st ∷ sts) done_ids saved calls s =
      with_deps st (missing_deps st.depends_on done_ids) (run_steps sts) done_ids saved calls s

  -- `run` with the plan of the query
  unfoldable pub run_plan : State W → Outcome W
  run_plan s = if not p.matched then (s, some unmatched) else run_steps p.steps [] end nil s

module _ {W : Type 0} (env : Env W) (has_store : Bool) where
  -- `run`; a task id of `None` is the empty text
  unfoldable pub run : String → String → State W → Outcome W
  run query task_id s = run_plan env has_store query task_id (plan query) s
