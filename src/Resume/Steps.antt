-- ===== src/Resume/Steps.antt =====
-- `_execute_subsequent_steps` of app/services/approval_resume.py: the steps of a plan after the
-- approved one.
--
-- The plan is the JSON list that the payload holds. `str_of` is Python's `str`, and `fresh` the
-- id that `create_approval` would draw. The set of completed steps is the list of its elements.
pub mod Report
pub mod Complete
pub mod Risk
use project_b_multi_agent.ApprovalStore.{Approvals, Request, create_approval}
use project_b_multi_agent.Gateway.{Gateway, ToolCallRecord, ToolSpec, get_tool}
use project_b_multi_agent.Gateway.Call.{call}
use project_b_multi_agent.Json.{Fields, Items, Value, arr, as_fields, cons, join_text, nil}
use project_b_multi_agent.Policy.{Lookup, PolicyDecision, evaluate, no_context}
use project_b_multi_agent.Prelude.{
  List, Option, String, [], if◌then◌else◌, mem_text, none, some, true, ℕ, ◌∷◌,
}
use project_b_multi_agent.Resolve.{
  Resolved, record_value, resolve_fields, resolve_variable_or_fail, resolved, unresolved,
}
use project_b_multi_agent.Resume.{State}
use project_b_multi_agent.Resume.Steps.Report.{
  Step, Subsequent, all_done, call_data, items_of, missing_deps, save, saved_name, snoc, step_of,
  step_payload, stopped, waits_for,
}

-- what the loop works with besides its variables
pub record Env (W : Type 0) : Type 0 where
  pub gateway : Gateway W
  pub policy : Option (Option (Option Lookup))
  pub str_of : Value → String
  pub fresh : String
  pub now : ℕ

-- `none` is the exception of an INSERT with an id that is taken
abbrev pub Answer : Type 0 → Type 0
Answer W = State W × Option Subsequent

-- the loop's variables: completed steps, saved results, calls
abbrev pub Next : Type 0 → Type 0
Next W = List String → Fields → Items → State W → Answer W

-- the engine is asked about the tool at its risk level
abbrev pub decision_on : Option (Option (Option Lookup)) → ToolSpec → String → Option PolicyDecision
decision_on none spec tool_name = none
decision_on (some whitelist) spec tool_name =
    some (evaluate whitelist tool_name (some spec.risk_level) no_context)

module _ {W : Type 0} (env : Env W) (task_id : String) (steps : Items) where
  abbrev pub step_text : Step → List String → String
  step_text st parts = join_text ("步骤 " ∷ st.step_id ∷ parts)

  abbrev pub after_call :
      Step → ToolCallRecord × W → Next W → List String → Fields → Items → State W → Answer W
  after_call st (r, w) next done_ids saved calls s =
      let calls' = snoc calls (call_data st r) in
      let s' = record s { world = w } in
      let go_on =
        next (st.step_id ∷ done_ids) (save (saved_name st.save_as) (record_value r) saved) calls'
          s' in
      if r.success
      then go_on
      else (s', some (stopped (step_text st (" 工具调用失败: " ∷ env.str_of r.error ∷ [])) none calls'))

  abbrev pub run_resolved :
      Step → Resolved Fields → Next W → List String → Fields → Items → State W → Answer W
  run_resolved st (unresolved path) next done_ids saved calls s =
      (s, some (stopped (step_text st (" 变量解析失败: $" ∷ path ∷ [])) none calls))
  run_resolved st (resolved arguments) next done_ids saved calls s =
      after_call st (call env.gateway st.tool_name arguments "" s.world) next done_ids saved calls s

  abbrev pub created : Option Approvals → Items → State W → Answer W
  created none calls s = (s, none)
  created (some rows) calls s = (record s { approvals = rows }, some (waits_for env.fresh calls))

  abbrev pub request_of : Step → ToolSpec → PolicyDecision → List String → Items → Request
  request_of st spec d done_ids calls = record {
    task_id = task_id;
    tool_name = st.tool_name;
    action = join_text ("多工具恢复步骤 " ∷ st.step_id ∷ " 调用 " ∷ st.tool_name ∷ []);
    risk_level = spec.risk_level;
    impact_scope = spec.permission_scope;
    agent_reason = d.reason;
    payload = some (step_payload steps st done_ids calls);
  }

  abbrev pub under_policy :
      Step
      → ToolSpec
      → Option PolicyDecision
      → Next W
      → List String
      → Fields
      → Items
      → State W
      → Answer W
  under_policy st spec none next done_ids saved calls s =
      run_resolved st (resolve_fields (resolve_variable_or_fail saved) st.arguments) next done_ids
        saved calls s
  under_policy st spec (some d) next done_ids saved calls s =
      if d.allowed
      then run_resolved st (resolve_fields (resolve_variable_or_fail saved) st.arguments) next
          done_ids saved calls s
      else if d.requires_approval
      then created
          (create_approval env.fresh env.now (request_of st spec d done_ids calls) s.approvals)
          calls s
      else (s, some (stopped (step_text st (" 被策略拦截: " ∷ d.reason ∷ [])) none calls))

  abbrev pub with_spec :
      Step → Option ToolSpec → Next W → List String → Fields → Items → State W → Answer W
  with_spec st none next done_ids saved calls s = (
    s,
    some (
        stopped (step_text st (" 工具 '" ∷ st.tool_name ∷ "' 未注册，不允许执行" ∷ []))
          (some "operation_not_whitelisted") calls),
  )
  with_spec st (some spec) next done_ids saved calls s =
      under_policy st spec (decision_on env.policy spec st.tool_name) next done_ids saved calls s

  abbrev pub with_deps :
      Step → List String → Next W → List String → Fields → Items → State W → Answer W
  with_deps st [] next done_ids saved calls s =
      with_spec st (get_tool st.tool_name env.gateway) next done_ids saved calls s
  with_deps st (m ∷ ms) next done_ids saved calls s = (
    s,
    some
        (record (stopped (step_text st (" 依赖未满足: " ∷ env.str_of (arr (items_of (m ∷ ms))) ∷ []))
          (some "resume_dependency_not_satisfied") calls) {
            missing_depends_on = m ∷ ms;
            dependency_error = true;
          }),
  )

  -- the body of the loop; `next` is the rest of the loop
  abbrev pub step_body : Step → Next W → List String → Fields → Items → State W → Answer W
  step_body st next done_ids saved calls s =
      if mem_text st.step_id done_ids
      then next done_ids saved calls s
      else with_deps st (missing_deps st.depends_on done_ids) next done_ids saved calls s

  unfoldable pub steps_loop : Items → Next W
  steps_loop nil done_ids saved calls s = (s, some (all_done calls))
  steps_loop (cons v rest) done_ids saved calls s =
      step_body (step_of (as_fields (some v))) (steps_loop rest) done_ids saved calls s

  unfoldable pub execute_subsequent_steps : Next W
  unfolding steps_loop
  execute_subsequent_steps = steps_loop steps
