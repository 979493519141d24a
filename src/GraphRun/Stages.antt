-- ===== src/GraphRun/Stages.antt =====
-- `GraphRuntimeAdapter.run_keyword` of app/agent/graph/runtime_adapter.py, stage by stage.
use project_b_multi_agent.ApprovalStore.{Approvals, Request, create_approval}
use project_b_multi_agent.CheckpointStore.{
  CheckpointStatus, blocked, completed, failed, interrupted, mark_pending_interrupt, running,
}
use project_b_multi_agent.Context.{AgentContext, assemble, dump_context}
use project_b_multi_agent.Gateway.{ToolCallRecord, ToolSpec, get_tool, list_tools}
use project_b_multi_agent.Gateway.Call.{call}
use project_b_multi_agent.GraphRun.{
  Adapter, Machine, Run, build_tool_approval_interrupt_payload, checkpoint, set_key,
}
use project_b_multi_agent.GraphRun.Responses.{
  base_response, created_answer, failure_response, graph_request, held_response, initial_state,
  no_store_answer, not_registered, plan_dict, record_dict, success_response, unmatched_response,
  unregistered_response,
}
use project_b_multi_agent.Json.{Fields, dict, end, flag, get_text, join_text, null, obj, put, text}
use project_b_multi_agent.Keyword.{get_label, label_or, plan}
use project_b_multi_agent.Policy.{PolicyDecision, evaluate, is_high, no_context, risk_text}
use project_b_multi_agent.Prelude.{
  Bool, Option, String, [], false, if◌then◌else◌, map, none, not, some, true, ℕ, ◌+◌, ◌==◌, ◌||◌,
  ◌∷◌,
}
use project_b_multi_agent.Raise.{Attempt, done, failed_with, give, recover, ◌>>=◌, ◌>>◌}
use project_b_multi_agent.Resume.{State, add_audit}

module _ {W : Type 0} (env : Adapter W) (task_id query : String) where
  -- the last stage: the response is stored with the state and returned
  abbrev pub respond : Fields → CheckpointStatus → Run W Fields
  respond response status = do
    set_key "stage" (text "respond")
    set_key "response" (obj response)
    checkpoint_id ← checkpoint env task_id "respond" status
    give response

  abbrev pub respond_unregistered : String → Run W Fields
  respond_unregistered tool_name = do
    set_key "error" (text (not_registered tool_name))
    respond (unregistered_response tool_name) failed

  -- `create_approval` with an id of its own
  abbrev pub approval_stored : Option Approvals → String → Machine W → Attempt String × Machine W
  approval_stored none approval_id m =
      (failed_with env.integrity_error, record m { draws = m.draws + 1 })
  approval_stored (some rows) approval_id m = (
    done approval_id,
    record m { stores = record m.stores { approvals = rows }; draws = m.draws + 1 },
  )

  unfoldable pub request_approval : Request → Run W String
  request_approval q m =
      let approval_id = join_text ("apr_" ∷ env.uuid m.draws ∷ []) in
      approval_stored (create_approval approval_id (env.now m.draws) q m.stores.approvals)
        approval_id m

  -- `mark_pending_interrupt` with the state as it is then
  unfoldable pub mark_interrupt : String → String → Fields → Run W (Unit {0})
  mark_interrupt checkpoint_id approval_id interrupt_payload m =
      let rows =
        (mark_pending_interrupt checkpoint_id approval_id interrupt_payload (some m.state)
          (env.now m.draws) m.stores.checkpoints).0 in
      (done tt, record m { stores = record m.stores { checkpoints = rows } })

  -- `_audit`
  unfoldable pub audit_interrupt : String → Run W (Unit {0})
  audit_interrupt approval_id m = (
    done tt,
    record m {
      stores =
          add_audit
            (record {
              event_type = "graph_interrupt_approval_created";
              task_id = task_id;
              approval_id = approval_id;
              action = "graph_interrupt";
              outcome = "success";
            })
            m.stores;
    },
  )

  -- what the interrupt of the tool call tells the person who approves it
  abbrev pub interrupt_of : ToolSpec → PolicyDecision → String → String → ℕ → Fields
  interrupt_of spec decision tool_name checkpoint_id now =
      build_tool_approval_interrupt_payload task_id checkpoint_id tool_name
        (risk_text spec.risk_level) spec.permission_scope decision decision.reason end
        (dict (("checkpoint_id", text checkpoint_id) ∷ [])) "keyword" "execute" now

  abbrev pub hold_without_store : ToolSpec → PolicyDecision → String → String → Run W Fields
  hold_without_store spec decision tool_name checkpoint_id =
      let response =
        held_response (base_response spec decision tool_name) (no_store_answer tool_name) null
          checkpoint_id false in
      do set_key "response" (obj response); give response

  abbrev pub read_time : Run W ℕ
  read_time m = (done (env.now m.draws), m)

  abbrev pub hold_for_approval : ToolSpec → PolicyDecision → String → String → Run W Fields
  hold_for_approval spec decision tool_name checkpoint_id = do
    now ← read_time
    let interrupt_payload = interrupt_of spec decision tool_name checkpoint_id now
    approval_id ←
        request_approval
          (graph_request task_id query spec decision tool_name checkpoint_id interrupt_payload)
    let response =
        held_response (base_response spec decision tool_name) (created_answer tool_name)
          (text approval_id) checkpoint_id true
    set_key "execution_result" (obj response)
    set_key "response" (obj response)
    mark_interrupt checkpoint_id approval_id interrupt_payload
    audit_interrupt approval_id
    give response

  -- a tool that needs a person: it is not called
  unfoldable pub hold : ToolSpec → PolicyDecision → String → Run W Fields
  unfolding request_approval mark_interrupt audit_interrupt
  hold spec decision tool_name = do
    set_key "stage" (text "execute")
    set_key "execution_result" (obj (base_response spec decision tool_name))
    checkpoint_id ←
        checkpoint env task_id "execute" (if env.has_approval_store then interrupted else blocked)
    (if env.has_approval_store
        then hold_for_approval spec decision tool_name checkpoint_id
        else hold_without_store spec decision tool_name checkpoint_id)

  -- `self._gateway.call(tool_name, task_id=task_id)`
  abbrev pub called : ToolCallRecord × W → Machine W → Attempt ToolCallRecord × Machine W
  called (r, w) m = (done r, record m { stores = record m.stores { world = w } })

  unfoldable pub call_tool : String → Run W ToolCallRecord
  call_tool tool_name m = called (call env.gateway tool_name end task_id m.stores.world) m

  abbrev pub answer_of : String → ToolCallRecord → Fields
  answer_of tool_name r =
      if r.success
      then success_response tool_name (label_or "None" (get_label env.rules (some tool_name))) r
          env.str_of
      else failure_response tool_name r env.str_of

  unfoldable pub execute_tool : String → Run W Fields
  unfolding call_tool
  execute_tool tool_name = do
    r ← call_tool tool_name
    set_key "stage" (text "execute")
    set_key "execution_result" (obj (record_dict r))
    executed ← checkpoint env task_id "execute" running
    set_key "stage" (text "verify")
    set_key "execution_result" (obj (put "verified" (flag r.success) (record_dict r)))
    verified ← checkpoint env task_id "verify" running
    respond (answer_of tool_name r) (if r.success then completed else failed)

  abbrev pub needs_person : ToolSpec → PolicyDecision → Bool
  needs_person spec decision = is_high (some spec.risk_level) || decision.requires_approval

  abbrev pub decision_on : ToolSpec → String → PolicyDecision
  decision_on spec tool_name = evaluate env.policy tool_name (some spec.risk_level) no_context

  abbrev pub run_tool : Option ToolSpec → String → Run W Fields
  run_tool none tool_name = respond_unregistered tool_name
  run_tool (some spec) tool_name =
      let decision = decision_on spec tool_name in
      if needs_person spec decision then hold spec decision tool_name else execute_tool tool_name

  abbrev pub run_plan : Option String → Bool → Run W Fields
  run_plan none matched = respond unmatched_response completed
  run_plan (some tool_name) matched =
      if not matched || tool_name == ""
      then respond unmatched_response completed
      else run_tool (get_tool tool_name env.gateway) tool_name

  abbrev pub context_at : ℕ → AgentContext
  context_at now =
      assemble task_id query end (map (λ (s : ToolSpec). s.tool_name) (list_tools env.gateway)) end
        end end now

  -- the `try` block
  unfoldable pub run_stages : Run W Fields
  unfolding hold execute_tool
  run_stages = do
    now ← read_time
    set_key "stage" (text "assemble_context")
    set_key "context" (obj (dump_context (context_at now)))
    assembled ← checkpoint env task_id "assemble_context" running
    let p = plan env.switches env.rules query
    set_key "stage" (text "plan")
    set_key "plan" (obj (plan_dict p))
    planned ← checkpoint env task_id "plan" running
    run_plan p.tool_name p.matched

  -- the handler: its checkpoint is of the stage that was reached, and may raise as well
  abbrev pub error_response : String → Fields
  error_response e =
      dict (("success", flag false) ∷ ("error", text e) ∷ ("graph_runtime", flag true) ∷ [])

  abbrev pub stage_or : String → String
  stage_or stage = if stage == "" then "error" else stage

  unfoldable pub report_error : String → Run W Fields
  report_error e m =
      (do
        set_key "error" (text e)
        set_key "response" (obj (error_response e))
        checkpoint_id ← checkpoint env task_id (stage_or (get_text "stage" m.state)) failed
        give (error_response e))
        m

  abbrev pub begin : State W → ℕ → Machine W
  begin stores draws = record {
    stores = stores;
    state = initial_state task_id query;
    draws = draws;
  }

  unfoldable pub run_keyword : State W → ℕ → Attempt Fields × Machine W
  unfolding run_stages report_error
  run_keyword stores draws = recover (run_stages (begin stores draws)) report_error
