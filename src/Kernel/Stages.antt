-- ===== src/Kernel/Stages.antt =====
-- The stages of the keyword chain in app/agent/graph/kernel.py, and their sequential run.
use project_b_multi_agent.ApprovalStore.{Approvals, Request, create_approval}
use project_b_multi_agent.Context.{AgentContext, assemble}
use project_b_multi_agent.Gateway.{ToolCallRecord, ToolSpec, get_tool, list_tools}
use project_b_multi_agent.Gateway.Call.{call}
use project_b_multi_agent.GraphRun.{shown}
use project_b_multi_agent.Hooks.{run_hooks}
use project_b_multi_agent.Json.{
  Fields, Value, dict, end, flag, get, get_fields, get_text, is_set, join_text, null, obj, text,
  truthy,
}
use project_b_multi_agent.Kernel.{
  Kernel, KernelState, TaskRun, TaskStatus, Work, is_waiting, waiting_approval,
}
use project_b_multi_agent.Policy.{PolicyDecision, evaluate, no_context, risk_text}
use project_b_multi_agent.Prelude.{
  Bool, List, Option, String, [], false, if◌then◌else◌, map, none, not, some, true, ◌&&◌, ◌+◌, ◌==◌,
  ◌∷◌,
}
use project_b_multi_agent.Raise.{Attempt, done, failed_with, give, ◌>>=◌, ◌>>◌}
use project_b_multi_agent.Resume.{or_null}

-- what `_execute` returns: nothing, the record of a call, or a dict
pub data ToolResult : Type 0 where
  no_result : ToolResult
  recorded : ToolCallRecord → ToolResult
  withheld : Fields → ToolResult

abbrev pub blocked_result : String → String → ToolResult
blocked_result tool_name reason =
    withheld
      (dict (("blocked", flag true) ∷ ("reason", text reason) ∷ ("tool_name", text tool_name) ∷ []))

abbrev pub approval_result : ToolSpec → String → String → String → ToolResult
approval_result spec tool_name approval_id reason = withheld (
    dict (
      ("blocked", flag true)
      ∷ ("requires_approval", flag true)
      ∷ ("approval_id", text approval_id)
      ∷ ("tool_name", text tool_name)
      ∷ ("risk_level", text (risk_text spec.risk_level))
      ∷ ("reason", text reason)
      ∷ []))

abbrev pub keyword_request : TaskRun → ToolSpec → String → String → Fields → Fields → Request
keyword_request task spec tool_name reason arguments plan_result = record {
  task_id = task.task_id;
  tool_name = tool_name;
  action = join_text ("调用工具 " ∷ tool_name ∷ []);
  risk_level = spec.risk_level;
  impact_scope = spec.permission_scope;
  agent_reason = reason;
  payload = some (
      dict (
        ("mode", text "keyword")
        ∷ ("query", text task.query)
        ∷ ("tool_name", text tool_name)
        ∷ ("arguments", obj arguments)
        ∷ ("plan_result", obj plan_result)
        ∷ []));
}

-- `_verify`
unfoldable pub verify : ToolResult → Bool
verify no_result = false
verify (recorded r) = r.success
verify (withheld d) = not (is_set "blocked" d)

abbrev pub unmatched_answer : Fields
unmatched_answer = dict (
    ("answer", text "抱歉，我暂时无法识别您的问题。当前支持查询：今日 GMV、本月新增用户、订单数量、Top 商品、退款率。")
    ∷ ("tool_called", null)
    ∷ ("success", flag false)
    ∷ [])

abbrev pub approval_answer : (Value → String) → Fields → Fields
approval_answer str_of d = dict (
    ("answer", text (join_text ("工具调用需要人工审批：" ∷ shown str_of (or_null (get "reason" d)) ∷ [])))
    ∷ ("tool_called", or_null (get "tool_name" d))
    ∷ ("success", flag false)
    ∷ ("requires_approval", flag true)
    ∷ ("approval_id", or_null (get "approval_id" d))
    ∷ ("risk_level", or_null (get "risk_level" d))
    ∷ ("blocked", flag true)
    ∷ [])

abbrev pub blocked_answer : (Value → String) → Fields → Fields
blocked_answer str_of d = dict (
    ("answer", text (join_text ("工具调用被策略拦截：" ∷ shown str_of (or_null (get "reason" d)) ∷ [])))
    ∷ ("tool_called", or_null (get "tool_name" d))
    ∷ ("success", flag false)
    ∷ ("blocked", flag true)
    ∷ [])

-- `tool_result.error`, in full-width parentheses, if there is one
abbrev pub error_note : (Value → String) → ToolResult → String
error_note str_of (recorded r) =
    if truthy r.error then join_text ("（" ∷ shown str_of r.error ∷ "）" ∷ []) else ""
error_note str_of _ = ""

abbrev pub failed_answer : (Value → String) → Fields → ToolResult → Fields
failed_answer str_of plan_result r = dict (
    ("answer", text (join_text ("工具调用失败" ∷ error_note str_of r ∷ "，请稍后重试。" ∷ [])))
    ∷ ("tool_called", or_null (get "tool_name" plan_result))
    ∷ ("success", flag false)
    ∷ [])

abbrev pub result_data : ToolResult → Value
result_data no_result = null
result_data (recorded r) = r.result
result_data (withheld d) = obj d

abbrev pub success_answer : (Value → String) → String → Fields → ToolResult → Fields
success_answer str_of label plan_result r = dict (
    ("answer", text (join_text (label ∷ "查询结果：" ∷ shown str_of (result_data r) ∷ [])))
    ∷ ("tool_called", or_null (get "tool_name" plan_result))
    ∷ ("data", result_data r)
    ∷ ("success", flag true)
    ∷ [])

abbrev pub is_withheld_with : String → ToolResult → Bool
is_withheld_with k (withheld d) = is_set k d
is_withheld_with k _ = false

abbrev pub fields_of : ToolResult → Fields
fields_of (withheld d) = d
fields_of _ = end

module _ {W : Type 0} (env : Kernel W) where
  -- `_assemble_context`
  unfoldable pub assemble_context : Work W AgentContext
  assemble_context k = (
    done (
        assemble k.task.task_id k.task.query end
          (map (λ (s : ToolSpec). s.tool_name) (list_tools env.gateway)) end end end
          (env.now k.reads)),
    record k { reads = k.reads + 1 },
  )

  -- `_plan`
  unfoldable pub make_plan : AgentContext → Work W Fields
  make_plan ctx = env.planner_plan ctx.user_query

  abbrev pub stored_approval : Option Approvals → String → Work W String
  stored_approval none approval_id k =
      (failed_with env.integrity_error, record k { reads = k.reads + 1 })
  stored_approval (some rows) approval_id k =
      (done approval_id, record k { approvals = rows; reads = k.reads + 1 })

  unfoldable pub ask_approval : Request → Work W String
  ask_approval q k =
      let approval_id = join_text ("apr_" ∷ env.uuid k.reads ∷ []) in
      stored_approval (create_approval approval_id (env.now k.reads) q k.approvals) approval_id k

  abbrev pub set_status : TaskStatus → Work W (Unit {0})
  set_status status k = (done tt, record k { task = record k.task { status = status } })

  abbrev pub read_task : Work W TaskRun
  read_task k = (done k.task, k)

  -- `self._hook_pipeline.run`; its payload is only searched for errors, which go to the trace
  abbrev pub after_hooks : KernelState W → Fields × W → Attempt (Unit {0}) × KernelState W
  after_hooks k (payload, w) = (done tt, record k { world = w })

  unfoldable pub run_stage_hooks : String → Fields → Work W (Unit {0})
  run_stage_hooks stage payload k = after_hooks k (run_hooks stage payload env.hooks k.world)

  abbrev pub after_call :
      KernelState W → ToolCallRecord × W → Attempt ToolCallRecord × KernelState W
  after_call k (r, w) = (done r, record k { world = w })

  unfoldable pub gateway_call : String → Fields → Work W ToolCallRecord
  gateway_call tool_name arguments k =
      after_call k (call env.gateway tool_name arguments k.task.task_id k.world)

  abbrev pub call_payload : TaskRun → String → List (String × Value) → Fields
  call_payload task tool_name more =
      dict (("task_id", text task.task_id) ∷ ("tool_name", text tool_name) ∷ more)

  unfoldable pub call_with_hooks : String → Fields → Work W ToolResult
  unfolding run_stage_hooks gateway_call
  call_with_hooks tool_name arguments = do
    task ← read_task
    run_stage_hooks "before_tool_call" (call_payload task tool_name [])
    r ← gateway_call tool_name arguments
    run_stage_hooks "after_tool_call"
        (call_payload task tool_name (("success", flag r.success) ∷ []))
    give (recorded r)

  unfoldable pub request_person : ToolSpec → String → String → Fields → Fields → Work W ToolResult
  unfolding ask_approval
  request_person spec tool_name reason arguments plan_result = do
    task ← read_task
    approval_id ← ask_approval (keyword_request task spec tool_name reason arguments plan_result)
    set_status waiting_approval
    give (approval_result spec tool_name approval_id reason)

  abbrev pub by_decision : PolicyDecision → ToolSpec → String → Fields → Fields → Work W ToolResult
  by_decision decision spec tool_name arguments plan_result =
      if decision.allowed
      then call_with_hooks tool_name arguments
      else if decision.requires_approval && env.has_approval_store
      then request_person spec tool_name decision.reason arguments plan_result
      else give (blocked_result tool_name decision.reason)

  abbrev pub by_spec : Option ToolSpec → String → Fields → Fields → Work W ToolResult
  by_spec none tool_name arguments plan_result = call_with_hooks tool_name arguments
  by_spec (some spec) tool_name arguments plan_result =
      by_decision (evaluate env.policy tool_name (some spec.risk_level) no_context) spec tool_name
        arguments plan_result

  -- `_execute`
  unfoldable pub execute_plan : Fields → Work W ToolResult
  unfolding call_with_hooks request_person
  execute_plan plan_result =
      let tool_name = get_text "tool_name" plan_result in
      if tool_name == ""
      then give no_result
      else by_spec (get_tool tool_name env.gateway) tool_name (get_fields "arguments" plan_result)
          plan_result

  -- `_respond`
  unfoldable pub respond_to : Fields → ToolResult → Bool → Fields
  respond_to plan_result r verified =
      if not (is_set "matched" plan_result)
      then unmatched_answer
      else if is_withheld_with "requires_approval" r
      then approval_answer env.str_of (fields_of r)
      else if is_withheld_with "blocked" r
      then blocked_answer env.str_of (fields_of r)
      else if not verified
      then failed_answer env.str_of plan_result r
      else success_answer env.str_of (env.planner_label (get_text "tool_name" plan_result))
          plan_result r

  abbrev pub conclude : Fields → ToolResult → Work W Fields
  conclude plan_result r k =
      if is_waiting k.task.status
      then (done (respond_to plan_result r false), k)
      else (done (respond_to plan_result r (verify r)), k)

  -- `_run_sequential`
  unfoldable pub run_sequential : Work W Fields
  unfolding assemble_context make_plan execute_plan respond_to verify
  run_sequential = do
    ctx ← assemble_context
    plan_result ← make_plan ctx
    r ← execute_plan plan_result
    conclude plan_result r
