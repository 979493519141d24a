-- ===== src/GraphRun/Responses.antt =====
-- The dicts that `run_keyword` of app/agent/graph/runtime_adapter.py builds: the state, what it
-- stores of a plan and of a call, and the responses.
use project_b_multi_agent.ApprovalStore.{Request}
use project_b_multi_agent.Gateway.{ToolCallRecord, ToolCallStatus, ToolSpec}
use project_b_multi_agent.GraphRun.{shown}
use project_b_multi_agent.Json.{
  Fields, Value, dict, end, flag, join_text, maybe_text, merge, null, num, obj, text, truthy,
}
use project_b_multi_agent.Keyword.{Plan}
use project_b_multi_agent.Policy.{PolicyDecision, risk_text}
use project_b_multi_agent.Prelude.{Bool, String, [], false, if◌then◌else◌, some, true, ◌∷◌}

abbrev pub initial_state : String → String → Fields
initial_state task_id query = dict (
    ("task_id", text task_id)
    ∷ ("query", text query)
    ∷ ("mode", text "keyword")
    ∷ ("stage", text "created")
    ∷ ("context", null)
    ∷ ("plan", null)
    ∷ ("execution_result", null)
    ∷ ("response", null)
    ∷ ("error", null)
    ∷ ("checkpoint_id", null)
    ∷ ("checkpoint_status", null)
    ∷ [])

abbrev pub plan_dict : Plan → Fields
plan_dict p = dict (
    ("tool_name", maybe_text p.tool_name)
    ∷ ("matched", flag p.matched)
    ∷ ("label", maybe_text p.label)
    ∷ [])

abbrev status_name : ToolCallStatus → String
status_name ToolCallStatus.running = "running"
status_name ToolCallStatus.completed = "completed"
status_name ToolCallStatus.failed = "failed"

-- `record.model_dump(mode="json")`, without the id, the latency and the time of the call
abbrev pub record_dict : ToolCallRecord → Fields
record_dict r = dict (
    ("tool_name", text r.tool_name)
    ∷ ("arguments", obj r.arguments)
    ∷ ("result", r.result)
    ∷ ("status", text (status_name r.status))
    ∷ ("success", flag r.success)
    ∷ ("retry_count", num r.retry_count)
    ∷ ("error", r.error)
    ∷ [])

abbrev pub unmatched_response : Fields
unmatched_response = dict (
    ("answer", text "抱歉，我暂时无法识别您的问题。当前支持查询：今日 GMV、本月新增用户、订单数量、Top 商品、退款率。")
    ∷ ("tool_called", null)
    ∷ ("success", flag false)
    ∷ ("graph_runtime", flag true)
    ∷ [])

abbrev pub not_registered : String → String
not_registered tool_name = join_text ("工具 '" ∷ tool_name ∷ "' 未注册" ∷ [])

abbrev pub unregistered_response : String → Fields
unregistered_response tool_name = dict (
    ("answer", text (not_registered tool_name))
    ∷ ("tool_called", text tool_name)
    ∷ ("success", flag false)
    ∷ ("graph_runtime", flag true)
    ∷ ("error", text (not_registered tool_name))
    ∷ [])

abbrev pub base_response : ToolSpec → PolicyDecision → String → Fields
base_response spec decision tool_name = dict (
    ("tool_called", text tool_name)
    ∷ ("success", flag false)
    ∷ ("requires_approval", flag true)
    ∷ ("not_supported", flag true)
    ∷ ("graph_runtime", flag true)
    ∷ ("risk_level", text (risk_text spec.risk_level))
    ∷ ("reason", text decision.reason)
    ∷ [])

abbrev pub held_response : Fields → String → Value → String → Bool → Fields
held_response base answer approval_id checkpoint_id graph_interrupt = merge base (
    dict (
      ("answer", text answer)
      ∷ ("approval_id", approval_id)
      ∷ ("checkpoint_id", text checkpoint_id)
      ∷ ("graph_interrupt", flag graph_interrupt)
      ∷ []))

abbrev pub no_store_answer : String → String
no_store_answer tool_name = join_text (
    "High-risk tool '" ∷ tool_name
    ∷ "' requires approval, but graph runtime has no approval_store; no approval was created." ∷ [])

abbrev pub created_answer : String → String
created_answer tool_name = join_text (
    "Approval has been created for high-risk tool '" ∷ tool_name
    ∷ "'; graph resume is not implemented yet." ∷ [])

abbrev pub graph_request :
    String → String → ToolSpec → PolicyDecision → String → String → Fields → Request
graph_request task_id query spec decision tool_name checkpoint_id interrupt_payload = record {
  task_id = task_id;
  tool_name = tool_name;
  action = join_text ("Graph runtime approval for " ∷ tool_name ∷ []);
  risk_level = spec.risk_level;
  impact_scope = spec.permission_scope;
  agent_reason = decision.reason;
  payload = some (
      dict (
        ("mode", text "graph_keyword")
        ∷ ("checkpoint_id", text checkpoint_id)
        ∷ ("graph_runtime", flag true)
        ∷ ("interrupt_payload", obj interrupt_payload)
        ∷ ("query", text query)
        ∷ ("tool_name", text tool_name)
        ∷ ("arguments", obj end)
        ∷ []));
}

abbrev pub success_response : String → String → ToolCallRecord → (Value → String) → Fields
success_response tool_name label r str_of = dict (
    ("answer", text (join_text (label ∷ "查询结果：" ∷ shown str_of r.result ∷ [])))
    ∷ ("tool_called", text tool_name)
    ∷ ("data", r.result)
    ∷ ("success", flag true)
    ∷ ("graph_runtime", flag true)
    ∷ [])

abbrev failure_answer : (Value → String) → Value → String
failure_answer str_of error =
    if truthy error
    then join_text ("工具调用失败（" ∷ shown str_of error ∷ "），请稍后重试。" ∷ [])
    else "工具调用失败，请稍后重试。"

abbrev pub failure_response : String → ToolCallRecord → (Value → String) → Fields
failure_response tool_name r str_of = dict (
    ("answer", text (failure_answer str_of r.error))
    ∷ ("tool_called", text tool_name)
    ∷ ("success", flag false)
    ∷ ("graph_runtime", flag true)
    ∷ ("error", r.error)
    ∷ [])
