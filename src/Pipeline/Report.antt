-- ===== src/Pipeline/Report.antt =====
-- What a run reports: its dict, its calls and its answer (app/services/multitool_pipeline.py).
--
-- The tools that the answers quote return dicts; a `get` on another value, which would raise, is
-- read as a key that is absent.
use project_b_multi_agent.Gateway.{ToolCallRecord}
use project_b_multi_agent.Json.{
  Fields, Items, Value, arr, as_fields, cons, dict, field, flag, get, join_text, maybe_text, nil,
  null, num, obj, text, truthy,
}
use project_b_multi_agent.Planner.{Plan, PlanStep}
use project_b_multi_agent.Prelude.{
  Bool, List, Option, String, [], false, if◌then◌else◌, none, some, true, ◌==◌, ◌∷◌,
}
use project_b_multi_agent.Resume.{or_null}
use project_b_multi_agent.Resume.Steps.Report.{items_of}

-- the dict that `run` returns, without `mode` and `plan`
pub record Run : Type 0 where
  pub success : Bool
  pub intent : String
  pub error_type : Option String
  pub missing_depends_on : List String
  pub error_path : Option String
  pub approval_id : Option String
  pub answer : String
  pub tool_calls : Items
  pub failed_step : Option String

abbrev pub succeeds : String → String → Items → Run
succeeds intent answer calls = record {
  success = true;
  intent = intent;
  error_type = none;
  missing_depends_on = [];
  error_path = none;
  approval_id = none;
  answer = answer;
  tool_calls = calls;
  failed_step = none;
}

abbrev pub fails : String → String → String → Items → PlanStep → Run
fails intent error_type answer calls st = record (succeeds intent answer calls) {
  success = false;
  error_type = some error_type;
  failed_step = some st.step_id;
}

abbrev pub unmatched : Run
unmatched = record (succeeds "" "未匹配多工具任务" nil) { success = false }

-- `plan.model_dump()`
abbrev pub step_value : PlanStep → Value
step_value st = obj (
    dict (
      ("step_id", text st.step_id)
      ∷ ("tool_name", text st.tool_name)
      ∷ ("arguments", obj st.arguments)
      ∷ ("depends_on", arr (items_of st.depends_on))
      ∷ ("save_as", maybe_text st.save_as)
      ∷ []))

abbrev pub steps_value : List PlanStep → Items
steps_value [] = nil
steps_value (st ∷ sts) = cons (step_value st) (steps_value sts)

abbrev pub plan_value : Plan → Value
plan_value p = obj (
    dict (
      ("matched", flag p.matched)
      ∷ ("intent", text p.intent)
      ∷ ("steps", arr (steps_value p.steps))
      ∷ ("response_template", text p.response_template)
      ∷ ("reason", text p.reason)
      ∷ []))

-- the entries of `tool_calls`
abbrev pub blocked_call : PlanStep → String → Fields → Value
blocked_call st error rest = obj (
    field "step_id" (text st.step_id) (
      field "tool_name" (text st.tool_name) (
        field "arguments" (obj st.arguments) (
          field "success" (flag false) (
            field "result" null
              (field "error" (text error) (field "policy_blocked" (flag true) rest)))))))

abbrev pub made_call : PlanStep → ToolCallRecord → Value
made_call st r = obj (
    dict (
      ("step_id", text st.step_id)
      ∷ ("tool_name", text r.tool_name)
      ∷ ("arguments", obj r.arguments)
      ∷ ("success", flag r.success)
      ∷ ("result", r.result)
      ∷ ("error", r.error)
      ∷ ("retry_count", num r.retry_count)
      ∷ ("save_as", maybe_text st.save_as)
      ∷ []))

abbrev pub awaiting : String → Fields
awaiting new_id = dict (("requires_approval", flag true) ∷ ("approval_id", text new_id) ∷ [])

abbrev pub not_registered : PlanStep → String
not_registered st = join_text ("工具 '" ∷ st.tool_name ∷ "' 未在 ToolGateway 注册" ∷ [])

-- `saved.get(name).result.get(key, default)`, where there is a result
abbrev pub result_of : String → Fields → Value
result_of name saved = or_null (get "result" (as_fields (get name saved)))

abbrev pub saved_value : String → String → Value → Fields → Value
saved_value name key default saved =
    if truthy (result_of name saved)
    then elim (get key (as_fields (some (result_of name saved)))) [ none ↦ default | some v ↦ v ]
    else default

-- `_generate_answer`
abbrev pub generate_answer : (Value → String) → Plan → Fields → String
generate_answer str_of p saved =
    let unknown = text "未知" in
    if p.intent == "gmv_mom"
    then join_text (
        "截至 "
        ∷ str_of (saved_value "date_info" "date" unknown saved)
        ∷ "，当前 GMV 为 "
        ∷ str_of (saved_value "current_gmv" "gmv" (num 0) saved)
        ∷ "，环比变化 "
        ∷ str_of (saved_value "mom_change" "result" (num 0) saved)
        ∷ "%（上期基线 mock=100000）"
        ∷ [])
    else if p.intent == "refund_rule"
    then join_text (
        "退款规则："
        ∷ str_of (saved_value "refund_rule" "rule" unknown saved)
        ∷ "；当前退款率："
        ∷ str_of (saved_value "refund_rate" "refund_rate_percent" (num 0) saved)
        ∷ "%"
        ∷ [])
    else if p.intent == "promotion_rule"
    then join_text ("促销规则：" ∷ str_of (saved_value "promotion_rule" "rule" unknown saved) ∷ [])
    else p.response_template

-- `if step.save_as`
abbrev pub save_name : Option String → Option String
save_name none = none
save_name (some s) = if s == "" then none else some s
