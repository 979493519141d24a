-- ===== src/Resume/Service.antt =====
-- `ApprovalResumeService.resume` of app/services/approval_resume.py.
pub mod Keeps
pub mod Closes
pub mod Once
pub mod Outcomes
pub mod Others
use project_b_multi_agent.ApprovalStore.{
  Approval, get_approval, is_approved, payload_of, status_text, update_payload,
}
use project_b_multi_agent.Json.{
  Fields, Items, Value, arr, as_num, dict, end, flag, get, get_fields, get_text, is_set, join_text,
  num, obj, or_null, text,
}
use project_b_multi_agent.Policy.{OperationDecision, check_payload_integrity}
use project_b_multi_agent.Prelude.{
  Option, String, [], false, if◌then◌else◌, none, not, some, true, ◌+◌, ◌==◌, ◌∷◌,
}
use project_b_multi_agent.Resume.{AuditEntry, Clock, State, add_audit}
use project_b_multi_agent.Resume.Graph.{resume_graph}
use project_b_multi_agent.Resume.Multitool.{resume_keyword, resume_multitool}
use project_b_multi_agent.Resume.Steps.{Env}

abbrev pub not_found : String → Fields
not_found approval_id = dict (
    ("error", text (join_text ("审批请求 '" ∷ approval_id ∷ "' 不存在" ∷ [])))
    ∷ ("resumed", flag false)
    ∷ [])

abbrev pub not_approved : String → Fields
not_approved status = dict (
    ("error", text (join_text ("审批状态为 " ∷ status ∷ "，无法恢复执行" ∷ []))) ∷ ("resumed", flag false) ∷ [])

abbrev pub resumed_before : String → String → Fields → Fields
resumed_before approval_id task_id payload = dict (
    ("already_resumed", flag true)
    ∷ ("approval_id", text approval_id)
    ∷ ("task_id", text task_id)
    ∷ ("resume_result", or_null (get "resume_result" payload))
    ∷ [])

abbrev pub missing_checkpoint : String → Fields
missing_checkpoint approval_id = dict (
    ("resumed", flag false)
    ∷ ("error", text "graph_keyword approval missing checkpoint_id")
    ∷ ("error_type", text "missing_checkpoint_id")
    ∷ ("approval_id", text approval_id)
    ∷ [])

abbrev pub tampered : String → OperationDecision → Fields
tampered approval_id d = dict (
    ("resumed", flag false)
    ∷ ("error", text d.reason)
    ∷ ("error_type", text "approval_payload_tampered")
    ∷ ("approval_id", text approval_id)
    ∷ ("approval_consumed", flag false)
    ∷ [])

abbrev pub unsupported_mode : String → String → Fields
unsupported_mode approval_id mode = dict (
    ("resumed", flag false)
    ∷ ("error", text (join_text ("不支持的 resume mode: " ∷ mode ∷ [])))
    ∷ ("approval_id", text approval_id)
    ∷ [])

abbrev pub steps_in : Option Value → Option Items
steps_in (some (arr xs)) = some xs
steps_in _ = none

-- `plan_steps` of the integrity check
abbrev pub plan_steps : Fields → Option Items
plan_steps payload =
    if get_text "mode" payload == "multitool"
    then steps_in (get "steps" (get_fields "plan" payload))
    else none

abbrev pub value_or : Value → Option Value → Value
value_or v none = v
value_or v (some w) = w

-- the payload update after a resume that consumed the approval, and after one that did not
abbrev pub consumed_update : Fields → Fields
consumed_update result = dict (
    ("resumed", flag true)
    ∷ ("resume_status", value_or (text "completed") (get "resume_status" result))
    ∷ ("resume_result", obj result)
    ∷ ("approval_consumed", flag true)
    ∷ [])

abbrev pub retry_update : Fields → Fields → Fields
retry_update current result = dict (
    ("resume_status", text "failed")
    ∷ ("last_resume_result", obj result)
    ∷ ("last_resume_error", value_or (text "") (get "error" result))
    ∷ ("resume_attempt_count", num (as_num (get "resume_attempt_count" current) + 1))
    ∷ [])

abbrev pub current_payload : Option Approval → Fields
current_payload none = end
current_payload (some r) = payload_of r.payload

abbrev pub update_after : Fields → Option Approval → Fields
update_after result row =
    if is_set "approval_consumed" result
    then consumed_update result
    else retry_update (current_payload row) result

abbrev pub resume_entry : String → String → String → String → AuditEntry
resume_entry event_type task_id approval_id outcome = record {
  event_type = event_type;
  task_id = task_id;
  approval_id = approval_id;
  action = "resume";
  outcome = outcome;
}

module _ {W : Type 0} where
  -- the write of the outcome to the approval's payload
  unfoldable pub settle : String → Fields → State W → State W
  settle approval_id result s = record s {
    approvals =
        (update_payload approval_id (update_after result (get_approval approval_id s.approvals))
          s.approvals).0;
  }

  abbrev pub settled : String → State W × Option Fields → State W × Option Fields
  settled approval_id (s, none) = (s, none)
  settled approval_id (s, some result) = (settle approval_id result s, some result)

  abbrev pub answered : State W × Fields → State W × Option Fields
  answered (s, d) = (s, some d)

module _ {W : Type 0} (env : Env W) (clock : Clock) where
  abbrev pub by_mode : String → Approval → Fields → State W → State W × Option Fields
  by_mode approval_id r payload s =
      let mode = get_text "mode" payload in
      if mode == "keyword"
      then answered (resume_keyword env clock.updated_at approval_id r.task_id payload s)
      else if mode == "multitool"
      then resume_multitool env clock.updated_at approval_id r.task_id payload s
      else (s, some (unsupported_mode approval_id mode))

  abbrev pub checked :
      String → Approval → Fields → OperationDecision → State W → State W × Option Fields
  checked approval_id r payload integrity s =
      if not integrity.allowed
      then (
        add_audit (resume_entry "approval_payload_tampered" r.task_id approval_id "blocked") s,
        some (tampered approval_id integrity),
      )
      else settled approval_id (by_mode approval_id r payload s)

  abbrev pub started : String → Approval → Fields → State W → State W × Option Fields
  started approval_id r payload s =
      if get_text "mode" payload == "graph_keyword"
      then (if get_text "checkpoint_id" payload == ""
          then (s, some (missing_checkpoint approval_id))
          else answered (resume_graph env.gateway clock approval_id r s))
      else checked approval_id r payload
          (check_payload_integrity env.str_of payload r.tool_name (plan_steps payload)) s

  abbrev pub with_approval : String → Option Approval → State W → State W × Option Fields
  with_approval approval_id none s = (s, some (not_found approval_id))
  with_approval approval_id (some r) s =
      let payload = payload_of r.payload in
      if not (is_approved r.status)
      then (s, some (not_approved (status_text r.status)))
      else if is_set "resumed" payload
      then (s, some (resumed_before approval_id r.task_id payload))
      else started approval_id r payload
          (add_audit (resume_entry "approval_resume_started" r.task_id approval_id "success") s)

  unfoldable pub resume : String → State W → State W × Option Fields
  resume approval_id s = with_approval approval_id (get_approval approval_id s.approvals) s
