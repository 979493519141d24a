-- ===== src/Resume/Graph.antt =====
-- app/agent/graph/resume_adapter.py: an approved tool call is resumed from its checkpoint.
--
-- `gateway.call` returns a failed record where a tool raises, and never raises itself, so the
-- handler around it is not reached and is left out.
pub mod Once
use project_b_multi_agent.ApprovalStore.{Approval, payload_of, update_payload}
use project_b_multi_agent.CheckpointStore.{
  Checkpoint, CheckpointStatus, Checkpoints, cancelled, claim_for_resume, completed, expired,
  get_checkpoint, later, mark_resumed, resumed,
}
use project_b_multi_agent.CheckpointStore.Claims.{claimed}
use project_b_multi_agent.Gateway.{Gateway, ToolCallRecord}
use project_b_multi_agent.Gateway.Call.{call}
use project_b_multi_agent.Json.{
  Fields, Value, dict, end, field, flag, get, get_fields, get_text, is_set, null, obj, text, truthy,
}
use project_b_multi_agent.Prelude.{
  Bool, Option, String, [], false, if◌then◌else◌, none, not, some, true, ◌++◌, ◌==◌, ◌∷◌,
}
use project_b_multi_agent.Resume.{Clock, State, or_fields, or_null, or_text}
use project_b_multi_agent.TaskStore.{update_task_status}

-- `record.error` in a result, where it is truthy
abbrev pub error_fields : Value → Fields → Fields
error_fields error rest =
    if truthy error
    then field "error" error (field "error_type" (text "tool_call_failed") rest)
    else rest

abbrev pub finished_text : Bool → String
finished_text true = "completed"
finished_text false = "failed"

abbrev pub outcome_text : Bool → String
outcome_text true = "success"
outcome_text false = "failed"

-- `_build_result` for a record; `error` is none there
unfoldable pub build_result : String → String → String → ToolCallRecord → Fields
build_result approval_id checkpoint_id tool_name r = field "mode" (text "graph_keyword") (
    field "graph_resumed" (flag true) (
      field "resumed_from_approval" (flag true) (
        field "approval_id" (text approval_id) (
          field "checkpoint_id" (text checkpoint_id) (
            field "tool_called" (text tool_name) (
              field "data" r.result (
                field "success" (flag r.success) (
                  field "approved_step_executed" (flag true) (
                    field "approval_consumed" (flag true) (
                      field "resume_status" (text (finished_text r.success))
                        (error_fields r.error end)))))))))))

abbrev pub already_resumed : String → String → Value → Fields
already_resumed approval_id checkpoint_id result = dict (
    ("already_resumed", flag true)
    ∷ ("approval_id", text approval_id)
    ∷ ("checkpoint_id", text checkpoint_id)
    ∷ ("resume_result", result)
    ∷ [])

abbrev pub not_resumed : String → String → String → String → Fields
not_resumed approval_id checkpoint_id error error_type = dict (
    ("resumed", flag false)
    ∷ ("approval_id", text approval_id)
    ∷ ("checkpoint_id", text checkpoint_id)
    ∷ ("error", text error)
    ∷ ("error_type", text error_type)
    ∷ [])

abbrev pub maybe_fields : Option Fields → Value
maybe_fields none = null
maybe_fields (some d) = obj d

abbrev pub by_status : CheckpointStatus → Bool → Option Fields → String → String → Fields
by_status resumed true snapshot a c = already_resumed a c (maybe_fields snapshot)
by_status completed true snapshot a c = already_resumed a c (maybe_fields snapshot)
by_status cancelled consumed snapshot a c =
    not_resumed a c "checkpoint cancelled" "checkpoint_cancelled"
by_status expired consumed snapshot a c = not_resumed a c "checkpoint expired" "checkpoint_expired"
by_status _ consumed snapshot a c =
    not_resumed a c "checkpoint claim failed" "checkpoint_claim_failed"

unfoldable pub handle_claim_failed : String → String → Option Checkpoint → Fields
handle_claim_failed approval_id checkpoint_id none =
    not_resumed approval_id checkpoint_id "checkpoint claim failed" "checkpoint_claim_failed"
handle_claim_failed approval_id checkpoint_id (some c) =
    by_status c.status c.consumed c.result_snapshot approval_id checkpoint_id

abbrev pub graph_tool : Approval → Fields → Fields → String
graph_tool approval request payload =
    or_text (get_text "tool_name" request)
      (or_text (get_text "tool_name" payload) approval.tool_name)

abbrev pub graph_arguments : Fields → Fields → Fields
graph_arguments request payload =
    or_fields (get_fields "arguments" request) (get_fields "arguments" payload)

-- the early returns, before the claim
unfoldable pub early_answer : String → Fields → Option Fields
early_answer approval_id payload =
    let checkpoint_id = get_text "checkpoint_id" payload in
    if not (get_text "mode" payload == "graph_keyword")
    then some (
        dict (
          ("resumed", flag false)
          ∷ ("approval_id", text approval_id)
          ∷ ("error", text "unsupported graph resume mode")
          ∷ ("error_type", text "unsupported_graph_resume_mode")
          ∷ []))
    else if checkpoint_id == ""
    then some (
        dict (
          ("resumed", flag false)
          ∷ ("approval_id", text approval_id)
          ∷ ("error", text "graph_keyword approval missing checkpoint_id")
          ∷ ("error_type", text "missing_checkpoint_id")
          ∷ []))
    else if is_set "resumed" payload
    then some (already_resumed approval_id checkpoint_id (or_null (get "resume_result" payload)))
    else none

module _ {W : Type 0} (gateway : Gateway W) where
  -- after the claim: the call, and the writes of its result to the three stores
  unfoldable pub run_claimed :
      Clock → String → Approval → String → Checkpoint → State W → State W × Fields
  run_claimed clock approval_id approval checkpoint_id claimed s =
      let payload = payload_of approval.payload in
      let request =
        or_fields (get_fields "interrupt_payload" payload) (payload_of claimed.pending_interrupt) in
      let tool_name = graph_tool approval request payload in
      let (r, w) =
        call gateway tool_name (graph_arguments request payload) approval.task_id s.world in
      let result = build_result approval_id checkpoint_id tool_name r in
      let tasks =
        (update_task_status approval.task_id (finished_text r.success) (some result)
          clock.updated_at s.tasks).0 in
      let checkpoints =
        (mark_resumed checkpoint_id
          (dict (("decision", text "approved") ∷ ("approval_id", text approval_id) ∷ []))
          (some result) clock.resumed_at s.checkpoints).0 in
      let approvals =
        (update_payload approval_id
          (dict (
            ("resumed", flag true)
            ∷ ("resume_status", text (finished_text r.success))
            ∷ ("resume_result", obj result)
            ∷ ("approval_consumed", flag true)
            ∷ []))
          s.approvals).0 in
      (
        record s {
          approvals = approvals;
          tasks = tasks;
          checkpoints = checkpoints;
          audit =
              s.audit
              ++ record {
                event_type = "graph_resume_completed";
                task_id = approval.task_id;
                approval_id = approval_id;
                action = "graph_resume";
                outcome = outcome_text r.success;
              }
                ∷ [];
          world = w;
        },
        result,
      )

  abbrev pub after_claim :
      Clock
      → String
      → Approval
      → String
      → Checkpoints × Option Checkpoint
      → State W
      → State W × Fields
  after_claim clock approval_id approval checkpoint_id (rows, none) s = (
    record s { checkpoints = rows },
    handle_claim_failed approval_id checkpoint_id (get_checkpoint checkpoint_id rows),
  )
  after_claim clock approval_id approval checkpoint_id (rows, some claimed) s =
      run_claimed clock approval_id approval checkpoint_id claimed (record s { checkpoints = rows })

  abbrev pub answer_or : Option Fields → State W → State W × Fields → State W × Fields
  answer_or (some answer) s later = (s, answer)
  answer_or none s later = later

  unfoldable pub resume_graph : Clock → String → Approval → State W → State W × Fields
  resume_graph clock approval_id approval s =
      let checkpoint_id = get_text "checkpoint_id" (payload_of approval.payload) in
      answer_or (early_answer approval_id (payload_of approval.payload)) s (
        after_claim clock approval_id approval checkpoint_id
          (claim_for_resume checkpoint_id approval_id clock.claimed_at s.checkpoints) s)
