-- ===== src/GraphRun.antt =====
-- app/agent/graph/runtime_adapter.py and app/agent/graph/interrupts.py: a keyword task run with a
-- checkpoint at every stage.
--
-- A run works on the adapter's `state` dict and on the stores, and may raise: `Run A` is such a
-- step, and an exception keeps what was written before it. Each `uuid4().hex[:12]` and each
-- `datetime.now()` is read off a supply by the number of ids drawn so far. An INSERT with an id
-- that is taken raises; nothing else that is called raises. The trace recorder is left out, and
-- the audit recorder is there.
pub mod Responses
pub mod Stages
pub mod Safety
pub mod Interrupted
pub mod Approved
pub mod Completes
pub use project_b_multi_agent.Json.{shown}
use project_b_multi_agent.ApprovalStore.{RiskLevel}
use project_b_multi_agent.CheckpointStore.{
  Checkpoint, CheckpointStatus, Checkpoints, blocked, cancelled, completed, create_checkpoint,
  expired, failed, interrupted, resumed, resuming, running, unset,
}
use project_b_multi_agent.Gateway.{Gateway}
use project_b_multi_agent.Json.{
  Fields, Value, dict, end, field, flag, get, get_fields, join_text, null, num, obj, put, text,
}
use project_b_multi_agent.Keyword.{RoutingRule}
use project_b_multi_agent.Planner.{rules}
use project_b_multi_agent.Policy.{Lookup, PolicyDecision, risk_text}
use project_b_multi_agent.Prelude.{
  Bool, List, Option, String, [], false, if◌then◌else◌, none, some, ℕ, ◌+◌, ◌==◌, ◌∷◌,
}
use project_b_multi_agent.Raise.{Action, Attempt, done, failed_with}
use project_b_multi_agent.Resume.{State}

module _ (W : Type 0) where
  pub record Adapter : Type 0 where
    pub gateway : Gateway W
    pub policy : Option (Option Lookup)
    pub has_approval_store : Bool
    pub rules : List RoutingRule
    pub switches : String → Bool
    pub str_of : Value → String
    pub uuid : ℕ → String
    pub now : ℕ → ℕ
    pub integrity_error : String

  pub record Machine : Type 0 where
    pub stores : State W
    pub state : Fields
    pub draws : ℕ

  abbrev pub Run : Type 0 → Type 0
  Run A = Action Machine A

module _ {W : Type 0} where
  -- `state[k] = v`
  abbrev pub set_key : String → Value → Run W (Unit {0})
  set_key k v m = (done tt, record m { state = put k v m.state })

abbrev pub checkpoint_name : CheckpointStatus → String
checkpoint_name running = "running"
checkpoint_name interrupted = "interrupted"
checkpoint_name blocked = "blocked"
checkpoint_name resuming = "resuming"
checkpoint_name resumed = "resumed"
checkpoint_name completed = "completed"
checkpoint_name failed = "failed"
checkpoint_name cancelled = "cancelled"
checkpoint_name expired = "expired"

-- `str(…get("run_id", "")) or None`; the context is a dict at every checkpoint
abbrev pub filled : String → Option String
filled s = if s == "" then none else some s

abbrev pub run_id_of : (Value → String) → Option Value → Option String
run_id_of str_of none = none
run_id_of str_of (some v) = filled (shown str_of v)

abbrev pub checkpoint_id_at : String → String → String → String
checkpoint_id_at task_id stage hex = join_text ("graph-" ∷ task_id ∷ "-" ∷ stage ∷ "-" ∷ hex ∷ [])

-- the row of `create_checkpoint` with the adapter's arguments
abbrev pub new_checkpoint :
    String → String → Option String → CheckpointStatus → String → Fields → ℕ → Checkpoint
new_checkpoint checkpoint_id task_id run_id status stage snapshot now = record {
  checkpoint_id = checkpoint_id;
  task_id = task_id;
  approval_id = none;
  graph_thread_id = some (join_text ("graph-" ∷ task_id ∷ []));
  run_id = run_id;
  status = status;
  current_node = some stage;
  graph_state = snapshot;
  pending_interrupt = none;
  resume_payload = none;
  result_snapshot = none;
  consumed = false;
  resumed_at = none;
  created_at = now;
  updated_at = now;
  expires_at = unset;
  schema_version = 1;
  resume_attempt_count = 0;
  last_resume_error = none;
  locked_by = none;
  locked_at = none;
}

abbrev pub snapshot_of : String → String → String → Fields → Fields
snapshot_of checkpoint_id stage status state =
    put "checkpoint_status" (text status)
      (put "checkpoint_id" (text checkpoint_id) (put "stage" (text stage) state))

abbrev pub mark_state : String → String → Fields → Fields
mark_state checkpoint_id status state =
    put "checkpoint_status" (text status) (put "checkpoint_id" (text checkpoint_id) state)

module _ {W : Type 0} (env : Adapter W) where
  abbrev pub row_at : String → String → CheckpointStatus → Machine W → Checkpoint
  row_at task_id stage status m =
      let checkpoint_id = checkpoint_id_at task_id stage (env.uuid m.draws) in
      new_checkpoint checkpoint_id task_id
        (run_id_of env.str_of
          (get "run_id" (get_fields "trace_context" (get_fields "context" m.state))))
        status stage (snapshot_of checkpoint_id stage (checkpoint_name status) m.state)
        (env.now m.draws)

  abbrev pub stored : Option Checkpoints → String → String → Machine W → Attempt String × Machine W
  stored none checkpoint_id status m = (
    failed_with (join_text (checkpoint_id ∷ " already exists" ∷ [])),
    record m { draws = m.draws + 1 },
  )
  stored (some rows) checkpoint_id status m = (
    done checkpoint_id,
    record m {
      stores = record m.stores { checkpoints = rows };
      state = mark_state checkpoint_id status m.state;
      draws = m.draws + 1;
    },
  )

  -- `_checkpoint`
  unfoldable pub checkpoint : String → String → CheckpointStatus → Run W String
  checkpoint task_id stage status m =
      let row = row_at task_id stage status m in
      stored (create_checkpoint row m.stores.checkpoints) row.checkpoint_id (checkpoint_name status)
        m

-- `policy_decision`: the dict that `evaluate` returns
abbrev pub maybe_error : Option String → Fields
maybe_error none = end
maybe_error (some e) = field "error_type" (text e) end

abbrev pub risk_value : Option RiskLevel → Value
risk_value none = null
risk_value (some r) = text (risk_text r)

abbrev pub decision_dict : PolicyDecision → Fields
decision_dict d = field "action" (text d.action) (
    field "risk_level" (risk_value d.risk_level) (
      field "allowed" (flag d.allowed) (
        field "requires_approval" (flag d.requires_approval)
          (field "reason" (text d.reason) (maybe_error d.error_type)))))

unfoldable pub build_tool_approval_interrupt_payload :
    String
    → String
    → String
    → String
    → String
    → PolicyDecision
    → String
    → Fields
    → Fields
    → String
    → String
    → ℕ
    → Fields
build_tool_approval_interrupt_payload task_id checkpoint_id tool_name risk_level permission_scope
      policy_decision agent_reason arguments trace_context mode node now =
    dict (
      ("schema_version", num 1)
      ∷ ("interrupt_type", text "tool_approval")
      ∷ ("task_id", text task_id)
      ∷ ("checkpoint_id", text checkpoint_id)
      ∷ ("node", text node)
      ∷ ("mode", text mode)
      ∷ ("tool_name", text tool_name)
      ∷ ("arguments", obj arguments)
      ∷ ("risk_level", text risk_level)
      ∷ ("permission_scope", text permission_scope)
      ∷ ("policy_decision", obj (decision_dict policy_decision))
      ∷ ("agent_reason", text agent_reason)
      ∷ ("trace_context", obj trace_context)
      ∷ ("created_at", num now)
      ∷ [])
