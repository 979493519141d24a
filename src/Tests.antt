-- ===== src/Tests.antt =====
-- Data for the tests: two approvals, two checkpoints, a task, a gateway with a local tool and an
-- MCP server, and a world that counts the calls.
pub mod ApprovalRows
pub mod CheckpointRows
pub mod Tools
pub mod Guards
pub mod Risks
pub mod Resumes
pub mod Graphs
pub mod Kernels
pub mod Agents
pub mod SqlTexts
pub mod Budgets
pub mod Prompts
pub mod PiiTexts
use project_b_multi_agent.ApprovalStore.{
  Approval, ApprovalStatus, Approvals, Request, approved, high, pending,
}
use project_b_multi_agent.CheckpointStore.{Checkpoint, Checkpoints, Expiry, at, interrupted, unset}
use project_b_multi_agent.Gateway.{Gateway, Outcome, ToolSpec, returned}
use project_b_multi_agent.Json.{Fields, dict, end, num, obj, text}
use project_b_multi_agent.Prelude.{String, [], false, none, some, true, ℕ, ◌+◌, ◌∷◌}
use project_b_multi_agent.Resume.{Clock, State}
use project_b_multi_agent.Resume.Steps.{Env}
use project_b_multi_agent.TaskStore.{Task}

abbrev pub graph_payload : Fields
graph_payload = dict (
    ("mode", text "graph_keyword")
    ∷ ("checkpoint_id", text "c1")
    ∷ ("tool_name", text "refund")
    ∷ ("arguments", obj end)
    ∷ [])

abbrev pub keyword_payload : Fields
keyword_payload =
    dict (("mode", text "keyword") ∷ ("tool_name", text "refund") ∷ ("arguments", obj end) ∷ [])

abbrev pub refund_request : Request
refund_request = record {
  task_id = "t1";
  tool_name = "refund";
  action = "refund an order";
  risk_level = high;
  impact_scope = "write";
  agent_reason = "high risk";
  payload = some keyword_payload;
}

-- an approval of the request, decided or not
abbrev pub approval_at : String → ApprovalStatus → Fields → Approval
approval_at approval_id status payload = record {
  approval_id = approval_id;
  task_id = "t1";
  tool_name = "refund";
  action = "refund an order";
  risk_level = high;
  impact_scope = "write";
  agent_reason = "high risk";
  status = status;
  requested_at = 1;
  decided_at = none;
  decided_by = none;
  decision_reason = none;
  payload = some payload;
}

abbrev pub test_approvals : Approvals
test_approvals =
    approval_at "a1" approved graph_payload
    ∷ approval_at "a2" approved keyword_payload
    ∷ approval_at "a3" pending keyword_payload
    ∷ []

abbrev pub checkpoint_at : String → Expiry → Checkpoint
checkpoint_at checkpoint_id expires_at = record {
  checkpoint_id = checkpoint_id;
  task_id = "t1";
  approval_id = some "a1";
  graph_thread_id = none;
  run_id = none;
  status = interrupted;
  current_node = some "tool_call";
  graph_state = end;
  pending_interrupt = some end;
  resume_payload = none;
  result_snapshot = none;
  consumed = false;
  resumed_at = none;
  created_at = 1;
  updated_at = 1;
  expires_at = expires_at;
  schema_version = 1;
  resume_attempt_count = 0;
  last_resume_error = none;
  locked_by = none;
  locked_at = none;
}

abbrev pub test_checkpoints : Checkpoints
test_checkpoints = checkpoint_at "c1" (at 100) ∷ checkpoint_at "c2" (at 5) ∷ []

abbrev pub consumed_checkpoints : Checkpoints
consumed_checkpoints = record (checkpoint_at "c1" unset) { consumed = true } ∷ []

abbrev pub test_task : Task
test_task = record {
  task_id = "t1";
  query = "refund";
  mode = "keyword";
  status = "waiting_approval";
  result = none;
  error = none;
  created_at = 1;
  updated_at = 1;
}

abbrev pub tool_of : String → String → ToolSpec
tool_of name source = record {
  tool_name = name;
  risk_level = high;
  permission_scope = "write";
  max_retries = 2;
  source = source;
  server_name = some "files";
  mcp_tool_name = none;
}

-- the tools succeed, and each call counts
abbrev pub counting : Fields → ℕ → Outcome × ℕ
counting arguments w = (returned (num w), w + 1)

abbrev pub test_gateway : Gateway ℕ
test_gateway = record {
  registry = ("refund", tool_of "refund" "local") ∷ ("wipe", tool_of "wipe" "mcp") ∷ [];
  callables = ("refund", some counting) ∷ [];
  mcp_clients = ("files", λ name arguments w. counting arguments w) ∷ [];
  mcp_tool_allowlists = ("files", "read" ∷ []) ∷ [];
  metrics_recorder = none;
  current_task_id = "";
}

abbrev pub test_state : State ℕ
test_state = record {
  approvals = test_approvals;
  tasks = test_task ∷ [];
  checkpoints = test_checkpoints;
  audit = [];
  world = 0;
}

abbrev pub test_env : Env ℕ
test_env = record {
  gateway = test_gateway;
  policy = none;
  str_of = λ v. "value";
  fresh = "a9";
  now = 10;
}

abbrev pub test_clock : Clock
test_clock = record { claimed_at = 10; updated_at = 11; resumed_at = 12 }
