-- ===== src/Tests/Kernels.antt =====
-- The theorems on the kernel and on the short-term memory, at small data.
use project_b_multi_agent.ApprovalStore.{low, nat}
use project_b_multi_agent.Gateway.{ToolSpec, dict_get, get_tool}
use project_b_multi_agent.Gateway.Call.{call, call_local, call_with_retry, retry_loop}
use project_b_multi_agent.Hooks.{no_hooks, run_each, run_hooks}
use project_b_multi_agent.Json.{Fields, dict, end, flag, get, text}
use project_b_multi_agent.Kernel.{Kernel, KernelState, created}
use project_b_multi_agent.Kernel.Auto.{Ends, Names, run_auto-Names}
use project_b_multi_agent.Kernel.Graph.{Runs, assemble_context_node, initial_graph_state}
use project_b_multi_agent.Kernel.Modes.{run, run_auto}
use project_b_multi_agent.Kernel.Refines.{graph_run-run_sequential}
use project_b_multi_agent.Kernel.Stages.{call_with_hooks, run_sequential, run_stage_hooks}
use project_b_multi_agent.Memory.{add_message, get_messages}
use project_b_multi_agent.Memory.Laws.{get_messages-add_message, last_of, message}
use project_b_multi_agent.Policy.{check, evaluate}
use project_b_multi_agent.Prelude.{
  [], false, if◌then◌else◌, length, none, refl, some, true, ℕ, ◌==◌, ◌↔◌, ◌∷◌, ◌≡◌, ◌≤◌,
}
use project_b_multi_agent.Raise.{done, failed_with}
use project_b_multi_agent.Tests.{counting, test_gateway, tool_of}
use project_b_multi_agent.Tests.Graphs.{test_uuid}

abbrev date_spec : ToolSpec
date_spec = record (tool_of "date_lookup" "local") { risk_level = low; permission_scope = "read" }

abbrev date_plan : Fields
date_plan = dict (("tool_name", text "date_lookup") ∷ ("matched", flag true) ∷ [])

-- NL2SQL answers without success, and the multitool pipeline raises
abbrev test_kernel : Kernel ℕ
test_kernel = record {
  gateway = record test_gateway {
    registry = ("date_lookup", date_spec) ∷ [];
    callables = ("date_lookup", some counting) ∷ [];
  };
  policy = none;
  has_approval_store = true;
  hooks = no_hooks;
  planner_plan = λ query k. (done date_plan, k);
  planner_label = λ tool_name. "日期查询";
  nl2sql_pipeline = λ query k. (done (dict (("success", flag false) ∷ [])), k);
  multitool_pipeline = λ query task_id k. (failed_with "no plan", k);
  multi_agent_orchestrator = λ query task_id k. (done end, k);
  graph_runtime = none;
  self_check = none;
  str_of = λ v. "value";
  uuid = test_uuid;
  now = λ n. n;
  integrity_error = "UNIQUE constraint failed: approvals.approval_id";
}

abbrev test_kernel_state : KernelState ℕ
test_kernel_state = record {
  task = record {
    task_id = "t1";
    query = "今天几号";
    status = created;
    result = none;
    error = none;
    updated_at = 0;
  };
  approvals = [];
  memory = some [];
  reads = 0;
  world = 0;
}

graph_run-run_sequential_example :
    Runs test_kernel assemble_context_node initial_graph_state test_kernel_state
      (run_sequential test_kernel test_kernel_state)
    ↔ (run_sequential test_kernel test_kernel_state ≡ run_sequential test_kernel test_kernel_state)
graph_run-run_sequential_example =
    graph_run-run_sequential test_kernel test_kernel_state
      (run_sequential test_kernel test_kernel_state)

run_auto-Names_example :
    Ends
      (λ k. Names ("nl2sql" ∷ "multitool" ∷ "keyword" ∷ []) k.task.result)
      (run_auto test_kernel none test_kernel_state)
unfolding get
run_auto-Names_example = run_auto-Names test_kernel none test_kernel_state

get_messages-add_message_example :
    let m' = add_message "s1" "user" "hello" end 3 [] in
    (last_of (get_messages "s1" (nat 5) m') ≡ some (message "user" "hello" end 3))
    × (get_messages "s2" (nat 5) m'
        ≡ (if "s1" == "s2" then get_messages "s1" (nat 5) m' else get_messages "s2" (nat 5) []))
    × (length (get_messages "s2" (nat 5) m') ≤ 50)
get_messages-add_message_example =
    get_messages-add_message "s1" "user" "hello" end 3 (nat 5) [] "s2"

-- the tool is called once, and the task completes
date_answered : (run test_kernel none none test_kernel_state).1.world ≡ 1
unfolding run run_sequential call_with_hooks run_stage_hooks run_hooks run_each dict_get get_tool
    evaluate check call call_with_retry retry_loop call_local get
date_answered = refl
