-- ===== src/Kernel/Graph.antt =====
-- The state graph that `build_graph` of app/agent/graph/kernel.py compiles, and what a run of it
-- gives.
--
-- LangGraph, which runs the graph, is not part of the program. `Runs` is what its documentation
-- promises: from a node's update of the state on along the edge that leaves the node, to the end
-- or to the first exception.
use project_b_multi_agent.Context.{AgentContext}
use project_b_multi_agent.Json.{Fields}
use project_b_multi_agent.Kernel.{Kernel, KernelState, Work, is_waiting}
use project_b_multi_agent.Kernel.Stages.{
  ToolResult, assemble_context, execute_plan, make_plan, no_result, read_task, respond_to, verify,
}
use project_b_multi_agent.Prelude.{Bool, Option, String, false, if◌then◌else◌, none, some, ◌≡◌, ◌≢◌}
use project_b_multi_agent.Raise.{Attempt, done, failed_with, give, throw, ◌>>=◌}

pub data Node : Type 0 where
  assemble_context_node plan_node execute_node verify_node respond_node graph_end : Node

-- `KeywordGraphState`, whose keys are missing at first; the task is a shared object and stands in
-- the kernel's state
pub record GraphState : Type 0 where
  pub ctx : Option AgentContext
  pub plan_result : Option Fields
  pub tool_record : Option ToolResult
  pub waiting_approval : Bool
  pub verified : Bool
  pub result : Option Fields

abbrev pub initial_graph_state : GraphState
initial_graph_state = record {
  ctx = none;
  plan_result = none;
  tool_record = none;
  waiting_approval = false;
  verified = false;
  result = none;
}

-- `state.get("tool_record")`
abbrev pub tool_record_of : Option ToolResult → ToolResult
tool_record_of none = no_result
tool_record_of (some r) = r

-- `add_edge` and `_route_after_execute`
unfoldable pub next_node : Node → GraphState → Node
next_node assemble_context_node s = plan_node
next_node plan_node s = execute_node
next_node execute_node s = if s.waiting_approval then respond_node else verify_node
next_node verify_node s = respond_node
next_node respond_node s = graph_end
next_node graph_end s = graph_end

module _ {W : Type 0} (env : Kernel W) where
  -- `state[key]`
  abbrev pub required : {A : Type 0} → String → Option A → Work W A
  required key none = throw key
  required key (some v) = give v

  abbrev pub update_plan : GraphState → Option AgentContext → Work W GraphState
  update_plan s ctx = do
    c ← required "ctx" ctx
    plan_result ← make_plan env c
    give (record s { plan_result = some plan_result })

  abbrev pub update_execute : GraphState → Option Fields → Work W GraphState
  update_execute s plan_result = do
    p ← required "plan_result" plan_result
    r ← execute_plan env p
    task ← read_task env
    give (record s { tool_record = some r; waiting_approval = is_waiting task.status })

  abbrev pub update_respond : GraphState → Option Fields → Work W GraphState
  update_respond s plan_result = do
    p ← required "plan_result" plan_result
    give (record s {
      result = some (
          respond_to env p (tool_record_of s.tool_record)
            (if s.waiting_approval then false else s.verified));
    })

  -- the functions that the nodes are
  unfoldable pub run_node : Node → GraphState → Work W GraphState
  run_node assemble_context_node s = do
    ctx ← assemble_context env
    give (record s { ctx = some ctx })
  run_node plan_node s = update_plan s s.ctx
  run_node execute_node s = update_execute s s.plan_result
  run_node verify_node s = give (record s { verified = verify (tool_record_of s.tool_record) })
  run_node respond_node s = update_respond s s.plan_result
  run_node graph_end s = give s

  -- a run of the compiled graph from a node on, with the value of `final_state["result"]`
  pub data Runs : Node → GraphState → KernelState W → Attempt Fields × KernelState W → Type 0 where
    ends :
        {s : GraphState} {k : KernelState W} {r : Attempt Fields × KernelState W}
        → r ≡ required "result" s.result k
        → Runs graph_end s k r
    moves :
        {n : Node} {s s' : GraphState} {k k' : KernelState W} {r : Attempt Fields × KernelState W}
        → n ≢ graph_end
        → run_node n s k ≡ (done s', k')
        → Runs (next_node n s') s' k' r
        → Runs n s k r
    raises :
        {n : Node} {s : GraphState} {k k' : KernelState W} {e : String}
        {r : Attempt Fields × KernelState W}
        → n ≢ graph_end
        → run_node n s k ≡ (failed_with e, k')
        → r ≡ (failed_with e, k')
        → Runs n s k r
