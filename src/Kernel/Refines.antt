-- ===== src/Kernel/Refines.antt =====
-- The compiled graph does what `_run_sequential` does (app/agent/graph/kernel.py).
use project_b_multi_agent.Context.{AgentContext}
use project_b_multi_agent.Json.{Fields}
use project_b_multi_agent.Kernel.{Kernel, KernelState, Work, is_waiting}
use project_b_multi_agent.Kernel.Graph.{
  GraphState, Node, Runs, assemble_context_node, ends, execute_node, graph_end, initial_graph_state,
  moves, next_node, plan_node, raises, required, respond_node, run_node, verify_node,
}
use project_b_multi_agent.Kernel.Stages.{
  ToolResult, assemble_context, conclude, execute_plan, make_plan, read_task, respond_to,
  run_sequential, verify,
}
use project_b_multi_agent.Prelude.{
  Bool, String, arith, false, if_both, if◌then◌else◌, refl, some, sym, true, ◌↔◌, ◌∙◌, ◌≡◌, ◌≢◌,
}
use project_b_multi_agent.Raise.{Attempt, and_then, done, failed_with, give, ◌>>=◌}

module _ {W : Type 0} (env : Kernel W) where
  abbrev from_end : GraphState → Work W Fields
  from_end s = required env "result" s.result

  abbrev from_respond : GraphState → Work W Fields
  from_respond s = run_node env respond_node s >>= from_end

  abbrev from_verify : GraphState → Work W Fields
  from_verify s = run_node env verify_node s >>= from_respond

  abbrev from_route : GraphState → Work W Fields
  from_route s = if s.waiting_approval then from_respond s else from_verify s

  abbrev from_execute : GraphState → Work W Fields
  from_execute s = run_node env execute_node s >>= from_route

  abbrev from_plan : GraphState → Work W Fields
  from_plan s = run_node env plan_node s >>= from_execute

  abbrev from_assemble : GraphState → Work W Fields
  from_assemble s = run_node env assemble_context_node s >>= from_plan

  -- what a run gives from a node on
  meaning : Node → GraphState → Work W Fields
  meaning assemble_context_node s = from_assemble s
  meaning plan_node s = from_plan s
  meaning execute_node s = from_execute s
  meaning verify_node s = from_verify s
  meaning respond_node s = from_respond s
  meaning graph_end s = from_end s

  meaning_route :
      (s : GraphState) (k : KernelState W) → meaning (next_node execute_node s) s k ≡ from_route s k
  unfolding meaning next_node
  meaning_route s k = ground arith

  meaning-moves :
      (n : Node) (s s' : GraphState) (k k' : KernelState W)
      → n ≢ graph_end
      → run_node env n s k ≡ (done s', k')
      → meaning n s k ≡ meaning (next_node n s') s' k'
  unfolding meaning next_node
  meaning-moves assemble_context_node s s' k k' h e = rw e refl
  meaning-moves plan_node s s' k k' h e = rw e refl
  meaning-moves execute_node s s' k k' h e = rw e (sym (meaning_route s' k'))
  meaning-moves verify_node s s' k k' h e = rw e refl
  meaning-moves respond_node s s' k k' h e = rw e refl
  meaning-moves graph_end s s' k k' h e = absurd (h refl)

  meaning-raises :
      (n : Node) (s : GraphState) (k k' : KernelState W) (e : String)
      → n ≢ graph_end
      → run_node env n s k ≡ (failed_with e, k')
      → meaning n s k ≡ (failed_with e, k')
  unfolding meaning
  meaning-raises assemble_context_node s k k' m h e = rw e refl
  meaning-raises plan_node s k k' m h e = rw e refl
  meaning-raises execute_node s k k' m h e = rw e refl
  meaning-raises verify_node s k k' m h e = rw e refl
  meaning-raises respond_node s k k' m h e = rw e refl
  meaning-raises graph_end s k k' m h e = absurd (h refl)

  Runs-meaning :
      {n : Node} {s : GraphState} {k : KernelState W} {r : Attempt Fields × KernelState W}
      → Runs env n s k r
      → r ≡ meaning n s k
  unfolding meaning
  Runs-meaning (ends e) = e
  Runs-meaning (moves {n} {s} {s'} {k} {k'} h e rest) =
      Runs-meaning rest ∙ sym (meaning-moves n s s' k k' h e)
  Runs-meaning (raises {n} {s} {k} {k'} {e = m} h e eq) = eq ∙ sym (meaning-raises n s k k' m h e)

  step_Runs :
      (n : Node) (s : GraphState) (k : KernelState W) (outcome : Attempt GraphState × KernelState W)
      → n ≢ graph_end
      → run_node env n s k ≡ outcome
      → ((s' : GraphState) (k' : KernelState W)
          → Runs env (next_node n s') s' k' (meaning (next_node n s') s' k'))
      → Runs env n s k (meaning n s k)
  step_Runs n s k (done s', k') h e rest =
      moves h e (rw (meaning-moves n s s' k k' h e) (rest s' k'))
  step_Runs n s k (failed_with m, k') h e rest = raises h e (meaning-raises n s k k' m h e)

  end_Runs : (s : GraphState) (k : KernelState W) → Runs env graph_end s k (meaning graph_end s k)
  unfolding meaning
  end_Runs s k = ends refl

  respond_Runs :
      (s : GraphState) (k : KernelState W) → Runs env respond_node s k (meaning respond_node s k)
  unfolding next_node
  respond_Runs s k = step_Runs respond_node s k _ (λ e. cc) refl end_Runs

  verify_Runs :
      (s : GraphState) (k : KernelState W) → Runs env verify_node s k (meaning verify_node s k)
  unfolding next_node
  verify_Runs s k = step_Runs verify_node s k _ (λ e. cc) refl respond_Runs

  route_Runs :
      (s : GraphState) (k : KernelState W)
      → Runs env (next_node execute_node s) s k (meaning (next_node execute_node s) s k)
  unfolding next_node
  route_Runs s k =
      if_both (λ (n : Node). Runs env n s k (meaning n s k)) s.waiting_approval (respond_Runs s k)
        (verify_Runs s k)

  execute_Runs :
      (s : GraphState) (k : KernelState W) → Runs env execute_node s k (meaning execute_node s k)
  execute_Runs s k = step_Runs execute_node s k _ (λ e. cc) refl route_Runs

  plan_Runs : (s : GraphState) (k : KernelState W) → Runs env plan_node s k (meaning plan_node s k)
  unfolding next_node
  plan_Runs s k = step_Runs plan_node s k _ (λ e. cc) refl execute_Runs

  assemble_Runs :
      (s : GraphState) (k : KernelState W)
      → Runs env assemble_context_node s k (meaning assemble_context_node s k)
  unfolding next_node
  assemble_Runs s k = step_Runs assemble_context_node s k _ (λ e. cc) refl plan_Runs

  -- the state after the plan, and after the call
  abbrev planned : AgentContext → Fields → GraphState
  planned c p = record initial_graph_state { ctx = some c; plan_result = some p }

  abbrev executed : AgentContext → Fields → ToolResult → Bool → GraphState
  executed c p r waiting = record (planned c p) { tool_record = some r; waiting_approval = waiting }

  -- the chain of nodes against the chain of calls, stage by stage
  routed_lem :
      (c : AgentContext) (p : Fields) (r : ToolResult) (waiting : Bool) (k : KernelState W)
      → from_route (executed c p r waiting) k ≡ (
          if waiting
          then (done (respond_to env p r false), k)
          else (done (respond_to env p r (verify r)), k))
  unfolding run_node
  routed_lem c p r true k = refl
  routed_lem c p r false k = refl

  executed_lem :
      (c : AgentContext) (p : Fields) (er : Attempt ToolResult × KernelState W)
      → and_then
          (and_then er
            λ r. read_task env >>= λ task. give (executed c p r (is_waiting task.status)))
          from_route
        ≡ and_then er (conclude env p)
  executed_lem c p (failed_with e, k) = refl
  executed_lem c p (done r, k) = routed_lem c p r (is_waiting k.task.status) k

  planned_lem :
      (c : AgentContext) (pr : Attempt Fields × KernelState W)
      → and_then (and_then pr λ p. give (planned c p)) from_execute
        ≡ and_then pr (λ p. execute_plan env p >>= conclude env p)
  unfolding run_node
  planned_lem c (failed_with e, k) = refl
  planned_lem c (done p, k) = executed_lem c p (execute_plan env p k)

  assembled_lem :
      (ar : Attempt AgentContext × KernelState W)
      → and_then (and_then ar λ c. give (record initial_graph_state { ctx = some c })) from_plan
        ≡ and_then ar (λ c. make_plan env c >>= λ p. execute_plan env p >>= conclude env p)
  unfolding run_node
  assembled_lem (failed_with e, k) = refl
  assembled_lem (done c, k) = planned_lem c (make_plan env c k)

  meaning-run_sequential :
      (k : KernelState W)
      → meaning assemble_context_node initial_graph_state k ≡ run_sequential env k
  unfolding meaning run_sequential run_node
  meaning-run_sequential k = assembled_lem (assemble_context env k)

  -- A run of the compiled graph from its first node gives a result exactly if the sequential run
  -- gives it: the answer or the exception, and the task, the approvals and the world.
  pub graph_run-run_sequential :
      (k : KernelState W) (r : Attempt Fields × KernelState W)
      → Runs env assemble_context_node initial_graph_state k r ↔ (r ≡ run_sequential env k)
  graph_run-run_sequential k r = (
    λ run. Runs-meaning run ∙ meaning-run_sequential k,
    λ e. rw (e, ← meaning-run_sequential k) (assemble_Runs initial_graph_state k),
  )
