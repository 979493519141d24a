-- ===== src/MultiAgent/Blocked.antt =====
-- A tool that the policy holds back ends a multi-agent run: there is no second run in another mode
-- (app/agent/multi_agent/executor.py, reviewer.py and orchestrator.py).
use project_b_multi_agent.Gateway.{Gateway, ToolSpec, get_tool}
use project_b_multi_agent.Json.{Fields, get}
use project_b_multi_agent.Keyword.{plan}
use project_b_multi_agent.MultiAgent.{AgentDecision, MultiAgentRunResult, analyze, mode_or_auto}
use project_b_multi_agent.MultiAgent.Coordinator.{decide_mode}
use project_b_multi_agent.MultiAgent.Executor.{
  Executor, by_tool, execute_keyword, execute_mode, policy_blocked, with_gateway,
}
use project_b_multi_agent.MultiAgent.Orchestrator.{Orchestrator, judge, orchestrate, run_mode}
use project_b_multi_agent.MultiAgent.Reviewer.{review}
use project_b_multi_agent.Policy.{Lookup, evaluate, no_context}
use project_b_multi_agent.Prelude.{
  List, Option, String, [], false, none, refl, some, true, ◌==◌, ◌∷◌, ◌≡◌,
}
use project_b_multi_agent.Raise.{Attempt, and_then, done, failed_with}

module _ {W : Type 0} (env : Executor W) (query : String) where
  -- The plan for the query names the tool `t`, which the gateway has and the policy does not allow:
  -- it is of high risk, or the whitelist denies it.
  pub record IsHeldBack (t : String) (spec : ToolSpec) : Type 0 where
    pub g : Gateway W
    pub whitelist : Option (Option Lookup)
    pub has_gateway : env.gateway ≡ some g
    pub has_policy : env.policy_engine ≡ some whitelist
    pub planned : (plan env.switches env.planner_rules query).tool_name ≡ some t
    pub matched : (plan env.switches env.planner_rules query).matched ≡ true
    pub named : (t == "") ≡ false
    pub found : get_tool t g ≡ some spec
    pub denied : (evaluate whitelist t (some spec.risk_level) no_context).allowed ≡ false

  with_gateway-denied :
      (t : String) (spec : ToolSpec) (h : IsHeldBack t spec) (w : W)
      → with_gateway env env.gateway t w ≡ (
        done (policy_blocked t (evaluate h.whitelist t (some spec.risk_level) no_context).reason),
        w,
      )
  with_gateway-denied t spec h w = rw (h.has_gateway, h.found, h.has_policy, h.denied) refl

  by_tool-denied :
      (t : String) (spec : ToolSpec) (h : IsHeldBack t spec) (w : W) (o : Option String)
      → o ≡ some t
      → by_tool env o w ≡ (
        done (policy_blocked t (evaluate h.whitelist t (some spec.risk_level) no_context).reason),
        w,
      )
  by_tool-denied t spec h w o e = rw (e, h.named) (with_gateway-denied t spec h w)

  -- A tool that is held back is not called, and the result says that it was blocked.
  execute_keyword-denied :
      (t : String) (spec : ToolSpec) (h : IsHeldBack t spec) (w : W)
      → execute_keyword env query w ≡ (
        done (policy_blocked t (evaluate h.whitelist t (some spec.risk_level) no_context).reason),
        w,
      )
  unfolding execute_keyword
  execute_keyword-denied t spec h w =
      rw h.matched
        (by_tool-denied t spec h w (plan env.switches env.planner_rules query).tool_name h.planned)

-- What is left of a run: its result reports no success and one mode, and the world is `w`.
abbrev pub StopsIn : {W : Type 0} → String → W → Attempt MultiAgentRunResult × W → Type 0
StopsIn mode w (done r, w') = (r.success ≡ false) × (r.fallback_chain ≡ mode ∷ []) × (w' ≡ w)
StopsIn mode w (failed_with e, w') = ⊥

module _ {W : Type 0} (env : Orchestrator W) (query : String) (task_id : Option String) where
  judge-StopsIn :
      (decisions : List AgentDecision) (t reason : String) (w : W)
      → StopsIn "keyword" w
          (judge env query task_id "keyword" decisions (policy_blocked t reason) w)
  unfolding review get
  judge-StopsIn decisions t reason w = (refl, refl, refl)

  blocked-StopsIn :
      (decisions : List AgentDecision) (t reason : String) (w : W)
      (r : Attempt (Fields × AgentDecision) × W)
      → r ≡ (done (policy_blocked t reason), w)
      → StopsIn "keyword" w (and_then r (judge env query task_id "keyword" decisions))
  blocked-StopsIn decisions t reason w r e = rw e (judge-StopsIn decisions t reason w)

  chosen-StopsIn :
      (t : String) (spec : ToolSpec) (mode : String) (decisions : List AgentDecision) (w : W)
      → IsHeldBack env.executor query t spec
      → mode ≡ "keyword"
      → StopsIn "keyword" w (
          and_then
            (execute_mode env.executor query mode task_id w)
            (judge env query task_id mode decisions))
  unfolding execute_mode
  chosen-StopsIn t spec mode decisions w h e =
      rw e
        (blocked-StopsIn decisions t _ w _ (execute_keyword-denied env.executor query t spec h w))

  run_mode-StopsIn :
      (t : String) (spec : ToolSpec) (d : AgentDecision) (w : W)
      → IsHeldBack env.executor query t spec
      → mode_or_auto (get "selected_mode" d.metadata) ≡ "keyword"
      → StopsIn "keyword" w (run_mode env query task_id d w)
  unfolding run_mode
  run_mode-StopsIn t spec d w h by_keyword =
      chosen-StopsIn t spec (mode_or_auto (get "selected_mode" d.metadata))
        (d ∷ analyze query d ∷ []) w h by_keyword

  -- Where no risky intent is seen and the coordinator chooses the keyword mode, and the plan for
  -- the query names a registered tool that the policy does not allow, the run calls no tool: it
  -- ends without success, with the keyword mode alone in its fallback chain, and the world is as
  -- the coordinator left it.
  pub orchestrate-StopsIn :
      (t : String) (spec : ToolSpec) (w : W)
      → env.risk_intent query ≡ none
      → IsHeldBack env.executor query t spec
      → let (d, w') =
          decide_mode env.executor.switches env.coordinator_rules env.provider query w in
        mode_or_auto (get "selected_mode" d.metadata) ≡ "keyword"
        → StopsIn "keyword" w' (orchestrate env query task_id w)
  unfolding orchestrate
  orchestrate-StopsIn t spec w safe h by_keyword =
      rw safe (run_mode-StopsIn t spec _ _ h by_keyword)
