-- ===== src/MultiAgent/Orchestrator.antt =====
-- `MultiAgentOrchestrator.run` of app/agent/multi_agent/orchestrator.py. What the guard on risky
-- intents says of a query, `none` or its reason, is a parameter.
use project_b_multi_agent.GraphRun.{shown}
use project_b_multi_agent.Json.{
  Fields, Value, dict, flag, get, get_fields, is_set, join_text, put, text, truthy,
}
use project_b_multi_agent.Keyword.{RoutingRule}
use project_b_multi_agent.MultiAgent.{AgentDecision, MultiAgentRunResult, analyze, mode_or_auto}
use project_b_multi_agent.MultiAgent.Coordinator.{Provider, decide_mode}
use project_b_multi_agent.MultiAgent.Executor.{Executor, execute_mode}
use project_b_multi_agent.MultiAgent.Reviewer.{Review, review, review_dict}
use project_b_multi_agent.Prelude.{
  List, Option, String, [], false, if◌then◌else◌, none, some, true, ◌++◌, ◌∷◌,
}
use project_b_multi_agent.Raise.{Action, Attempt, give, ◌>>=◌}

module _ (W : Type 0) where
  pub record Orchestrator : Type 0 where
    pub executor : Executor W
    pub risk_intent : String → Option String
    pub coordinator_rules : List RoutingRule
    pub provider : Option (Provider W)

-- `risk_finding.detected`
abbrev pub intent_blocked : String → MultiAgentRunResult
intent_blocked reason =
    let answer = join_text ("高风险意图被拦截: " ∷ reason ∷ []) in
    record {
      mode = "multi_agent";
      success = false;
      requested_mode = "multi_agent";
      executed_mode = "blocked";
      final_answer = answer;
      decisions = [];
      execution_result = dict (
          ("success", flag false)
          ∷ ("answer", text answer)
          ∷ ("blocked", flag true)
          ∷ ("blocked_reason", text reason)
          ∷ []);
      review_result = dict (("approved", flag false) ∷ ("reason", text reason) ∷ []);
      fallback_chain = [];
    }

abbrev pub value_or : Value → Option Value → Value
value_or d none = d
value_or d (some v) = v

abbrev pub final_answer_of : (Value → String) → Fields → String
final_answer_of str_of result =
    let answer = value_or (text "") (get "answer" result) in
    if truthy answer
    then shown str_of answer
    else shown str_of (value_or (text "") (get "summary" (get_fields "formatted_result" result)))

abbrev pub run_result :
    (Value → String)
    → String
    → Fields
    → Review
    → List AgentDecision
    → List String
    → MultiAgentRunResult
run_result str_of selected_mode result r decisions fallback_chain = record {
  mode = "multi_agent";
  success = is_set "success" result;
  requested_mode = "multi_agent";
  executed_mode = shown str_of (value_or (text selected_mode) (get "executed_mode" result));
  final_answer = final_answer_of str_of result;
  decisions = decisions;
  execution_result = result;
  review_result = review_dict r;
  fallback_chain = fallback_chain;
}

-- `decision.metadata["fallback"] = True`
abbrev pub as_fallback : AgentDecision → AgentDecision
as_fallback d = record d { metadata = put "fallback" (flag true) d.metadata }

-- the second run's result replaces the first's if it is approved
abbrev pub keep_better :
    (Value → String)
    → String
    → Fields
    → Review
    → List AgentDecision
    → String
    → Fields × AgentDecision
    → MultiAgentRunResult
keep_better str_of selected_mode result r decisions fallback_mode (again, d) =
    let (r', d') = review again fallback_mode in
    let decisions' = decisions ++ as_fallback d ∷ as_fallback d' ∷ [] in
    let chain = selected_mode ∷ fallback_mode ∷ [] in
    if r'.approved
    then run_result str_of fallback_mode again r' decisions' chain
    else run_result str_of selected_mode result r decisions' chain

-- `not approved and suggested_fallback_mode`
abbrev pub wanted_fallback : Review → Option String
wanted_fallback r = if r.approved then none else r.suggested_fallback_mode

module _ {W : Type 0} (env : Orchestrator W) (query : String) (task_id : Option String) where
  abbrev pub Finished : Type 0
  Finished = Action W MultiAgentRunResult

  abbrev pub after_review : Option String → String → Fields → Review → List AgentDecision → Finished
  after_review none selected_mode result r decisions =
      give (run_result env.executor.str_of selected_mode result r decisions (selected_mode ∷ []))
  after_review (some fallback_mode) selected_mode result r decisions = do
    again ← execute_mode env.executor query fallback_mode task_id
    give (keep_better env.executor.str_of selected_mode result r decisions fallback_mode again)

  abbrev pub judge : String → List AgentDecision → Fields × AgentDecision → Finished
  judge selected_mode decisions (result, d) =
      let (r, d') = review result selected_mode in
      after_review (wanted_fallback r) selected_mode result r (decisions ++ d ∷ d' ∷ [])

  -- from the coordinator's decision on
  unfoldable pub run_mode : AgentDecision → Finished
  run_mode d =
      let selected_mode = mode_or_auto (get "selected_mode" d.metadata) in
      do
        ran' ← execute_mode env.executor query selected_mode task_id
        judge selected_mode (d ∷ analyze query d ∷ []) ran'

  abbrev pub decided_run : AgentDecision × W → Attempt MultiAgentRunResult × W
  decided_run (d, w) = run_mode d w

  abbrev pub guarded_run : Option String → Finished
  guarded_run (some reason) w = give (intent_blocked reason) w
  guarded_run none w =
      decided_run (decide_mode env.executor.switches env.coordinator_rules env.provider query w)

  unfoldable pub orchestrate : Finished
  unfolding run_mode
  orchestrate = guarded_run (env.risk_intent query)
