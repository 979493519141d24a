-- ===== src/MultiAgent/Executor.antt =====
-- app/agent/multi_agent/executor.py: one run of a query in a mode.
use project_b_multi_agent.Gateway.{Gateway, ToolCallRecord, ToolSpec, get_tool}
use project_b_multi_agent.Gateway.Call.{call}
use project_b_multi_agent.GraphRun.{shown}
use project_b_multi_agent.Json.{Fields, Value, arr, dict, end, flag, is_set, join_text, put, text}
use project_b_multi_agent.Keyword.{RoutingRule, get_label, label_or, plan}
use project_b_multi_agent.MultiAgent.{AgentDecision, metadata_of}
use project_b_multi_agent.Policy.{Lookup, PolicyDecision, evaluate, no_context}
use project_b_multi_agent.Prelude.{
  Bool, List, Option, String, [], false, if◌then◌else◌, none, not, some, true, ℕ, ◌==◌, ◌∷◌,
}
use project_b_multi_agent.Raise.{Action, Attempt, done, give, ◌>>=◌}
use project_b_multi_agent.Resume.Steps.Report.{items_of}

module _ (W : Type 0) where
  pub record Executor : Type 0 where
    pub nl2sql_pipeline : String → Action W Fields
    pub multitool_pipeline : String → Option String → Action W Fields
    pub gateway : Option (Gateway W)
    -- the engine, if there is one, by its whitelist
    pub policy_engine : Option (Option (Option Lookup))
    pub planner_rules : List RoutingRule
    pub switches : String → Bool
    pub str_of : Value → String

abbrev pub executor_decision : String → String → ℕ → Fields → AgentDecision
executor_decision action reason confidence metadata = record {
  role = "executor";
  action = action;
  reason = reason;
  confidence = confidence;
  metadata = metadata;
}

abbrev pub outcome_word : Fields → String
outcome_word result = if is_set "success" result then "成功" else "失败"

abbrev pub outcome_confidence : Fields → ℕ
outcome_confidence result = if is_set "success" result then 90 else 50

-- the decision of a pipeline's run, by its result
abbrev pub ran : String → String → String → Fields → Fields × AgentDecision
ran action name mode result = (
  result,
  executor_decision action (join_text (name ∷ " 执行 " ∷ outcome_word result ∷ []))
      (outcome_confidence result) (metadata_of mode []),
)

abbrev pub keyword_ran : Fields → Fields × AgentDecision
keyword_ran result = (
  result,
  executor_decision "execute_keyword" (join_text ("Keyword 执行 " ∷ outcome_word result ∷ []))
      (outcome_confidence result) (metadata_of "keyword" (("policy_blocked", flag false) ∷ [])),
)

abbrev pub keyword_failure : String → List (String × Value) → Fields
keyword_failure answer more =
    dict (("mode", text "keyword") ∷ ("success", flag false) ∷ ("answer", text answer) ∷ more)

abbrev pub policy_blocked : String → String → Fields × AgentDecision
policy_blocked tool_name reason = (
  keyword_failure (join_text ("工具调用被策略拦截: " ∷ reason ∷ [])) (
      ("tool_called", text tool_name)
      ∷ ("error_type", text "policy_blocked")
      ∷ ("blocked", flag true)
      ∷ []),
  executor_decision "execute_keyword" "Keyword 执行失败: 策略拦截" 30
      (metadata_of "keyword" (("policy_blocked", flag true) ∷ [])),
)

abbrev pub call_result : (Value → String) → String → String → ToolCallRecord → Fields
call_result str_of label tool_name r =
    if r.success
    then dict (
        ("mode", text "keyword")
        ∷ ("success", flag true)
        ∷ ("answer", text (join_text (label ∷ "查询结果：" ∷ shown str_of r.result ∷ [])))
        ∷ ("data", r.result)
        ∷ ("tool_called", text tool_name)
        ∷ [])
    else keyword_failure (join_text ("工具调用失败: " ∷ shown str_of r.error ∷ []))
        (("tool_called", text tool_name) ∷ [])

module _ {W : Type 0} (env : Executor W) where
  -- the results of a mode: they may raise, as the pipelines do
  abbrev pub Ran : Type 0
  Ran = Action W (Fields × AgentDecision)

  unfoldable pub execute_nl2sql : String → Ran
  execute_nl2sql query = do
    result ← env.nl2sql_pipeline query
    give (ran "execute_nl2sql" "NL2SQL" "nl2sql" result)

  unfoldable pub execute_multitool : String → Option String → Ran
  execute_multitool query task_id = do
    result ← env.multitool_pipeline query task_id
    give (ran "execute_multitool" "MultiTool" "multitool" result)

  abbrev pub after_tool_call : String → ToolCallRecord × W → Attempt (Fields × AgentDecision) × W
  after_tool_call tool_name (r, w) = (
    done (
        keyword_ran (
          call_result env.str_of (label_or "None" (get_label env.planner_rules (some tool_name)))
            tool_name r)),
    w,
  )

  unfoldable pub call_tool_for : Gateway W → String → Ran
  call_tool_for g tool_name w = after_tool_call tool_name (call g tool_name end "" w)

  -- `if spec and self._policy_engine`
  abbrev pub policy_says :
      Option ToolSpec → Option (Option (Option Lookup)) → String → Option PolicyDecision
  policy_says none engine tool_name = none
  policy_says (some spec) none tool_name = none
  policy_says (some spec) (some whitelist) tool_name =
      some (evaluate whitelist tool_name (some spec.risk_level) no_context)

  abbrev pub call_if_allowed : Option PolicyDecision → Gateway W → String → Ran
  call_if_allowed none g tool_name = call_tool_for g tool_name
  call_if_allowed (some d) g tool_name =
      if not d.allowed then give (policy_blocked tool_name d.reason) else call_tool_for g tool_name

  abbrev pub with_gateway : Option (Gateway W) → String → Ran
  with_gateway none tool_name = give (keyword_ran (keyword_failure "无可用工具" []))
  with_gateway (some g) tool_name =
      call_if_allowed (policy_says (get_tool tool_name g) env.policy_engine tool_name) g tool_name

  abbrev pub by_tool : Option String → Ran
  by_tool none = give (keyword_ran (keyword_failure "无可用工具" []))
  by_tool (some tool_name) =
      if tool_name == ""
      then give (keyword_ran (keyword_failure "无可用工具" []))
      else with_gateway env.gateway tool_name

  unfoldable pub execute_keyword : String → Ran
  unfolding call_tool_for
  execute_keyword query =
      let p = plan env.switches env.planner_rules query in
      if not p.matched
      then give (keyword_ran (keyword_failure "未匹配关键词" []))
      else by_tool p.tool_name

  abbrev pub auto_ran : String → List String → String → ℕ → Fields → Fields × AgentDecision
  auto_ran executed_mode fallback_chain reason confidence result = (
    put "fallback_chain" (arr (items_of fallback_chain))
        (put "executed_mode" (text executed_mode) result),
    executor_decision "execute_auto" reason confidence
        (metadata_of "auto" (("executed_mode", text executed_mode) ∷ [])),
  )

  abbrev pub auto_keyword : String → Ran
  auto_keyword query = do
    r ← execute_keyword query
    give (
        auto_ran "keyword" ("nl2sql" ∷ "multitool" ∷ "keyword" ∷ [])
          "Auto 模式: NL2SQL 和 Multitool 均失败，Keyword fallback" 50 r.0)

  abbrev pub auto_multitool : String → Option String → Ran
  auto_multitool query task_id = do
    r ← execute_multitool query task_id
    (if is_set "success" r.0
        then give (
            auto_ran "multitool" ("nl2sql" ∷ "multitool" ∷ []) "Auto 模式: NL2SQL 失败，Multitool 成功" 70
              r.0)
        else auto_keyword query)

  unfoldable pub execute_auto : String → Option String → Ran
  unfolding execute_nl2sql execute_multitool execute_keyword
  execute_auto query task_id = do
    r ← execute_nl2sql query
    (if is_set "success" r.0
        then give (auto_ran "nl2sql" ("nl2sql" ∷ []) "Auto 模式: NL2SQL 成功" 90 r.0)
        else auto_multitool query task_id)

  unfoldable pub execute_mode : String → String → Option String → Ran
  unfolding execute_nl2sql execute_multitool execute_keyword execute_auto
  execute_mode query selected_mode task_id =
      if selected_mode == "nl2sql"
      then execute_nl2sql query
      else if selected_mode == "multitool"
      then execute_multitool query task_id
      else if selected_mode == "keyword"
      then execute_keyword query
      else execute_auto query task_id
