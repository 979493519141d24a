-- ===== src/MultiAgent.antt =====
-- app/agent/multi_agent: the coordinator chooses a mode, the executor runs it, the reviewer judges
-- the result and may ask for one more run in another mode.
--
-- A confidence is a number of hundredths. `W` is the world outside, which the pipelines, the
-- tools and the language model's provider may change.
pub mod Coordinator
pub mod Executor
pub mod Reviewer
pub mod Orchestrator
pub mod Blocked
pub mod Agrees
use project_b_multi_agent.Json.{Fields, Value, dict, flag, get, join_text, text}
use project_b_multi_agent.Prelude.{
  Bool, List, Option, String, [], if◌then◌else◌, some, ℕ, ◌==◌, ◌∷◌,
}

pub record AgentDecision : Type 0 where
  pub role : String
  pub action : String
  pub reason : String
  pub confidence : ℕ
  pub metadata : Fields

pub record MultiAgentRunResult : Type 0 where
  pub mode : String
  pub success : Bool
  pub requested_mode : String
  pub executed_mode : String
  pub final_answer : String
  pub decisions : List AgentDecision
  pub execution_result : Fields
  pub review_result : Fields
  pub fallback_chain : List String

abbrev pub metadata_of : String → List (String × Value) → Fields
metadata_of selected_mode more = dict (("selected_mode", text selected_mode) ∷ more)

-- `AnalystAgent.analyze` of app/agent/multi_agent/analyst.py
abbrev analysis_parts : String → String
analysis_parts selected_mode =
    if selected_mode == "nl2sql"
    then "需要 schema 查询"
    else if selected_mode == "multitool"
    then "需要多工具串联"
    else "简单查询"

abbrev pub mode_or_auto : Option Value → String
mode_or_auto (some (text s)) = s
mode_or_auto _ = "auto"

unfoldable pub analyze : String → AgentDecision → AgentDecision
analyze query d =
    let selected_mode = mode_or_auto (get "selected_mode" d.metadata) in
    let plan_summary =
      join_text ("查询 '" ∷ query ∷ "' → " ∷ d.action ∷ "，" ∷ analysis_parts selected_mode ∷ []) in
    record {
      role = "analyst";
      action = "plan_analysis";
      reason = plan_summary;
      confidence = d.confidence;
      metadata = metadata_of selected_mode (
          ("needs_schema", flag (selected_mode == "nl2sql"))
          ∷ ("needs_multitool", flag (selected_mode == "multitool"))
          ∷ ("plan_summary", text plan_summary)
          ∷ []);
    }
