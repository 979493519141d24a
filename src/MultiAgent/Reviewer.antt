-- ===== src/MultiAgent/Reviewer.antt =====
-- app/agent/multi_agent/reviewer.py: whether a result is good enough, and in which mode to try again.
use project_b_multi_agent.Json.{Fields, Value, dict, flag, is_set, join_text, maybe_text, text}
use project_b_multi_agent.MultiAgent.{AgentDecision}
use project_b_multi_agent.Prelude.{
  Bool, List, Option, String, [], false, if◌then◌else◌, none, not, some, true, ℕ, ◌&&◌, ◌==◌, ◌||◌,
  ◌∷◌,
}

pub record Review : Type 0 where
  pub approved : Bool
  pub reason : String
  pub suggested_fallback_mode : Option String

abbrev pub review_dict : Review → Fields
review_dict r = dict (
    ("approved", flag r.approved)
    ∷ ("reason", text r.reason)
    ∷ ("suggested_fallback_mode", maybe_text r.suggested_fallback_mode)
    ∷ [])

abbrev pub reviewer_decision : String → String → ℕ → Fields → AgentDecision
reviewer_decision action reason confidence metadata = record {
  role = "reviewer";
  action = action;
  reason = reason;
  confidence = confidence;
  metadata = metadata;
}

unfoldable pub suggest_fallback : String → String
suggest_fallback failed_mode =
    if failed_mode == "nl2sql"
    then "multitool"
    else if failed_mode == "multitool"
    then "keyword"
    else if failed_mode == "keyword"
    then "auto"
    else "keyword"

abbrev pub approve_review : Review × AgentDecision
approve_review = (
  record { approved = true; reason = "执行成功且结果完整"; suggested_fallback_mode = none },
  reviewer_decision "approve" "执行成功且结果完整" 95 (dict (("approved", flag true) ∷ [])),
)

abbrev pub reject_review :
    String → String → ℕ → Option String → List (String × Value) → Review × AgentDecision
reject_review action reason confidence fallback more = (
  record { approved = false; reason = reason; suggested_fallback_mode = fallback },
  reviewer_decision action reason confidence
      (dict (("approved", flag false) ∷ ("suggested_fallback_mode", maybe_text fallback) ∷ more)),
)

abbrev pub failed_review : String → Review × AgentDecision
failed_review fallback =
    reject_review "suggest_fallback" (join_text ("执行失败，建议 fallback 到 " ∷ fallback ∷ [])) 70
      (some fallback) []

unfoldable pub review : Fields → String → Review × AgentDecision
unfolding suggest_fallback
review execution_result selected_mode =
    let success = is_set "success" execution_result in
    let has_answer = is_set "answer" execution_result || is_set "final_answer" execution_result in
    let blocked =
      is_set "blocked" execution_result || is_set "requires_approval" execution_result in
    if success && has_answer
    then approve_review
    else if blocked
    then reject_review "reject" "执行被策略拦截或等待人工审批，切换模式无法绕过审批，不建议 fallback" 85 none
        (("policy_blocked", flag true) ∷ [])
    else if not success && selected_mode == "auto"
    then reject_review "reject" "auto 模式执行失败，内部 nl2sql→multitool→keyword 级联已穷尽，不再建议 fallback" 80
        none []
    else if not success
    then failed_review (suggest_fallback selected_mode)
    else reject_review "reject" "结果缺少 answer" 60 (some "keyword") []
