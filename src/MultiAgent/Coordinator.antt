-- ===== src/MultiAgent/Coordinator.antt =====
-- app/agent/multi_agent/coordinator.py: the choice of a mode, by the routing rules or by a call of
-- a language model.
use Prim.Native.String.{count}
use project_b_multi_agent.CheckpointStore.{later}
use project_b_multi_agent.Gateway.Call.{call}
use project_b_multi_agent.Json.{
  Items, Value, arr, as_fields, cons, get_fields, get_text, join_text, nil, text,
}
use project_b_multi_agent.Keyword.{RoutingRule, rule_enabled}
use project_b_multi_agent.MultiAgent.{AgentDecision, metadata_of}
use project_b_multi_agent.Prelude.{
  Bool, List, Option, String, [], false, if◌then◌else◌, leb, length, ltb, mem_text, none, not, some,
  suc, true, zero, ℕ, ◌*◌, ◌+◌, ◌==◌, ◌∷◌,
}
use project_b_multi_agent.PyText.{contains, starts_with}
use project_b_multi_agent.Raise.{Action, Attempt, done, failed_with}
use project_b_multi_agent.Resume.Steps.Report.{items_of}

-- what the provider of a language model answers: the calls of functions, and its names
pub record Generation : Type 0 where
  pub tool_calls : Items
  pub provider : String
  pub model : String

-- `[kw for kw in rule["keywords"] if kw in query]`
unfoldable pub matched_keywords : List String → String → List String
matched_keywords [] query = []
matched_keywords (kw ∷ kws) query =
    let rest = matched_keywords kws query in if contains query kw then kw ∷ rest else rest

abbrev pub or_later :
    RoutingRule
    → List String
    → Option (RoutingRule × List String)
    → Option (RoutingRule × List String)
or_later rule [] later = later
or_later rule (kw ∷ kws) later = some (rule, kw ∷ kws)

unfoldable pub match_rule :
    (String → Bool) → List RoutingRule → String → Option (RoutingRule × List String)
unfolding matched_keywords
match_rule switches [] query = none
match_rule switches (rule ∷ table) query =
    let later = match_rule switches table query in
    if not (rule_enabled switches rule)
    then later
    else or_later rule (matched_keywords rule.keywords query) later

-- `max(len(kw) for kw in matched)`
abbrev longest : List String → ℕ
longest [] = 0
longest (kw ∷ kws) = if ltb (longest kws) (count kw) then count kw else longest kws

abbrev pub at_most : ℕ → ℕ → ℕ
at_most bound n = if ltb bound n then bound else n

unfoldable pub confidence_of : List String → ℕ
confidence_of matched =
    at_most 95 (60 + at_most 2 (length matched) * 10 + (if leb 4 (longest matched) then 10 else 5))

abbrev pub first_of : List String → String
first_of [] = ""
first_of (s ∷ ss) = s

-- `**extra_metadata`
abbrev pub fallback_entry : Option String → List (String × Value)
fallback_entry none = []
fallback_entry (some reason) = ("llm_fallback_reason", text reason) ∷ []

abbrev pub rule_decision : Option (RoutingRule × List String) → Option String → AgentDecision
rule_decision (some (rule, matched)) llm_fallback_reason = record {
  role = "coordinator";
  action = rule.action;
  reason = join_text ("关键词 '" ∷ first_of matched ∷ "' 匹配规则，选择 " ∷ rule.selected_mode ∷ " 模式" ∷ []);
  confidence = confidence_of matched;
  metadata = metadata_of rule.selected_mode (
      ("matched_keywords", arr (items_of matched))
      ∷ ("decision_source", text "rule")
      ∷ ("confidence_basis", text "keyword_match_count_and_length")
      ∷ fallback_entry llm_fallback_reason);
}
rule_decision none llm_fallback_reason = record {
  role = "coordinator";
  action = "unknown";
  reason = "未匹配任何路由规则，使用 auto 模式";
  confidence = 50;
  metadata = metadata_of "auto" (
      ("decision_source", text "rule")
      ∷ ("confidence_basis", text "no_rule_matched")
      ∷ fallback_entry llm_fallback_reason);
}

unfoldable pub decide_with_rules :
    (String → Bool) → List RoutingRule → String → Option String → AgentDecision
unfolding match_rule
decide_with_rules switches table query llm_fallback_reason =
    rule_decision (match_rule switches table query) llm_fallback_reason

abbrev pub candidate_modes : List String
candidate_modes = "nl2sql" ∷ "multitool" ∷ "keyword" ∷ "auto" ∷ []

-- the name of the first function that was called, if that is a dict with one
abbrev pub function_name : Items → String
function_name nil = ""
function_name (cons call calls) = get_text "name" (get_fields "function" (as_fields (some call)))

abbrev pub drop_text : ℕ → String → String
drop_text zero s = s
drop_text (suc n) String.[] = ""
drop_text (suc n) (String.◌∷◌ c s) = drop_text n s

abbrev pub routed_mode : String → String
routed_mode name = if starts_with name "route_to_" then drop_text 9 name else ""

abbrev pub agrees : Option (RoutingRule × List String) → String → Option String
agrees none mode = none
agrees (some (rule, matched)) mode = if rule.selected_mode == mode then some rule.action else none

abbrev pub llm_decision : Option String → String → Generation → AgentDecision
llm_decision agreed mode g = record {
  role = "coordinator";
  action = elim agreed [ none ↦ "llm_route" | some action ↦ action ];
  reason = join_text ("LLM function calling 选择 " ∷ mode ∷ " 模式" ∷ []);
  confidence = elim agreed [ none ↦ 70 | some action ↦ 90 ];
  metadata = metadata_of mode (
      ("decision_source", text "llm")
      ∷ (
        "confidence_basis",
        text (elim agreed [ none ↦ "llm_only" | some action ↦ "llm_rule_agree" ]),
      )
      ∷ ("provider", text g.provider)
      ∷ ("model", text g.model)
      ∷ []);
}

abbrev pub has_calls : Items → Bool
has_calls nil = false
has_calls (cons call calls) = true

-- a decision, or the reason why there is none
pub data LlmRoute : Type 0 where
  routed : AgentDecision → LlmRoute
  unrouted : String → LlmRoute

unfoldable pub read_route : Option (RoutingRule × List String) → Generation → LlmRoute
read_route rule g =
    let name = function_name g.tool_calls in
    let mode = routed_mode name in
    if not (has_calls g.tool_calls)
    then unrouted "no_tool_call: provider 未返回路由决策"
    else if not (mem_text mode candidate_modes)
    then unrouted (join_text ("invalid_mode: 无法识别的路由函数 '" ∷ name ∷ "'" ∷ []))
    else routed (llm_decision (agrees rule mode) mode g)

abbrev pub route_prompt : String → String
route_prompt query =
    join_text ("你是路由决策器。请调用 route_to_<mode> 中最合适的一个函数，" ∷ "为下面的查询选择执行模式。\n" ∷ "查询: " ∷ query ∷ [])

-- `generate_with_metadata`, with the tools of the candidate modes
abbrev pub Provider : Type 0 → Type 0
Provider W = String → Action W Generation

abbrev pub route_of : (String → Bool) → List RoutingRule → String → Attempt Generation → LlmRoute
route_of switches table query (failed_with e) = unrouted (join_text ("provider_error: " ∷ e ∷ []))
route_of switches table query (done g) = read_route (match_rule switches table query) g

abbrev pub route_or_rules : (String → Bool) → List RoutingRule → String → LlmRoute → AgentDecision
route_or_rules switches table query (routed d) = d
route_or_rules switches table query (unrouted reason) =
    decide_with_rules switches table query (some reason)

abbrev pub after_provider :
    {W : Type 0}
    → (String → Bool)
    → List RoutingRule
    → String
    → Attempt Generation × W
    → AgentDecision × W
after_provider switches table query (r, w) =
    (route_or_rules switches table query (route_of switches table query r), w)

-- `decide`: `provider` is there if `settings.coordinator_llm_enabled` is on
unfoldable pub decide_mode :
    {W : Type 0}
    → (String → Bool)
    → List RoutingRule
    → Option (Provider W)
    → String
    → W
    → AgentDecision × W
unfolding read_route decide_with_rules match_rule
decide_mode switches table none query w = (decide_with_rules switches table query none, w)
decide_mode switches table (some provider) query w =
    after_provider switches table query (provider (route_prompt query) w)
