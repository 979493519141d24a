-- ===== src/Keyword.antt =====
-- app/agent/nodes/planner.py: the table of routing rules and the keyword planner.
--
-- `switches` reads a Boolean of the settings by its name. A rule is a record of the keys that the
-- table's dicts may have; one that is missing, or `None`, is `none`.
pub mod Laws
use project_b_multi_agent.Planner.{rules}
use project_b_multi_agent.Prelude.{
  Bool, List, Option, String, [], false, if◌then◌else◌, none, not, some, true, ◌==◌, ◌||◌, ◌∷◌,
}
use project_b_multi_agent.PyText.{contains}

pub record RoutingRule : Type 0 where
  pub keywords : List String
  pub tool_name : Option String
  pub label : Option String
  pub action : String
  pub selected_mode : String
  pub settings_switch : Option String

abbrev rule_for : List String → String → String → String → String → RoutingRule
rule_for keywords tool_name label action selected_mode = record {
  keywords = keywords;
  tool_name = some tool_name;
  label = some label;
  action = action;
  selected_mode = selected_mode;
  settings_switch = none;
}

abbrev compound_rule : RoutingRule
compound_rule = record {
  keywords = "GMV环比" ∷ "环比增长" ∷ "退款规则" ∷ "退款政策" ∷ "促销规则" ∷ [];
  tool_name = none;
  label = none;
  action = "compound_tool_query";
  selected_mode = "multitool";
  settings_switch = none;
}

abbrev refund_demo_rule : RoutingRule
refund_demo_rule = record {
  keywords = "模拟退款" ∷ "退款演练" ∷ [];
  tool_name = some "simulate_refund_order";
  label = some "模拟退款单";
  action = "high_risk_operation";
  selected_mode = "keyword";
  settings_switch = some "demo_high_risk_tool_enabled";
}

abbrev pub routing_rule_source : List RoutingRule
routing_rule_source =
    compound_rule
    ∷ refund_demo_rule
    ∷ rule_for ("今天几号" ∷ "当前日期" ∷ "日期" ∷ []) "date_lookup" "日期查询" "simple_query" "keyword"
    ∷ rule_for ("GMV" ∷ "gmv" ∷ "销售额" ∷ []) "get_today_gmv" "今日 GMV" "data_query" "nl2sql"
    ∷ rule_for ("新增用户" ∷ "用户" ∷ []) "get_month_new_users" "本月新增用户" "data_query" "nl2sql"
    ∷ rule_for ("订单" ∷ "订单量" ∷ []) "get_order_count" "订单数量" "data_query" "nl2sql"
    ∷ rule_for ("Top商品" ∷ "热销" ∷ "热门商品" ∷ "top商品" ∷ []) "get_top_products" "Top 商品" "data_query"
        "nl2sql"
    ∷ rule_for ("退款率" ∷ "退款" ∷ []) "get_refund_rate" "退款率" "data_query" "nl2sql"
    ∷ []

abbrev pub switched_on : (String → Bool) → Option String → Bool
switched_on switches none = true
switched_on switches (some s) = if s == "" then true else switches s

unfoldable pub rule_enabled : (String → Bool) → RoutingRule → Bool
rule_enabled switches rule = switched_on switches rule.settings_switch

-- `rule.get("tool_name")` is truthy
abbrev pub has_tool : Option String → Bool
has_tool none = false
has_tool (some t) = not (t == "")

abbrev pub keep_tools : List RoutingRule → List RoutingRule
keep_tools [] = []
keep_tools (r ∷ rules) =
    let rest = keep_tools rules in if has_tool r.tool_name then r ∷ rest else rest

unfoldable pub build_planner_rules : List RoutingRule
build_planner_rules = keep_tools routing_rule_source

unfoldable pub build_coordinator_rules : List RoutingRule
build_coordinator_rules = routing_rule_source

-- `for kw in rule["keywords"]: if kw in query`
abbrev pub any_in : List String → String → Bool
any_in [] query = false
any_in (kw ∷ kws) query = contains query kw || any_in kws query

pub record Plan : Type 0 where
  pub tool_name : Option String
  pub matched : Bool
  pub label : Option String

abbrev pub no_match : Plan
no_match = record { tool_name = none; matched = false; label = none }

abbrev pub match_of : RoutingRule → Plan
match_of rule = record { tool_name = rule.tool_name; matched = true; label = rule.label }

-- `plan` over the planner's table
unfoldable pub plan : (String → Bool) → List RoutingRule → String → Plan
plan switches [] query = no_match
plan switches (rule ∷ rules) query =
    let rest = plan switches rules query in
    if not (rule_enabled switches rule)
    then rest
    else if any_in rule.keywords query
    then match_of rule
    else rest

abbrev pub label_or : String → Option String → String
label_or s none = s
label_or s (some l) = l

-- the loop of `get_label`; a rule of the planner has a tool and a label
abbrev pub is_tool : String → Option String → Bool
is_tool tool_name none = false
is_tool tool_name (some t) = t == tool_name

unfoldable pub label_in : List RoutingRule → String → Option String
label_in [] tool_name = some tool_name
label_in (rule ∷ rules) tool_name =
    let rest = label_in rules tool_name in
    if is_tool tool_name rule.tool_name then rule.label else rest

unfoldable pub get_label : List RoutingRule → Option String → Option String
unfolding label_in
get_label table none = some "未知"
get_label table (some t) = if t == "" then some "未知" else label_in table t
