-- ===== src/Planner.antt =====
-- app/agent/nodes/multitool_planner.py: the plans, and the choice of one by keywords of the query.
use project_b_multi_agent.Json.{Fields, dict, end, num, text}
use project_b_multi_agent.Prelude.{
  Bool, List, Option, String, [], false, if◌then◌else◌, some, true, ◌||◌, ◌∷◌,
}
use project_b_multi_agent.PyText.{contains}

pub record PlanStep : Type 0 where
  pub step_id : String
  pub tool_name : String
  pub arguments : Fields
  pub depends_on : List String
  pub save_as : Option String

pub record Plan : Type 0 where
  pub matched : Bool
  pub intent : String
  pub steps : List PlanStep
  pub response_template : String
  pub reason : String

abbrev pub gmv_mom_plan : Plan
gmv_mom_plan = record {
  matched = true;
  intent = "gmv_mom";
  steps =
      record {
        step_id = "step_date";
        tool_name = "date_lookup";
        arguments = end;
        depends_on = [];
        save_as = some "date_info";
      }
      ∷ record {
        step_id = "step_gmv";
        tool_name = "get_today_gmv";
        arguments = end;
        depends_on = [];
        save_as = some "current_gmv";
      }
      ∷ record {
        step_id = "step_calc";
        tool_name = "calculator";
        arguments = dict (
            ("operation", text "percent_change")
            ∷ ("a", text "$current_gmv.result.gmv")
            ∷ ("b", num 100000)
            ∷ []);
        depends_on = "step_date" ∷ "step_gmv" ∷ [];
        save_as = some "mom_change";
      }
      ∷ [];
  response_template = "GMV环比增长";
  reason = "使用 mock baseline=100000 作为上期 GMV，v0.3.2 将接入真实上月查询";
}

abbrev pub refund_rule_plan : Plan
refund_rule_plan = record {
  matched = true;
  intent = "refund_rule";
  steps =
      record {
        step_id = "step_rule";
        tool_name = "rule_lookup";
        arguments = dict (("keyword", text "refund") ∷ []);
        depends_on = [];
        save_as = some "refund_rule";
      }
      ∷ record {
        step_id = "step_rate";
        tool_name = "get_refund_rate";
        arguments = end;
        depends_on = [];
        save_as = some "refund_rate";
      }
      ∷ [];
  response_template = "退款规则+退款率";
  reason = "查询退款规则并获取当前退款率";
}

abbrev pub promotion_rule_plan : Plan
promotion_rule_plan = record {
  matched = true;
  intent = "promotion_rule";
  steps =
      record {
        step_id = "step_rule";
        tool_name = "rule_lookup";
        arguments = dict (("keyword", text "promotion") ∷ []);
        depends_on = [];
        save_as = some "promotion_rule";
      }
      ∷ [];
  response_template = "促销规则";
  reason = "查询促销规则";
}

abbrev pub unmatched_plan : Plan
unmatched_plan = record {
  matched = false;
  intent = "";
  steps = [];
  response_template = "";
  reason = "未匹配到多工具任务";
}

-- `RULES`
abbrev pub rules : List (List String × Plan)
rules =
    ("GMV环比" ∷ "环比增长" ∷ [], gmv_mom_plan)
    ∷ ("退款规则" ∷ "退款政策" ∷ [], refund_rule_plan)
    ∷ ("促销规则" ∷ [], promotion_rule_plan)
    ∷ []

abbrev pub any_keyword : List String → String → Bool
any_keyword [] query = false
any_keyword (kw ∷ kws) query = contains query kw || any_keyword kws query

abbrev pub first_rule : List (List String × Plan) → String → Plan
first_rule [] query = unmatched_plan
first_rule ((kws, p) ∷ rest) query = if any_keyword kws query then p else first_rule rest query

-- `MultiToolPlanner.plan`
unfoldable pub plan : String → Plan
plan query = first_rule rules query
