-- ===== src/Policy.antt =====
-- app/harness/policy/operation_whitelist.py and app/harness/policy/engine.py: which tool a plan
-- may call, and whether a person has to approve.
pub mod Decisions
use project_b_multi_agent.ApprovalStore.{RiskLevel, high, low, medium}
use project_b_multi_agent.Gateway.{ToolSpec, get_tool}
use project_b_multi_agent.Json.{
  Fields, Items, Value, as_fields, cons, get, join_text, nil, or_null, shown, text, truthy,
}
use project_b_multi_agent.Json.Same.{same_value}
use project_b_multi_agent.Prelude.{
  Bool, Option, String, [], false, if◌then◌else◌, mem_text, none, not, some, true, ◌&&◌, ◌==◌, ◌||◌,
  ◌∷◌,
}

pub record OperationDecision : Type 0 where
  pub allowed : Bool
  pub reason : String
  pub operation : Value
  pub scope : Option String

abbrev pub risk_text : RiskLevel → String
risk_text low = "low"
risk_text medium = "medium"
risk_text high = "high"

-- `scope in ("write", "admin", "schema")`
abbrev pub is_write_scope : String → Bool
is_write_scope s = mem_text s ("write" ∷ "admin" ∷ "schema" ∷ [])

abbrev pub allow : String → Option String → OperationDecision
allow operation scope = record {
  allowed = true;
  reason = "";
  operation = text operation;
  scope = scope;
}

abbrev pub deny_value : String → Value → Option String → OperationDecision
deny_value reason operation scope = record {
  allowed = false;
  reason = reason;
  operation = operation;
  scope = scope;
}

abbrev pub deny : String → String → Option String → OperationDecision
deny reason operation scope = deny_value reason (text operation) scope

pub check_nl2sql : String → Option String → OperationDecision
check_nl2sql tool_name none = allow tool_name none
check_nl2sql tool_name (some scope) =
    if is_write_scope scope
    then deny (join_text ("nl2sql 模式不允许 write/admin/schema 操作: " ∷ scope ∷ [])) tool_name
        (some scope)
    else allow tool_name (some scope)

-- `risk_level != "high"`
abbrev pub is_high : Option RiskLevel → Bool
is_high (some high) = true
is_high _ = false

-- `gateway` is the lookup `get_tool` of the gateway that the whitelist was given, if any
abbrev pub Lookup : Type 0
Lookup = String → Option ToolSpec

abbrev pub check_spec :
    Option ToolSpec → String → Option RiskLevel → Option String → OperationDecision
check_spec none tool_name risk_level permission_scope =
    deny (join_text ("工具 '" ∷ tool_name ∷ "' 未在 ToolGateway 注册" ∷ [])) tool_name permission_scope
check_spec (some spec) tool_name risk_level permission_scope =
    if is_write_scope spec.permission_scope && not (is_high risk_level)
    then deny
        (join_text ("工具 '" ∷ tool_name ∷ "' 权限范围 '" ∷ spec.permission_scope ∷ "' 不允许直接执行" ∷ []))
        tool_name (some spec.permission_scope)
    else allow tool_name permission_scope

pub check_tool_registered :
    Option Lookup → String → Option RiskLevel → Option String → OperationDecision
check_tool_registered none tool_name risk_level permission_scope = allow tool_name permission_scope
check_tool_registered (some get_tool) tool_name risk_level permission_scope =
    check_spec (get_tool tool_name) tool_name risk_level permission_scope

-- the modes other than "nl2sql" all come to `check_tool_registered`
unfoldable pub is_allowed :
    Option Lookup → String → String → Option RiskLevel → Option String → OperationDecision
unfolding check_nl2sql check_tool_registered
is_allowed gateway tool_name mode risk_level permission_scope =
    if mode == "nl2sql"
    then check_nl2sql tool_name permission_scope
    else check_tool_registered gateway tool_name risk_level permission_scope

-- `v == s` for a text `s`
abbrev pub text_is : String → Option Value → Bool
text_is s (some (text t)) = t == s
text_is s _ = false

-- `s.get("step_id") == step_id`
abbrev pub value_is : Value → Option Value → Bool
value_is v none = false
value_is v (some w) = same_value w v

-- `any(s.get("step_id") == step_id for s in plan_steps)`; the steps of a plan are dicts
unfoldable pub any_step : Value → Items → Bool
any_step step_id nil = false
any_step step_id (cons s steps) =
    value_is step_id (get "step_id" (as_fields (some s))) || any_step step_id steps

-- the second test, for a plan that is given; a key that is absent reads as the empty text
abbrev pub check_step : (Value → String) → Option Value → Option Items → String → OperationDecision
check_step str_of (some step_id) (some steps) tool_name =
    if truthy step_id && not (any_step step_id steps)
    then deny_value
        (join_text ("resume step_id '" ∷ shown str_of step_id ∷ "' 不存在于原 plan.steps" ∷ [])) step_id
        none
    else allow tool_name none
check_step str_of step_id steps tool_name = allow tool_name none

abbrev pub names_another : String → Option Value → Bool
names_another approval_tool_name none = false
names_another approval_tool_name (some v) = truthy v && not (text_is approval_tool_name (some v))

-- `str_of` is `str` on the values that are no texts
unfoldable pub check_payload_integrity :
    (Value → String) → Fields → String → Option Items → OperationDecision
unfolding any_step
check_payload_integrity str_of payload approval_tool_name steps =
    let payload_tool_name = get "tool_name" payload in
    if names_another approval_tool_name payload_tool_name
    then deny_value
        (join_text (
          "payload tool_name '"
          ∷ shown str_of (or_null payload_tool_name)
          ∷ "' 与审批记录 '"
          ∷ approval_tool_name
          ∷ "' 不匹配"
          ∷ []))
        (or_null payload_tool_name) none
    else check_step str_of (get "step_id" payload) steps approval_tool_name

-- the dict that `PolicyEngine.evaluate` returns
pub record PolicyDecision : Type 0 where
  pub action : String
  pub risk_level : Option RiskLevel
  pub allowed : Bool
  pub requires_approval : Bool
  pub reason : String
  pub error_type : Option String

-- `PolicyEngine.check`
unfoldable pub check : Option RiskLevel → Bool
check risk_level = not (is_high risk_level)

-- the part of `context` that is read
pub record Context : Type 0 where
  pub mode : String
  pub permission_scope : Option String

abbrev pub decide : String → Option RiskLevel → Bool → PolicyDecision
decide action risk_level true = record {
  action = action;
  risk_level = risk_level;
  allowed = true;
  requires_approval = false;
  reason = "";
  error_type = none;
}
decide action risk_level false = record {
  action = action;
  risk_level = risk_level;
  allowed = false;
  requires_approval = true;
  reason = join_text ("高风险工具 '" ∷ action ∷ "' 需要人工审批" ∷ []);
  error_type = none;
}

abbrev pub after_whitelist : OperationDecision → String → Option RiskLevel → PolicyDecision
after_whitelist wl action risk_level =
    if wl.allowed then decide action risk_level (check risk_level) else record {
      action = action;
      risk_level = risk_level;
      allowed = false;
      requires_approval = false;
      reason = join_text ("操作不在白名单内: " ∷ wl.reason ∷ []);
      error_type = some "operation_not_whitelisted";
    }

-- `whitelist` is the engine's whitelist, by the lookup of its gateway: `none` is no whitelist,
-- `some none` one without a gateway
unfoldable pub evaluate :
    Option (Option Lookup) → String → Option RiskLevel → Context → PolicyDecision
evaluate none action risk_level context = decide action risk_level (check risk_level)
evaluate (some gateway) action risk_level context =
    after_whitelist (is_allowed gateway action context.mode risk_level context.permission_scope)
      action risk_level

abbrev pub no_context : Context
no_context = record { mode = ""; permission_scope = none }
