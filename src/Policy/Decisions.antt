-- ===== src/Policy/Decisions.antt =====
-- When the policy lets a tool run (app/harness/policy/engine.py, operation_whitelist.py).
use project_b_multi_agent.ApprovalStore.{RiskLevel}
use project_b_multi_agent.Gateway.{ToolSpec, get_tool}
use project_b_multi_agent.Json.{
  Fields, Items, Value, arr, as_fields, cons, flag, get, nil, null, num, obj, text, truthy,
}
use project_b_multi_agent.Json.Same.{same_value}
use project_b_multi_agent.Policy.{
  Context, Lookup, OperationDecision, any_step, check, check_payload_integrity, check_spec,
  check_step, evaluate, is_allowed, is_high, is_write_scope, names_another, no_context, text_is,
}
use project_b_multi_agent.Prelude.{
  Bool, Bool-cases, Option, Option-cases, String, ap, arith, eq_iff, eq_refl, false, if_no, if_yes,
  inl, inr, none, not, refl, some, sym, true, ◌&&◌, ◌==◌, ◌↔◌, ◌∙◌, ◌≡◌, ◌⊎◌,
}

-- whether the engine's whitelist, if it has one, passes the action
abbrev pub whitelisted : Option (Option Lookup) → String → Option RiskLevel → Context → Bool
whitelisted none action risk_level c = true
whitelisted (some gateway) action risk_level c =
    (is_allowed gateway action c.mode risk_level c.permission_scope).allowed

-- An action runs at once exactly if it passes the whitelist and is not of high risk. It waits for
-- an approval exactly if it passes and is of high risk. So what the whitelist stops can not be
-- approved either.
pub evaluate_lem :
    (whitelist : Option (Option Lookup)) (action : String) (risk_level : Option RiskLevel)
    (c : Context)
    → let d = evaluate whitelist action risk_level c in
      let passes = whitelisted whitelist action risk_level c in
      (d.allowed ≡ (passes && not (is_high risk_level)))
      × (d.requires_approval ≡ (passes && is_high risk_level))
unfolding evaluate check
evaluate_lem none action risk_level c = ground arith
evaluate_lem (some gateway) action risk_level c = ground arith

pub high-not_allowed :
    (whitelist : Option (Option Lookup)) (action : String) (risk : RiskLevel)
    → is_high (some risk) ≡ true
    → (evaluate whitelist action (some risk) no_context).allowed ≡ false
high-not_allowed whitelist action risk h =
    (evaluate_lem whitelist action (some risk) no_context).0
    ∙ not_both (whitelisted whitelist action (some risk) no_context) (is_high (some risk)) h
  where
    not_both : (a b : Bool) → b ≡ true → (a && not b) ≡ false
    not_both a b e = ground arith

-- the spec is there, and a tool that writes is of high risk
abbrev pub IsCallable : Option ToolSpec → Option RiskLevel → Type 0
IsCallable none risk_level = ⊥
IsCallable (some spec) risk_level =
    (is_write_scope spec.permission_scope ≡ false) ⊎ (is_high risk_level ≡ true)

-- Outside the nl2sql mode a whitelist with a gateway passes exactly the tools that are
-- registered, and of those that write, administer or change the schema only calls of high risk,
-- which then wait for an approval.
is_allowed_iff :
    (get_tool : Lookup) (tool_name mode : String) (risk_level : Option RiskLevel)
    (permission_scope : Option String)
    → (mode == "nl2sql") ≡ false
    → ((is_allowed (some get_tool) tool_name mode risk_level permission_scope).allowed ≡ true)
      ↔ IsCallable (get_tool tool_name) risk_level
unfolding is_allowed
is_allowed_iff get_tool tool_name mode risk_level permission_scope other =
    rw (if_no (mode == "nl2sql") _ _ other) (by_spec (get_tool tool_name))
  where
    by_spec :
        (found : Option ToolSpec)
        → ((check_spec found tool_name risk_level permission_scope).allowed ≡ true)
          ↔ IsCallable found risk_level
    by_spec none = (λ h. cc, λ h. absurd h)
    by_spec (some spec) = (λ h. ground arith, λ h. ground arith)

-- a step of the plan has the id, as Python compares values
pub data HasStep (step_id : Value) : Items → Type 0 where
  first_step :
      {s : Value} {w : Value} {steps : Items}
      → get "step_id" (as_fields (some s)) ≡ some w
      → same_value w step_id ≡ true
      → HasStep step_id (cons s steps)
  later_step : {s : Value} {steps : Items} → HasStep step_id steps → HasStep step_id (cons s steps)

any_step-HasStep : (v : Value) (steps : Items) → any_step v steps ≡ true → HasStep v steps
unfolding any_step
any_step-HasStep v nil h = cc
any_step-HasStep v (cons s steps) h = elim (Option-cases (get "step_id" (as_fields (some s)))) [
  | inl e ↦ later_step (any_step-HasStep v steps (ground (arith, e)))
  | inr (w, e) ↦ elim (Bool-cases (same_value w v)) [
    | inl same ↦ first_step e same
    | inr other ↦ later_step (any_step-HasStep v steps (ground (arith, e, other)))
  ]
]

HasStep-any_step : (v : Value) (steps : Items) → HasStep v steps → any_step v steps ≡ true
unfolding any_step
HasStep-any_step v nil h = elim h [ ]
HasStep-any_step v (cons s steps) (first_step e same) = ground (arith, e, same)
HasStep-any_step v (cons s steps) (later_step h) = ground (arith, HasStep-any_step v steps h)

-- the tool that a payload names, if any, is the approved one
abbrev pub IsSameTool : String → Option Value → Type 0
IsSameTool approval_tool_name none = Unit
IsSameTool approval_tool_name (some v) = (truthy v ≡ false) ⊎ (v ≡ text approval_tool_name)

-- the step is in the plan, if it is value and the plan is given
abbrev pub IsPlanned : Option Value → Option Items → Type 0
IsPlanned none steps = Unit
IsPlanned (some v) none = Unit
IsPlanned (some v) (some steps) = (truthy v ≡ false) ⊎ HasStep v steps

text_is-same : (s : String) (v : Value) → text_is s (some v) ≡ true → v ≡ text s
text_is-same s (text t) h = ap text ((eq_iff t s).0 h)
text_is-same s null h = cc
text_is-same s (flag b) h = cc
text_is-same s (num n) h = cc
text_is-same s (arr xs) h = cc
text_is-same s (obj d) h = cc

names_another-IsSameTool :
    (s : String) (value : Option Value) → (names_another s value ≡ false) ↔ IsSameTool s value
names_another-IsSameTool s none = (λ h. tt, λ h. refl)
names_another-IsSameTool s (some v) = (
  λ h. elim (Bool-cases (truthy v)) [
    | inl is_set_one ↦ inr (text_is-same s v (ground (arith, is_set_one)))
    | inr empty ↦ inl empty
  ],
  λ h. elim h [
    | inl empty ↦ ground (arith, empty)
    | inr same ↦ ap (λ w. truthy w && not (text_is s (some w))) same ∙ ground (arith, eq_refl s)
  ],
)

check_step-IsPlanned :
    (str_of : Value → String) (value : Option Value) (steps : Option Items) (tool : String)
    → ((check_step str_of value steps tool).allowed ≡ true) ↔ IsPlanned value steps
check_step-IsPlanned str_of none steps tool = (λ h. tt, λ h. refl)
check_step-IsPlanned str_of (some v) none tool = (λ h. tt, λ h. refl)
check_step-IsPlanned str_of (some v) (some steps) tool = (
  λ h. elim (Bool-cases (truthy v)) [
    | inl is_set_one ↦ inr (any_step-HasStep v steps (ground (arith, is_set_one)))
    | inr empty ↦ inl empty
  ],
  λ h. elim h [
    | inl empty ↦ ground (arith, empty)
    | inr has ↦ ground (arith, HasStep-any_step v steps has)
  ],
)

-- A payload passes the integrity check exactly if the tool that it names, if any, is the approved
-- one, and the step that it names, if any, is in the plan, where one is given. A value that Python
-- takes for false names nothing.
pub check_payload_integrity_iff :
    (str_of : Value → String) (payload : Fields) (approval_tool_name : String)
    (steps : Option Items)
    → ((check_payload_integrity str_of payload approval_tool_name steps).allowed ≡ true) ↔ (
        IsSameTool approval_tool_name (get "tool_name" payload)
        × IsPlanned (get "step_id" payload) steps)
unfolding check_payload_integrity
check_payload_integrity_iff str_of payload tool steps =
    let value = get "tool_name" payload in
    let tool_test = names_another-IsSameTool tool value in
    let step_test = check_step-IsPlanned str_of (get "step_id" payload) steps tool in
    elim (Bool-cases (names_another tool value)) [
      | inl other ↦ (
        λ h. cc (ap OperationDecision.allowed (if_yes _ _ _ other), h),
        λ h. cc (other, tool_test.1 h.0),
      )
      | inr same ↦ (
        λ h. (
          tool_test.0 same,
          step_test.0 (sym (ap OperationDecision.allowed (if_no _ _ _ same)) ∙ h),
        ),
        λ h. ap OperationDecision.allowed (if_no _ _ _ same) ∙ step_test.1 h.1,
      )
    ]
