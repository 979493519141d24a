-- ===== src/Resume/Steps/Risk.antt =====
-- A later step of high risk is not called by a resume (app/services/approval_resume.py).
use project_b_multi_agent.ApprovalStore.{Approvals, create_approval}
use project_b_multi_agent.Gateway.{ToolSpec, get_tool}
use project_b_multi_agent.Json.{Fields, Items, Value, as_fields, cons}
use project_b_multi_agent.Policy.{Lookup, PolicyDecision, evaluate, is_high, no_context}
use project_b_multi_agent.Policy.Decisions.{high-not_allowed}
use project_b_multi_agent.Prelude.{
  List, Option, String, [], false, if_both, if_no, mem_text, none, refl, some, true, ◌∷◌, ◌≡◌,
}
use project_b_multi_agent.Resume.{State}
use project_b_multi_agent.Resume.Steps.{
  Answer, Env, Next, created, request_of, steps_loop, under_policy, with_deps, with_spec,
}
use project_b_multi_agent.Resume.Steps.Report.{Step, Subsequent, missing_deps, step_of}

-- the answer leaves the world as it was, and is no success
abbrev pub IsHeld : {W : Type 0} → State W → Answer W → Type 0
IsHeld s o = (o.0.world ≡ s.world) × ((sub : Subsequent) → o.1 ≡ some sub → sub.success ≡ false)

module _ {W : Type 0} (env : Env W) (task_id : String) (steps : Items) where
  held :
      (s s' : State W) (x : Subsequent)
      → s'.world ≡ s.world
      → x.success ≡ false
      → IsHeld s (s', some x)
  held s s' x same n = (same, λ r e. cc)

  created-IsHeld :
      (made : Option Approvals) (calls : Items) (s : State W)
      → IsHeld s (created env task_id steps made calls s)
  created-IsHeld none calls s = (refl, λ r e. cc)
  created-IsHeld (some rows) calls s = held s (record s { approvals = rows }) _ refl refl

  under_policy-IsHeld :
      (st : Step) (spec : ToolSpec) (d : PolicyDecision) (next : Next W) (done_ids : List String)
      (saved : Fields) (calls : Items) (s : State W)
      → d.allowed ≡ false
      → IsHeld s (under_policy env task_id steps st spec (some d) next done_ids saved calls s)
  under_policy-IsHeld st spec d next done_ids saved calls s denied =
      rw (if_no d.allowed _ _ denied) (
        if_both {A = Answer W} (IsHeld s) d.requires_approval
          (created-IsHeld
            (create_approval env.fresh env.now
              (request_of env task_id steps st spec d done_ids calls) s.approvals)
            calls s)
          (held s s _ refl refl))

  with_spec-IsHeld :
      (st : Step) (spec : ToolSpec) (whitelist : Option (Option Lookup)) (next : Next W)
      (done_ids : List String) (saved : Fields) (calls : Items) (s : State W)
      → env.policy ≡ some whitelist
      → is_high (some spec.risk_level) ≡ true
      → IsHeld s (with_spec env task_id steps st (some spec) next done_ids saved calls s)
  with_spec-IsHeld st spec whitelist next done_ids saved calls s policy high_risk =
      let d = evaluate whitelist st.tool_name (some spec.risk_level) no_context in
      rw policy (
        under_policy-IsHeld st spec d next done_ids saved calls s
          (high-not_allowed whitelist st.tool_name spec.risk_level high_risk))

  with_deps-IsHeld :
      (st : Step) (missing : List String) (spec : ToolSpec) (whitelist : Option (Option Lookup))
      (next : Next W) (done_ids : List String) (saved : Fields) (calls : Items) (s : State W)
      → env.policy ≡ some whitelist
      → get_tool st.tool_name env.gateway ≡ some spec
      → is_high (some spec.risk_level) ≡ true
      → IsHeld s (with_deps env task_id steps st missing next done_ids saved calls s)
  with_deps-IsHeld st [] spec whitelist next done_ids saved calls s policy found high_risk =
      rw found (with_spec-IsHeld st spec whitelist next done_ids saved calls s policy high_risk)
  with_deps-IsHeld st (m ∷ ms) spec whitelist next done_ids saved calls s policy found high_risk =
      held s s _ refl refl

  -- Under a policy engine, the approval of one step does not extend to another: the loop over the
  -- steps after it stops at a step that has not been completed and whose tool is of high risk,
  -- without a call and with no success.
  pub steps_loop-high_risk :
      (v : Value) (rest : Items) (spec : ToolSpec) (whitelist : Option (Option Lookup))
      (done_ids : List String) (saved : Fields) (calls : Items) (s : State W)
      → env.policy ≡ some whitelist
      → mem_text (step_of (as_fields (some v))).step_id done_ids ≡ false
      → get_tool (step_of (as_fields (some v))).tool_name env.gateway ≡ some spec
      → is_high (some spec.risk_level) ≡ true
      → let o = steps_loop env task_id steps (cons v rest) done_ids saved calls s in
        (o.0.world ≡ s.world) × ((sub : Subsequent) → o.1 ≡ some sub → sub.success ≡ false)
  unfolding steps_loop
  steps_loop-high_risk v rest spec whitelist done_ids saved calls s policy new found high_risk =
      let st = step_of (as_fields (some v)) in
      rw (if_no (mem_text st.step_id done_ids) _ _ new) (
        with_deps-IsHeld st (missing_deps st.depends_on done_ids) spec whitelist
          (steps_loop env task_id steps rest) done_ids saved calls s policy found high_risk)
