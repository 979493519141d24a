-- ===== src/Pipeline/Risk.antt =====
-- A step of high risk is not called by a run (app/services/multitool_pipeline.py).
use project_b_multi_agent.ApprovalStore.{Approvals, create_approval}
use project_b_multi_agent.Gateway.{ToolSpec, get_tool}
use project_b_multi_agent.Json.{Fields, Items}
use project_b_multi_agent.Pipeline.{
  Next, Outcome, entry, request_of, requested, run_steps, under_policy, with_deps, with_spec,
}
use project_b_multi_agent.Pipeline.Report.{Run}
use project_b_multi_agent.Planner.{Plan, PlanStep}
use project_b_multi_agent.Policy.{Lookup, PolicyDecision, evaluate, is_high, no_context}
use project_b_multi_agent.Policy.Decisions.{high-not_allowed}
use project_b_multi_agent.Prelude.{
  Bool, List, Option, String, [], false, if_both, if_no, none, refl, some, true, ◌&&◌, ◌∷◌, ◌≡◌,
}
use project_b_multi_agent.Resume.{State, add_audit}
use project_b_multi_agent.Resume.Steps.{Env}
use project_b_multi_agent.Resume.Steps.Report.{missing_deps}

-- the outcome leaves the world as it was, and is no success
abbrev pub IsHeld : {W : Type 0} → State W → Outcome W → Type 0
IsHeld s o = (o.0.world ≡ s.world) × ((r : Run) → o.1 ≡ some r → r.success ≡ false)

module _ {W : Type 0} (env : Env W) (has_store : Bool) (query task_id : String) (p : Plan) where
  held : (s s' : State W) (x : Run) → s'.world ≡ s.world → x.success ≡ false → IsHeld s (s', some x)
  held s s' x same n = (same, λ r e. cc)

  requested-IsHeld :
      (st : PlanStep) (d : PolicyDecision) (made : Option Approvals) (calls : Items) (s : State W)
      → IsHeld s (requested env has_store query task_id p st d made calls s)
  requested-IsHeld st d none calls s = (refl, λ r e. cc)
  requested-IsHeld st d (some rows) calls s =
      held s
        (add_audit
          (entry env has_store query task_id p "approval_requested" env.fresh "waiting_approval")
          (record s { approvals = rows }))
        _ refl refl

  under_policy-IsHeld :
      (st : PlanStep) (spec : ToolSpec) (d : PolicyDecision) (next : Next W)
      (done_ids : List String) (saved : Fields) (calls : Items) (s : State W)
      → d.allowed ≡ false
      → IsHeld s
          (under_policy env has_store query task_id p st spec (some d) next done_ids saved calls s)
  under_policy-IsHeld st spec d next done_ids saved calls s denied =
      rw (if_no d.allowed _ _ denied) (
        if_both {A = Outcome W} (IsHeld s) (d.requires_approval && has_store)
          (requested-IsHeld st d
            (create_approval env.fresh env.now
              (request_of env has_store query task_id p st spec d done_ids calls) s.approvals)
            calls s)
          (held s s _ refl refl))

  with_spec-IsHeld :
      (st : PlanStep) (spec : ToolSpec) (whitelist : Option (Option Lookup)) (next : Next W)
      (done_ids : List String) (saved : Fields) (calls : Items) (s : State W)
      → env.policy ≡ some whitelist
      → is_high (some spec.risk_level) ≡ true
      → IsHeld s
          (with_spec env has_store query task_id p st (some spec) next done_ids saved calls s)
  with_spec-IsHeld st spec whitelist next done_ids saved calls s policy high_risk =
      let d = evaluate whitelist st.tool_name (some spec.risk_level) no_context in
      rw policy (
        under_policy-IsHeld st spec d next done_ids saved calls s
          (high-not_allowed whitelist st.tool_name spec.risk_level high_risk))

  with_deps-IsHeld :
      (st : PlanStep) (missing : List String) (spec : ToolSpec) (whitelist : Option (Option Lookup))
      (next : Next W) (done_ids : List String) (saved : Fields) (calls : Items) (s : State W)
      → env.policy ≡ some whitelist
      → get_tool st.tool_name env.gateway ≡ some spec
      → is_high (some spec.risk_level) ≡ true
      → IsHeld s (with_deps env has_store query task_id p st missing next done_ids saved calls s)
  with_deps-IsHeld st [] spec whitelist next done_ids saved calls s policy found high_risk =
      rw found (with_spec-IsHeld st spec whitelist next done_ids saved calls s policy high_risk)
  with_deps-IsHeld st (m ∷ ms) spec whitelist next done_ids saved calls s policy found high_risk =
      held s s _ refl refl

  -- Under a policy engine, a run that comes to a step whose tool is of high risk stops there
  -- without a call: the world is as it was, and the run is no success, whatever the whitelist is
  -- and whatever steps come after.
  pub run_steps-high_risk :
      (st : PlanStep) (sts : List PlanStep) (spec : ToolSpec) (whitelist : Option (Option Lookup))
      (done_ids : List String) (saved : Fields) (calls : Items) (s : State W)
      → env.policy ≡ some whitelist
      → get_tool st.tool_name env.gateway ≡ some spec
      → is_high (some spec.risk_level) ≡ true
      → let o = run_steps env has_store query task_id p (st ∷ sts) done_ids saved calls s in
        (o.0.world ≡ s.world) × ((r : Run) → o.1 ≡ some r → r.success ≡ false)
  unfolding run_steps
  run_steps-high_risk st sts spec whitelist done_ids saved calls s policy found high_risk =
      with_deps-IsHeld st (missing_deps st.depends_on done_ids) spec whitelist
        (run_steps env has_store query task_id p sts) done_ids saved calls s policy found high_risk
