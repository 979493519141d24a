-- ===== src/Pipeline/Stops.antt =====
-- How a property of the outcomes of a step passes through its branches
-- (app/services/multitool_pipeline.py).
use project_b_multi_agent.ApprovalStore.{Approvals, create_approval}
use project_b_multi_agent.Gateway.{ToolCallRecord, ToolSpec}
use project_b_multi_agent.Gateway.Call.{call}
use project_b_multi_agent.Json.{Fields, Items}
use project_b_multi_agent.Pipeline.{
  Next, Outcome, after_call, entry, request_of, requested, run_resolved, under_policy, with_spec,
}
use project_b_multi_agent.Pipeline.Report.{Run, made_call}
use project_b_multi_agent.Planner.{Plan, PlanStep}
use project_b_multi_agent.Policy.{PolicyDecision}
use project_b_multi_agent.Prelude.{
  Bool, List, Option, String, [], false, if_both, if_split, none, refl, some, true, ◌&&◌, ◌≡◌,
}
use project_b_multi_agent.Resolve.{Resolved, resolve_fields, resolve_variable, resolved, unresolved}
use project_b_multi_agent.Resume.{State, add_audit}
use project_b_multi_agent.Resume.Multitool.{add_id}
use project_b_multi_agent.Resume.Steps.{Env, decision_on}
use project_b_multi_agent.Resume.Steps.Report.{snoc}

-- a property of outcomes that holds where the run stops early
module _ {W : Type 0} (env : Env W) (has_store : Bool) (query task_id : String) (p : Plan)
    (P : Outcome W → Type 0)
    (stops : (s : State W) (x : Run)
      → x.success ≡ false
      → x.missing_depends_on ≡ []
      → P (s, some x))
    (raises : (s : State W) → P (s, none)) (st : PlanStep) (next : Next W) (done_ids : List String)
    (calls : Items)
    (goes_on : (r : ToolCallRecord) (saved : Fields) (s : State W)
      → r.success ≡ true
      → P (next (add_id st.step_id done_ids) saved (snoc calls (made_call st r)) s)) where
  after_call-holds :
      (answer : ToolCallRecord × W) (saved : Fields) (s : State W)
      → P (after_call env has_store query task_id p st answer next done_ids saved calls s)
  after_call-holds (r, w) saved s =
      if_split P r.success (goes_on r _ (record s { world = w }))
        (λ no. stops (record s { world = w }) _ refl refl)

  run_resolved-holds :
      (args : Resolved Fields) (saved : Fields) (s : State W)
      → P (run_resolved env has_store query task_id p st args next done_ids saved calls s)
  run_resolved-holds (unresolved path) saved s = stops s _ refl refl
  run_resolved-holds (resolved arguments) saved s =
      after_call-holds (call env.gateway st.tool_name arguments "" s.world) saved s

  requested-holds :
      (d : PolicyDecision) (made : Option Approvals) (s : State W)
      → P (requested env has_store query task_id p st d made calls s)
  requested-holds d none s = raises s
  requested-holds d (some rows) s =
      stops
        (add_audit
          (entry env has_store query task_id p "approval_requested" env.fresh "waiting_approval")
          (record s { approvals = rows }))
        _ refl refl

  under_policy-holds :
      (spec : ToolSpec) (decision : Option PolicyDecision) (saved : Fields) (s : State W)
      → P (under_policy env has_store query task_id p st spec decision next done_ids saved calls s)
  under_policy-holds spec none saved s =
      run_resolved-holds (resolve_fields (resolve_variable saved) st.arguments) saved s
  under_policy-holds spec (some d) saved s =
      if_both P d.allowed
        (run_resolved-holds (resolve_fields (resolve_variable saved) st.arguments) saved s)
        (if_both P (d.requires_approval && has_store)
          (requested-holds d
            (create_approval env.fresh env.now
              (request_of env has_store query task_id p st spec d done_ids calls) s.approvals)
            s)
          (stops s _ refl refl))

  pub with_spec-holds :
      (found : Option ToolSpec) (saved : Fields) (s : State W)
      → P (with_spec env has_store query task_id p st found next done_ids saved calls s)
  with_spec-holds none saved s =
      stops
        (add_audit (entry env has_store query task_id p "operation_whitelist_blocked" "" "blocked")
          s)
        _ refl refl
  with_spec-holds (some spec) saved s =
      under_policy-holds spec (decision_on env.policy spec st.tool_name) saved s
