-- ===== src/GraphRun/Safety.antt =====
-- A keyword run on the graph runtime does not call a tool that a person has to approve
-- (app/agent/graph/runtime_adapter.py).
use project_b_multi_agent.ApprovalStore.{Approvals, Request, high}
use project_b_multi_agent.CheckpointStore.{
  CheckpointStatus, Checkpoints, completed, failed, running,
}
use project_b_multi_agent.Gateway.{ToolSpec, get_tool}
use project_b_multi_agent.GraphRun.{Adapter, Machine, Run, checkpoint, stored}
use project_b_multi_agent.GraphRun.Stages.{
  approval_stored, audit_interrupt, decision_on, error_response, hold, hold_for_approval,
  mark_interrupt, needs_person, report_error, request_approval, respond, run_keyword, run_plan,
  run_stages, run_tool,
}
use project_b_multi_agent.Json.{Fields, get, is_set, merge, put}
use project_b_multi_agent.Keyword.{plan}
use project_b_multi_agent.Policy.{PolicyDecision}
use project_b_multi_agent.Prelude.{
  Bool, Option, String, false, if_both, if_split, none, not, refl, some, true, ℕ, ◌==◌, ◌||◌, ◌≡◌,
}
use project_b_multi_agent.Raise.{Attempt, and_then, done, failed_with, give, recover}
use project_b_multi_agent.Resume.{State}

-- the run answers that the task is not done, or raises
abbrev pub Declines : Attempt Fields → Type 0
Declines (done d) = is_set "success" d ≡ false
Declines (failed_with e) = Unit

abbrev pub Anything : {A : Type 0} → Attempt A → Type 0
Anything r = Unit

module _ {W : Type 0} (w : W) where
  -- the world outside is as it was, and the result is as `Q` says
  abbrev pub Keeps : {A : Type 0} → (Attempt A → Type 0) → Attempt A × Machine W → Type 0
  Keeps Q r = (r.1.stores.world ≡ w) × Q r.0

  pub and_then-Keeps :
      {A B : Type 0} (Q : Attempt B → Type 0) (r : Attempt A × Machine W) (f : A → Run W B)
      → r.1.stores.world ≡ w
      → ((e : String) → Q (failed_with e))
      → ((a : A) (m : Machine W) → m.stores.world ≡ w → Keeps Q (f a m))
      → Keeps Q (and_then r f)
  and_then-Keeps Q (done a, m) f same raises next = next a m same
  and_then-Keeps Q (failed_with e, m) f same raises next = (same, raises e)

  module _ (env : Adapter W) where
    stored-world :
        (o : Option Checkpoints) (k status : String) (m : Machine W)
        → m.stores.world ≡ w
        → (stored env o k status m).1.stores.world ≡ w
    stored-world none k status m h = h
    stored-world (some rows) k status m h = h

    pub checkpoint-world :
        (task_id stage : String) (status : CheckpointStatus) (m : Machine W)
        → m.stores.world ≡ w
        → (checkpoint env task_id stage status m).1.stores.world ≡ w
    unfolding checkpoint
    checkpoint-world task_id stage status m h = stored-world _ _ _ m h

    module _ (task_id query : String) where
      approval_stored-world :
          (o : Option Approvals) (a : String) (m : Machine W)
          → m.stores.world ≡ w
          → (approval_stored env task_id query o a m).1.stores.world ≡ w
      approval_stored-world none a m h = h
      approval_stored-world (some rows) a m h = h

      request_approval-world :
          (q : Request) (m : Machine W)
          → m.stores.world ≡ w
          → (request_approval env task_id query q m).1.stores.world ≡ w
      unfolding request_approval
      request_approval-world q m h = approval_stored-world _ _ m h

      respond-Keeps :
          (response : Fields) (status : CheckpointStatus) (m : Machine W)
          → is_set "success" response ≡ false
          → m.stores.world ≡ w
          → Keeps Declines (respond env task_id query response status m)
      respond-Keeps response status m no_success h =
          and_then-Keeps Declines (checkpoint env task_id "respond" status _)
            (λ checkpoint_id. give response) (checkpoint-world task_id "respond" status _ h)
            (λ e. tt) λ a m' h'. (h', no_success)

      hold_for_approval-Keeps :
          (spec : ToolSpec) (decision : PolicyDecision) (tool_name k : String) (m : Machine W)
          → m.stores.world ≡ w
          → Keeps Declines (hold_for_approval env task_id query spec decision tool_name k m)
      unfolding mark_interrupt audit_interrupt merge put get
      hold_for_approval-Keeps spec decision tool_name k m h =
          and_then-Keeps Declines (request_approval env task_id query _ m) _
            (request_approval-world _ m h) (λ e. tt) λ a m' h'. (h', refl)

      hold-Keeps :
          (spec : ToolSpec) (decision : PolicyDecision) (tool_name : String) (m : Machine W)
          → m.stores.world ≡ w
          → Keeps Declines (hold env task_id query spec decision tool_name m)
      unfolding hold merge put get
      hold-Keeps spec decision tool_name m h =
          and_then-Keeps Declines (checkpoint env task_id "execute" _ _) _
            (checkpoint-world task_id "execute" _ _ h) (λ e. tt)
            λ k m' h'.
              if_both (λ (run : Run W Fields). Keeps Declines (run m')) env.has_approval_store
                (hold_for_approval-Keeps spec decision tool_name k m' h') (h', refl)

      report_error-Keeps :
          (e : String) (m : Machine W)
          → m.stores.world ≡ w
          → Keeps Declines (report_error env task_id query e m)
      unfolding report_error get
      report_error-Keeps e m h =
          and_then-Keeps Declines (checkpoint env task_id _ failed _)
            (λ k. give (error_response env task_id query e)) (checkpoint-world task_id _ failed _ h)
            (λ e. tt) λ k m' h'. (h', refl)

      recover-Keeps :
          (r : Attempt Fields × Machine W)
          → Keeps Declines r
          → Keeps Declines (recover r (report_error env task_id query))
      recover-Keeps (done d, m) h = h
      recover-Keeps (failed_with e, m) h = report_error-Keeps e m h.0

      -- the stages before the tool, whatever the rest of the run does
      run_stages-Keeps :
          (m : Machine W)
          → m.stores.world ≡ w
          → let p = plan env.switches env.rules query in
            ((m' : Machine W)
              → m'.stores.world ≡ w
              → Keeps Declines (run_plan env task_id query p.tool_name p.matched m'))
            → Keeps Declines (run_stages env task_id query m)
      unfolding run_stages
      run_stages-Keeps m h rest =
          and_then-Keeps Declines (checkpoint env task_id "assemble_context" running _) _
            (checkpoint-world task_id "assemble_context" running _ h) (λ e. tt)
            λ k₁ m₁ h₁.
              and_then-Keeps Declines (checkpoint env task_id "plan" running _) _
                (checkpoint-world task_id "plan" running _ h₁) (λ e. tt) λ k₂ m₂ h₂. rest _ h₂

      needs_person_high :
          (s : ToolSpec) (d : PolicyDecision)
          → s.risk_level ≡ high
          → needs_person env task_id query s d ≡ true
      needs_person_high s d risky = rw risky refl

      run_tool-Keeps :
          (o : Option ToolSpec) (t : String) {spec : ToolSpec} (m : Machine W)
          → o ≡ some spec
          → spec.risk_level ≡ high
          → m.stores.world ≡ w
          → Keeps Declines (run_tool env task_id query o t m)
      run_tool-Keeps none t m found risky h = cc
      run_tool-Keeps (some s) t m found risky h =
          let d = decision_on env task_id query s t in
          if_split (λ (run : Run W Fields). Keeps Declines (run m))
            (needs_person env task_id query s d) (λ yes'. hold-Keeps s d t m h)
            λ no'. cc (needs_person_high s d (cc), no')

      run_plan-Keeps :
          {spec : ToolSpec} (o : Option String) (t : String) (matched : Bool) (m : Machine W)
          → o ≡ some t
          → get_tool t env.gateway ≡ some spec
          → spec.risk_level ≡ high
          → m.stores.world ≡ w
          → Keeps Declines (run_plan env task_id query o matched m)
      unfolding get
      run_plan-Keeps {spec} none t matched m o_eq found risky h = cc
      run_plan-Keeps {spec} (some t') t matched m o_eq found risky h =
          if_both (λ (run : Run W Fields). Keeps Declines (run m)) (not matched || t' == "")
            (respond-Keeps _ completed m refl h)
            (run_tool-Keeps (get_tool t' env.gateway) t' {spec = spec} m (cc) risky h)

-- A keyword run whose plan names a registered tool of high risk does not call it: however the run
-- ends, the world outside is as it was, and an answer, if there is one, does not report success.
pub run_keyword-high_risk :
    {W : Type 0} (env : Adapter W) (task_id query t : String) (spec : ToolSpec) (stores : State W)
    (draws : ℕ)
    → (plan env.switches env.rules query).tool_name ≡ some t
    → get_tool t env.gateway ≡ some spec
    → spec.risk_level ≡ high
    → let (answer, m) = run_keyword env task_id query stores draws in
      (m.stores.world ≡ stores.world) × Declines answer
unfolding run_keyword
run_keyword-high_risk env task_id query t spec stores draws planned found risky =
    recover-Keeps stores.world env task_id query (run_stages env task_id query _) (
      run_stages-Keeps stores.world env task_id query _ refl
        λ m h. run_plan-Keeps stores.world env task_id query _ t _ m planned found risky h)
