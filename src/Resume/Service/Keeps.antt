-- ===== src/Resume/Service/Keeps.antt =====
-- The steps after the approved one keep every approval request that is stored
-- (app/services/approval_resume.py).
use project_b_multi_agent.ApprovalStore.{
  Approval, Approvals, Request, approval_key, create_approval, get_approval, insert_row,
  new_approval,
}
use project_b_multi_agent.Gateway.{ToolCallRecord, ToolSpec, get_tool}
use project_b_multi_agent.Gateway.Call.{call}
use project_b_multi_agent.Json.{Fields, Items, as_fields, as_items, cons, end, get, get_fields, nil}
use project_b_multi_agent.Policy.{PolicyDecision}
use project_b_multi_agent.Prelude.{
  List, Option, String, [], arith, eq_iff, if_both, mem_text, none, not, refl, some, ℕ, ◌∷◌, ◌≡◌,
}
use project_b_multi_agent.Prelude.Table.{select-append}
use project_b_multi_agent.Resolve.{
  Resolved, resolve_fields, resolve_variable_or_fail, resolved, unresolved,
}
use project_b_multi_agent.Resume.{State}
use project_b_multi_agent.Resume.Multitool.{
  after_steps, approved_step, rebuild_saved, resume_keyword, resume_multitool, step_called,
  step_resolved,
}
use project_b_multi_agent.Resume.Steps.{
  Answer, Env, Next, after_call, created, decision_on, execute_subsequent_steps, request_of,
  run_resolved, step_body, steps_loop, under_policy, with_deps, with_spec,
}
use project_b_multi_agent.Resume.Steps.Report.{Step, missing_deps, step_of}

insert_row-get :
    (fresh j : String) (q r : Approval) (rows : Approvals) (found : Option Approval)
    {rows' : Approvals}
    → get_approval fresh rows ≡ found
    → q.approval_id ≡ fresh
    → insert_row found q rows ≡ some rows'
    → get_approval j rows ≡ some r
    → get_approval j rows' ≡ some r
unfolding get_approval
insert_row-get fresh j q r rows none e k made h =
    ground (arith, select-append approval_key j rows q, eq_iff fresh j)
insert_row-get fresh j q r rows (some old) e k made h = cc

create_approval-get :
    (fresh j : String) (now : ℕ) (q : Request) (rows : Approvals) {rows' : Approvals} {r : Approval}
    → create_approval fresh now q rows ≡ some rows'
    → get_approval j rows ≡ some r
    → get_approval j rows' ≡ some r
unfolding create_approval
create_approval-get fresh j now q rows {r = r} made h =
    insert_row-get fresh j (new_approval fresh now q) r rows (get_approval fresh rows) refl refl
      made h

module _ {W : Type 0} (j : String) (r : Approval) where
  -- the store holds the request `r` under the id `j`
  abbrev pub Holds : State W → Type 0
  Holds s = get_approval j s.approvals ≡ some r

  -- what the rest of the loop does with it
  abbrev HoldsAfter : Next W → Type 0
  HoldsAfter next =
      (done_ids : List String) (saved : Fields) (calls : Items) (s : State W)
      → Holds s
      → Holds (next done_ids saved calls s).0

module _ {W : Type 0} (env : Env W) (task_id : String) (steps : Items) (j : String) (r : Approval)
    (next : Next W) (later_holds : HoldsAfter j r next) where
  after_call-Holds :
      (st : Step) (answer : ToolCallRecord × W) (done_ids : List String) (saved : Fields)
      (calls : Items) (s : State W)
      → Holds j r s
      → Holds j r (after_call env task_id steps st answer next done_ids saved calls s).0
  after_call-Holds st (call_record, w) done_ids saved calls s h =
      if_both {A = Answer W} (λ o. Holds j r o.0) call_record.success (later_holds _ _ _ _ h) h

  run_resolved-Holds :
      (st : Step) (args : Resolved Fields) (done_ids : List String) (saved : Fields) (calls : Items)
      (s : State W)
      → Holds j r s
      → Holds j r (run_resolved env task_id steps st args next done_ids saved calls s).0
  run_resolved-Holds st (unresolved path) done_ids saved calls s h = h
  run_resolved-Holds st (resolved arguments) done_ids saved calls s h =
      after_call-Holds st (call env.gateway st.tool_name arguments "" s.world) done_ids saved calls
        s h

  created-Holds :
      (made : Option Approvals) (calls : Items) (s : State W)
      → ((rows : Approvals) → made ≡ some rows → get_approval j rows ≡ some r)
      → Holds j r s
      → Holds j r (created env task_id steps made calls s).0
  created-Holds none calls s kept h = h
  created-Holds (some rows) calls s kept h = kept rows refl

  under_policy-Holds :
      (st : Step) (spec : ToolSpec) (decision : Option PolicyDecision) (done_ids : List String)
      (saved : Fields) (calls : Items) (s : State W)
      → Holds j r s
      → Holds j r (under_policy env task_id steps st spec decision next done_ids saved calls s).0
  under_policy-Holds st spec none done_ids saved calls s h =
      run_resolved-Holds st (resolve_fields (resolve_variable_or_fail saved) st.arguments) done_ids
        saved calls s h
  under_policy-Holds st spec (some d) done_ids saved calls s h =
      if_both {A = Answer W} (λ o. Holds j r o.0) d.allowed
        (run_resolved-Holds st (resolve_fields (resolve_variable_or_fail saved) st.arguments)
          done_ids saved calls s h)
        (if_both {A = Answer W} (λ o. Holds j r o.0) d.requires_approval
          (created-Holds
            (create_approval env.fresh env.now
              (request_of env task_id steps st spec d done_ids calls) s.approvals)
            calls s (λ rows made. create_approval-get env.fresh j env.now _ s.approvals made h) h)
          h)

  with_spec-Holds :
      (st : Step) (found : Option ToolSpec) (done_ids : List String) (saved : Fields)
      (calls : Items) (s : State W)
      → Holds j r s
      → Holds j r (with_spec env task_id steps st found next done_ids saved calls s).0
  with_spec-Holds st none done_ids saved calls s h = h
  with_spec-Holds st (some spec) done_ids saved calls s h =
      under_policy-Holds st spec (decision_on env.policy spec st.tool_name) done_ids saved calls s h

  with_deps-Holds :
      (st : Step) (missing : List String) (done_ids : List String) (saved : Fields) (calls : Items)
      (s : State W)
      → Holds j r s
      → Holds j r (with_deps env task_id steps st missing next done_ids saved calls s).0
  with_deps-Holds st [] done_ids saved calls s h =
      with_spec-Holds st (get_tool st.tool_name env.gateway) done_ids saved calls s h
  with_deps-Holds st (m ∷ ms) done_ids saved calls s h = h

  step_body-Holds :
      (st : Step) (done_ids : List String) (saved : Fields) (calls : Items) (s : State W)
      → Holds j r s
      → Holds j r (step_body env task_id steps st next done_ids saved calls s).0
  step_body-Holds st done_ids saved calls s h =
      if_both {A = Answer W} (λ o. Holds j r o.0) (mem_text st.step_id done_ids)
        (later_holds _ _ _ _ h)
        (with_deps-Holds st (missing_deps st.depends_on done_ids) done_ids saved calls s h)

module _ {W : Type 0} (env : Env W) (task_id : String) (steps : Items) (j : String)
    (r : Approval) where
  steps_loop-Holds : (xs : Items) → HoldsAfter j r (steps_loop env task_id steps xs)
  unfolding steps_loop
  steps_loop-Holds nil done_ids saved calls s h = h
  steps_loop-Holds (cons v rest) done_ids saved calls s h =
      step_body-Holds env task_id steps j r (steps_loop env task_id steps rest)
        (steps_loop-Holds rest) (step_of (as_fields (some v))) done_ids saved calls s h

  -- No step after the approved one removes or changes a stored request.
  pub execute_subsequent_steps-Holds : HoldsAfter j r (execute_subsequent_steps env task_id steps)
  unfolding execute_subsequent_steps
  execute_subsequent_steps-Holds = steps_loop-Holds steps

module _ {W : Type 0} (env : Env W) (now : ℕ) (j : String) (r : Approval) where
  after_steps-Holds :
      (a t k : String) (answer : Answer W)
      → Holds j r answer.0
      → Holds j r (after_steps env now a t k answer).0
  after_steps-Holds a t k (s, none) h = h
  after_steps-Holds a t k (s, some sub) h =
      if_both {A = State W × Option Fields} (λ o. Holds j r o.0) sub.waiting_approval h h

  step_called-Holds :
      (a t : String) (payload : Fields) (st : Step) (saved : Fields) (answer : ToolCallRecord × W)
      (s : State W)
      → Holds j r s
      → Holds j r (step_called env now a t payload st saved answer s).0
  step_called-Holds a t payload st saved (call_record, w) s h =
      if_both {A = State W × Option Fields} (λ o. Holds j r o.0) (not call_record.success) h
        (after_steps-Holds a t st.step_id _
          (execute_subsequent_steps-Holds env t _ j r _ _ _ (record s { world = w }) h))

  step_resolved-Holds :
      (a t : String) (payload : Fields) (st : Step) (saved : Fields) (args : Resolved Fields)
      (s : State W)
      → Holds j r s
      → Holds j r (step_resolved env now a t payload st saved args s).0
  step_resolved-Holds a t payload st saved (unresolved path) s h = h
  step_resolved-Holds a t payload st saved (resolved arguments) s h =
      step_called-Holds a t payload st saved (call env.gateway st.tool_name arguments "" s.world) s
        h

  -- A resumed plan keeps every request that was stored before it.
  pub resume_multitool-Holds :
      (a t : String) (payload : Fields) (s : State W)
      → Holds j r s
      → Holds j r (resume_multitool env now a t payload s).0
  unfolding resume_multitool
  resume_multitool-Holds a t payload s h =
      let saved = rebuild_saved (as_items (get "tool_calls" payload)) end in
      step_resolved-Holds a t payload (approved_step payload) saved
        (resolve_fields (resolve_variable_or_fail saved) (get_fields "arguments" payload)) s h

  pub resume_keyword-Holds :
      (a t : String) (payload : Fields) (s : State W)
      → Holds j r s
      → Holds j r (resume_keyword env now a t payload s).0
  unfolding resume_keyword
  resume_keyword-Holds a t payload s h = h
