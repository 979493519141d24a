-- ===== src/Resume/Steps/Complete.antt =====
-- A plan whose steps all ran is complete (app/services/approval_resume.py).
use project_b_multi_agent.ApprovalStore.{Approvals, create_approval}
use project_b_multi_agent.Gateway.{ToolCallRecord, ToolSpec, get_tool}
use project_b_multi_agent.Gateway.Call.{call}
use project_b_multi_agent.Json.{Fields, Items, Value, as_fields, cons, get, get_text, is_set, nil}
use project_b_multi_agent.Policy.{PolicyDecision}
use project_b_multi_agent.Prelude.{
  Bool, List, Option, String, [], ap, arith, eq_iff, eq_refl, false, if_both, if_split, mem_text,
  none, or_right, refl, some, sym, true, ◌&&◌, ◌==◌, ◌||◌, ◌∙◌, ◌∷◌, ◌≡◌,
}
use project_b_multi_agent.Resolve.{
  Resolved, resolve_fields, resolve_variable_or_fail, resolved, unresolved,
}
use project_b_multi_agent.Resume.{State}
use project_b_multi_agent.Resume.Steps.{
  Answer, Env, Next, after_call, created, decision_on, execute_subsequent_steps, request_of,
  run_resolved, step_body, steps_loop, under_policy, with_deps, with_spec,
}
use project_b_multi_agent.Resume.Steps.Report.{
  Step, Subsequent, all_done, call_data, missing_deps, snoc, step_of,
}

-- the calls hold a successful one of the step
abbrev pub succeeded : String → Items → Bool
succeeded i nil = false
succeeded i (cons v rest) =
    let d = as_fields (some v) in
    (is_set "success" d && (get_text "step_id" d == i)) || succeeded i rest

abbrev pub is_done : List String → Items → String → Bool
is_done done_ids calls i = mem_text i done_ids || succeeded i calls

-- every step of a plan has an id that passes the test
abbrev pub every_step : (String → Bool) → Items → Bool
every_step p nil = true
every_step p (cons v rest) = p (get_text "step_id" (as_fields (some v))) && every_step p rest

succeeded-snoc :
    (i : String) (calls : Items) (v : Value)
    → succeeded i calls ≡ true
    → succeeded i (snoc calls v) ≡ true
succeeded-snoc i nil v h = cc
succeeded-snoc i (cons w rest) v h = ground (arith, succeeded-snoc i rest v)

succeeded-snoc_new :
    (i : String) (calls : Items) (v : Value)
    → succeeded i (cons v nil) ≡ true
    → succeeded i (snoc calls v) ≡ true
succeeded-snoc_new i nil v h = h
succeeded-snoc_new i (cons w rest) v h = ground (arith, succeeded-snoc_new i rest v)

every_step_mono :
    (p q : String → Bool) (xs : Items)
    → ((i : String) → p i ≡ true → q i ≡ true)
    → every_step p xs ≡ true
    → every_step q xs ≡ true
every_step_mono p q nil f h = refl
every_step_mono p q (cons v rest) f h =
    ground (arith, every_step_mono p q rest f, f (get_text "step_id" (as_fields (some v))))

call_data-succeeded :
    (st : Step) (r : ToolCallRecord)
    → r.success ≡ true
    → succeeded st.step_id (cons (call_data st r) nil) ≡ true
unfolding get
call_data-succeeded st r h = ground (arith, eq_refl st.step_id)

is_done-cons :
    (i j : String) (done_ids : List String) (calls : Items)
    → succeeded i calls ≡ true
    → is_done (i ∷ done_ids) calls j ≡ true
    → is_done done_ids calls j ≡ true
is_done-cons i j done_ids calls c h = ground (arith, eq_iff i j)

and_true : (a b : Bool) → a ≡ true → b ≡ true → (a && b) ≡ true
and_true true b p q = q
and_true false b p q = cc

module _ {W : Type 0} where
  -- an answer of success keeps the calls that succeeded and completes the steps `xs`
  abbrev pub Completes : Items → List String → Items → Answer W → Type 0
  Completes xs done_ids calls o =
      (sub : Subsequent)
      → o.1 ≡ some sub
      → sub.success ≡ true
      → ((i : String) → succeeded i calls ≡ true → succeeded i sub.tool_calls ≡ true)
        × (every_step (is_done done_ids sub.tool_calls) xs ≡ true)

  failure :
      (xs : Items) (done_ids : List String) (calls : Items) (s : State W) (x : Subsequent)
      → x.success ≡ false
      → Completes xs done_ids calls (s, some x)
  failure xs done_ids calls s x n sub e c = cc

  no_answer :
      (xs : Items) (done_ids : List String) (calls : Items) (s : State W)
      → Completes xs done_ids calls (s, none)
  no_answer xs done_ids calls s sub e c = cc

  nothing_left :
      (done_ids : List String) (calls : Items) (s : State W)
      → Completes nil done_ids calls (s, some (all_done calls))
  nothing_left done_ids calls s sub e c =
      (λ i h. sym (ap (λ o. succeeded i (calls_of o)) e) ∙ h, refl)
    where
      calls_of : Option Subsequent → Items
      calls_of none = nil
      calls_of (some x) = x.tool_calls

module _ {W : Type 0} (env : Env W) (task_id : String) (steps : Items) (xs : Items) (v : Value)
    (next : Next W)
    (rest : (done_ids : List String) (saved : Fields) (calls : Items) (s : State W)
      → Completes xs done_ids calls (next done_ids saved calls s)) where
  abbrev head_of : Step
  head_of = step_of (as_fields (some v))

  after_call-Completes :
      (answer : ToolCallRecord × W) (done_ids : List String) (saved : Fields) (calls : Items)
      (s : State W)
      → Completes
          (cons v xs)
          done_ids
          calls
          (after_call env task_id steps head_of answer next done_ids saved calls s)
  after_call-Completes (r, w) done_ids saved calls s =
      if_split (Completes (cons v xs) done_ids calls) r.success
        (λ ok sub e c.
          let (grows, all) =
            rest (head_of.step_id ∷ done_ids) _ _ (record s { world = w }) sub e c in
          let new = grows head_of.step_id (
            succeeded-snoc_new head_of.step_id calls (call_data head_of r)
              (call_data-succeeded head_of r ok)) in
          (
            λ i h. grows i (succeeded-snoc i calls (call_data head_of r) h),
            and_true _ _ (or_right _ _ new) (
                every_step_mono _ _ xs
                  (λ j. is_done-cons head_of.step_id j done_ids sub.tool_calls new) all),
          ))
        (λ no. failure (cons v xs) done_ids calls (record s { world = w }) _ refl)

  run_resolved-Completes :
      (args : Resolved Fields) (done_ids : List String) (saved : Fields) (calls : Items)
      (s : State W)
      → Completes
          (cons v xs)
          done_ids
          calls
          (run_resolved env task_id steps head_of args next done_ids saved calls s)
  run_resolved-Completes (unresolved path) done_ids saved calls s =
      failure (cons v xs) done_ids calls s _ refl
  run_resolved-Completes (resolved arguments) done_ids saved calls s =
      after_call-Completes (call env.gateway head_of.tool_name arguments "" s.world) done_ids saved
        calls s

  created-Completes :
      (made : Option Approvals) (done_ids : List String) (calls : Items) (s : State W)
      → Completes (cons v xs) done_ids calls (created env task_id steps made calls s)
  created-Completes none done_ids calls s = no_answer (cons v xs) done_ids calls s
  created-Completes (some rows) done_ids calls s =
      failure (cons v xs) done_ids calls (record s { approvals = rows }) _ refl

  under_policy-Completes :
      (spec : ToolSpec) (decision : Option PolicyDecision) (done_ids : List String) (saved : Fields)
      (calls : Items) (s : State W)
      → Completes
          (cons v xs)
          done_ids
          calls
          (under_policy env task_id steps head_of spec decision next done_ids saved calls s)
  under_policy-Completes spec none done_ids saved calls s =
      run_resolved-Completes (resolve_fields (resolve_variable_or_fail saved) head_of.arguments)
        done_ids saved calls s
  under_policy-Completes spec (some d) done_ids saved calls s =
      if_both (Completes (cons v xs) done_ids calls) d.allowed
        (run_resolved-Completes (resolve_fields (resolve_variable_or_fail saved) head_of.arguments)
          done_ids saved calls s)
        (if_both (Completes (cons v xs) done_ids calls) d.requires_approval
          (created-Completes
            (create_approval env.fresh env.now
              (request_of env task_id steps head_of spec d done_ids calls) s.approvals)
            done_ids calls s)
          (failure (cons v xs) done_ids calls s _ refl))

  with_spec-Completes :
      (found : Option ToolSpec) (done_ids : List String) (saved : Fields) (calls : Items)
      (s : State W)
      → Completes
          (cons v xs)
          done_ids
          calls
          (with_spec env task_id steps head_of found next done_ids saved calls s)
  with_spec-Completes none done_ids saved calls s = failure (cons v xs) done_ids calls s _ refl
  with_spec-Completes (some spec) done_ids saved calls s =
      under_policy-Completes spec (decision_on env.policy spec head_of.tool_name) done_ids saved
        calls s

  with_deps-Completes :
      (missing : List String) (done_ids : List String) (saved : Fields) (calls : Items)
      (s : State W)
      → Completes
          (cons v xs)
          done_ids
          calls
          (with_deps env task_id steps head_of missing next done_ids saved calls s)
  with_deps-Completes [] done_ids saved calls s =
      with_spec-Completes (get_tool head_of.tool_name env.gateway) done_ids saved calls s
  with_deps-Completes (m ∷ ms) done_ids saved calls s = failure (cons v xs) done_ids calls s _ refl

  step_body-Completes :
      (done_ids : List String) (saved : Fields) (calls : Items) (s : State W)
      → Completes
          (cons v xs)
          done_ids
          calls
          (step_body env task_id steps head_of next done_ids saved calls s)
  step_body-Completes done_ids saved calls s =
      if_split (Completes (cons v xs) done_ids calls) (mem_text head_of.step_id done_ids)
        (λ known sub e c.
          let (grows, all) = rest done_ids saved calls s sub e c in
          (grows, and_true _ _ (ap (λ b. b || succeeded head_of.step_id sub.tool_calls) known) all))
        (λ new.
          with_deps-Completes (missing_deps head_of.depends_on done_ids) done_ids saved calls s)

module _ {W : Type 0} (env : Env W) (task_id : String) (steps : Items) where
  steps_loop-Completes :
      (xs : Items) (done_ids : List String) (saved : Fields) (calls : Items) (s : State W)
      → Completes xs done_ids calls (steps_loop env task_id steps xs done_ids saved calls s)
  unfolding steps_loop
  steps_loop-Completes nil done_ids saved calls s = nothing_left done_ids calls s
  steps_loop-Completes (cons v rest) done_ids saved calls s =
      step_body-Completes env task_id steps rest v (steps_loop env task_id steps rest)
        (steps_loop-Completes rest) done_ids saved calls s

  -- When the steps after the approved one end in success, every step of the plan was completed
  -- before them or has a successful call among the reported calls; no successful call that
  -- was there before is lost.
  pub execute_subsequent_steps-Completes :
      (done_ids : List String) (saved : Fields) (calls : Items) (s : State W) (sub : Subsequent)
      → (execute_subsequent_steps env task_id steps done_ids saved calls s).1 ≡ some sub
      → sub.success ≡ true
      → ((i : String) → succeeded i calls ≡ true → succeeded i sub.tool_calls ≡ true)
        × (every_step (is_done done_ids sub.tool_calls) steps ≡ true)
  unfolding execute_subsequent_steps
  execute_subsequent_steps-Completes = steps_loop-Completes steps
