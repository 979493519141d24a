-- ===== src/Pipeline/Runs.antt =====
-- What a run of a plan reports (app/services/multitool_pipeline.py).
use project_b_multi_agent.CheckpointStore.{later}
use project_b_multi_agent.Gateway.{ToolCallRecord, get_tool}
use project_b_multi_agent.Json.{
  Fields, Items, Value, as_fields, cons, end, get, get_text, is_set, nil,
}
use project_b_multi_agent.Pipeline.{Next, Outcome, run, run_plan, run_steps, with_deps}
use project_b_multi_agent.Pipeline.Report.{Run, made_call, unmatched}
use project_b_multi_agent.Pipeline.Stops.{with_spec-holds}
use project_b_multi_agent.Planner.{Plan, PlanStep, any_keyword, first_rule, plan, rules}
use project_b_multi_agent.Prelude.{
  Bool, List, Option, String, [], ap, arith, both_true, eq_refl, false, if_both, none, not, refl,
  some, sym, true, ◌&&◌, ◌==◌, ◌∙◌, ◌∷◌, ◌≡◌,
}
use project_b_multi_agent.Resume.{State}
use project_b_multi_agent.Resume.Multitool.{add_id}
use project_b_multi_agent.Resume.Steps.{Env}
use project_b_multi_agent.Resume.Steps.Report.{missing_deps, snoc}

abbrev is_empty : List String → Bool
is_empty [] = true
is_empty (m ∷ ms) = false

none-missing : (ms : List String) → is_empty ms ≡ true → ms ≡ []
none-missing [] h = refl
none-missing (m ∷ ms) h = cc

-- each step, in its place, finds its dependencies among the steps before it
abbrev pub is_ordered : List String → List PlanStep → Bool
is_ordered done_ids [] = true
is_ordered done_ids (st ∷ sts) =
    is_empty (missing_deps st.depends_on done_ids) && is_ordered (add_id st.step_id done_ids) sts

-- one successful call for each step, in the order of the steps
abbrev pub calls_match : List PlanStep → Items → Bool
calls_match [] nil = true
calls_match [] (cons v vs) = false
calls_match (st ∷ sts) nil = false
calls_match (st ∷ sts) (cons v vs) =
    let d = as_fields (some v) in
    is_set "success" d && get_text "step_id" d == st.step_id && calls_match sts vs

abbrev append : Items → Items → Items
append nil ys = ys
append (cons x xs) ys = cons x (append xs ys)

append-snoc : (xs : Items) (v : Value) (ys : Items) → append (snoc xs v) ys ≡ append xs (cons v ys)
append-snoc nil v ys = refl
append-snoc (cons x xs) v ys = ap (cons x) (append-snoc xs v ys)

append-nil : (xs : Items) → append xs nil ≡ xs
append-nil nil = refl
append-nil (cons x xs) = ap (cons x) (append-nil xs)

module _ {W : Type 0} where
  abbrev NoneMissing : Outcome W → Type 0
  NoneMissing o = (r : Run) → o.1 ≡ some r → r.missing_depends_on ≡ []

  -- the calls of a success are the old ones and one for each step
  abbrev Matches : List PlanStep → Items → Outcome W → Type 0
  Matches sts calls o =
      (r : Run)
      → o.1 ≡ some r
      → r.success ≡ true
      → (new : Items) × (r.tool_calls ≡ append calls new) × (calls_match sts new ≡ true)

module _ {W : Type 0} where
  stopped-NoneMissing :
      (s : State W) (x : Run) → x.missing_depends_on ≡ [] → NoneMissing (s, some x)
  stopped-NoneMissing s x m r e = cc

  raised-NoneMissing : (s : State W) → NoneMissing (s, none)
  raised-NoneMissing s r e = cc

  stopped-Matches :
      (sts : List PlanStep) (calls : Items) (s : State W) (x : Run)
      → x.success ≡ false
      → Matches sts calls (s, some x)
  stopped-Matches sts calls s x n r e c = cc

  raised-Matches : (sts : List PlanStep) (calls : Items) (s : State W) → Matches sts calls (s, none)
  raised-Matches sts calls s r e c = cc

  finished-Matches :
      (calls : Items) (s : State W) (x : Run) → x.tool_calls ≡ calls → Matches [] calls (s, some x)
  finished-Matches calls s x t r e c = (nil, sym (cut r e) ∙ t ∙ sym (append-nil calls), refl)
    where
      calls_of : Option Run → Items
      calls_of none = nil
      calls_of (some y) = y.tool_calls

      cut : (r : Run) → some x ≡ some r → x.tool_calls ≡ r.tool_calls
      cut r e = ap calls_of e

  called-Matches :
      (st : PlanStep) (sts : List PlanStep) (calls : Items) (r : ToolCallRecord) (o : Outcome W)
      → r.success ≡ true
      → Matches sts (snoc calls (made_call st r)) o
      → Matches (st ∷ sts) calls o
  unfolding get
  called-Matches st sts calls r o ok rest x e c =
      let (new, same, all) = rest x e c in
      (
        cons (made_call st r) new,
        same ∙ append-snoc calls (made_call st r) new,
        ground (arith, ok, all, eq_refl st.step_id),
      )

module _ {W : Type 0} (env : Env W) (has_store : Bool) (query task_id : String) (p : Plan) where
  with_deps-NoneMissing :
      (st : PlanStep) (next : Next W) (missing done_ids : List String) (saved : Fields)
      (calls : Items) (s : State W)
      → missing ≡ []
      → ((saved : Fields) (calls : Items) (s : State W)
          → NoneMissing (next (add_id st.step_id done_ids) saved calls s))
      → NoneMissing (with_deps env has_store query task_id p st missing next done_ids saved calls s)
  with_deps-NoneMissing st next [] done_ids saved calls s m rest =
      with_spec-holds env has_store query task_id p NoneMissing (λ s x n. stopped-NoneMissing s x)
        raised-NoneMissing st next done_ids calls
        (λ r saved s ok. rest saved (snoc calls (made_call st r)) s)
        (get_tool st.tool_name env.gateway) saved s
  with_deps-NoneMissing st next (m ∷ ms) done_ids saved calls s h rest = cc

  run_steps-NoneMissing :
      (sts : List PlanStep) (done_ids : List String) (saved : Fields) (calls : Items) (s : State W)
      → is_ordered done_ids sts ≡ true
      → NoneMissing (run_steps env has_store query task_id p sts done_ids saved calls s)
  unfolding run_steps
  run_steps-NoneMissing [] done_ids saved calls s h = stopped-NoneMissing s _ refl
  run_steps-NoneMissing (st ∷ sts) done_ids saved calls s h =
      let (first, later) = both_true _ _ h in
      with_deps-NoneMissing st (run_steps env has_store query task_id p sts)
        (missing_deps st.depends_on done_ids) done_ids saved calls s
        (none-missing (missing_deps st.depends_on done_ids) first)
        (λ saved calls s.
          run_steps-NoneMissing sts (add_id st.step_id done_ids) saved calls s later)

  with_deps-Matches :
      (st : PlanStep) (sts : List PlanStep) (next : Next W) (missing done_ids : List String)
      (saved : Fields) (calls : Items) (s : State W)
      → ((done_ids : List String) (saved : Fields) (calls : Items) (s : State W)
          → Matches sts calls (next done_ids saved calls s))
      → Matches
          (st ∷ sts)
          calls
          (with_deps env has_store query task_id p st missing next done_ids saved calls s)
  with_deps-Matches st sts next [] done_ids saved calls s rest =
      with_spec-holds env has_store query task_id p (Matches (st ∷ sts) calls)
        (λ s x n m. stopped-Matches (st ∷ sts) calls s x n) (raised-Matches (st ∷ sts) calls) st
        next done_ids calls
        (λ r saved s ok.
          called-Matches st sts calls r
            (next (add_id st.step_id done_ids) saved (snoc calls (made_call st r)) s) ok
            (rest (add_id st.step_id done_ids) saved (snoc calls (made_call st r)) s))
        (get_tool st.tool_name env.gateway) saved s
  with_deps-Matches st sts next (m ∷ ms) done_ids saved calls s rest =
      stopped-Matches (st ∷ sts) calls s _ refl

  run_steps-Matches :
      (sts : List PlanStep) (done_ids : List String) (saved : Fields) (calls : Items) (s : State W)
      → Matches sts calls (run_steps env has_store query task_id p sts done_ids saved calls s)
  unfolding run_steps
  run_steps-Matches [] done_ids saved calls s = finished-Matches calls s _ refl
  run_steps-Matches (st ∷ sts) done_ids saved calls s =
      with_deps-Matches st sts (run_steps env has_store query task_id p sts)
        (missing_deps st.depends_on done_ids) done_ids saved calls s (run_steps-Matches sts)

abbrev all_ordered : List (List String × Plan) → Bool
all_ordered [] = true
all_ordered ((kws, p) ∷ rest) = is_ordered [] p.steps && all_ordered rest

first_rule-is_ordered :
    (query : String) (rs : List (List String × Plan))
    → all_ordered rs ≡ true
    → is_ordered [] (first_rule rs query).steps ≡ true
first_rule-is_ordered query [] h = refl
first_rule-is_ordered query ((kws, p) ∷ rest) h =
    let (here, below) = both_true _ _ h in
    if_both (λ (q : Plan). is_ordered [] q.steps ≡ true) (any_keyword kws query) {yes = p}
      {no = first_rule rest query} here (first_rule-is_ordered query rest below)

plan-is_ordered : (query : String) → is_ordered [] (plan query).steps ≡ true
unfolding plan missing_deps
plan-is_ordered query = first_rule-is_ordered query rules refl

module _ {W : Type 0} (env : Env W) (has_store : Bool) where
  -- No run of the pipeline fails for a dependency: in every plan that the planner gives, each
  -- step comes after the steps that it depends on.
  run-none_missing :
      (query task_id : String) (s : State W) (r : Run)
      → (run env has_store query task_id s).1 ≡ some r
      → r.missing_depends_on ≡ []
  unfolding run run_plan
  run-none_missing query task_id s =
      if_both NoneMissing (not (plan query).matched) (stopped-NoneMissing s unmatched refl) (
        run_steps-NoneMissing env has_store query task_id (plan query) (plan query).steps [] end nil
          s (plan-is_ordered query))

  -- A run that succeeds reports one successful call for every step of the query's plan, in the
  -- order of the plan, and no other call.
  pub run-success :
      (query task_id : String) (s : State W) (r : Run)
      → (run env has_store query task_id s).1 ≡ some r
      → r.success ≡ true
      → calls_match (plan query).steps r.tool_calls ≡ true
  unfolding run run_plan
  run-success query task_id s r e c =
      let (new, same, all) =
        if_both (Matches (plan query).steps nil) (not (plan query).matched)
          (stopped-Matches (plan query).steps nil s unmatched refl)
          (run_steps-Matches env has_store query task_id (plan query) (plan query).steps [] end nil
            s)
          r e c in
      ap (calls_match (plan query).steps) same ∙ all
