-- ===== src/Resume/Multitool.antt =====
-- `_rebuild_saved`, `_find_save_as`, `_resume_keyword` and `_resume_multitool` of
-- app/services/approval_resume.py: the approved step is called, then the steps after it.
--
-- `gateway.call` never raises, so the handlers around it are left out.
use project_b_multi_agent.Gateway.{ToolCallRecord}
use project_b_multi_agent.Gateway.Call.{call}
use project_b_multi_agent.Json.{
  Fields, Items, Value, arr, as_fields, as_items, cons, dict, end, field, flag, get, get_fields,
  get_text, is_set, maybe_text, nil, null, obj, or_null, put, text, truthy,
}
use project_b_multi_agent.Policy.{text_is}
use project_b_multi_agent.Prelude.{
  Bool, List, Option, String, [], false, if◌then◌else◌, mem_text, none, not, some, true, ℕ, ◌&&◌,
  ◌==◌, ◌∷◌,
}
use project_b_multi_agent.Resolve.{
  Resolved, record_value, resolve_fields, resolve_variable_or_fail, resolved, unresolved,
}
use project_b_multi_agent.Resume.{State, add_audit, or_text}
use project_b_multi_agent.Resume.Graph.{finished_text, outcome_text}
use project_b_multi_agent.Resume.Steps.{Answer, Env, execute_subsequent_steps}
use project_b_multi_agent.Resume.Steps.Report.{
  Step, Subsequent, call_data, items_of, save, saved_name, snoc, texts_of,
}
use project_b_multi_agent.TaskStore.{update_task_status}

-- `d.get(k) is not None`
abbrev pub is_given : Option Value → Bool
is_given none = false
is_given (some null) = false
is_given (some _) = true

-- `_rebuild_saved`
unfoldable pub rebuild_saved : Items → Fields → Fields
rebuild_saved nil saved = saved
rebuild_saved (cons v rest) saved =
    let tc = as_fields (some v) in
    let key = or_text (get_text "save_as" tc) (get_text "step_id" tc) in
    let saved' =
      if not (key == "") && is_set "success" tc && is_given (get "result" tc)
      then put key (obj tc) saved
      else saved in
    rebuild_saved rest saved'

-- `_find_save_as`
unfoldable pub find_save_as : Items → String → Value
find_save_as nil step_id = null
find_save_as (cons v rest) step_id =
    let found = find_save_as rest step_id in
    if text_is step_id (get "step_id" (as_fields (some v)))
    then or_null (get "save_as" (as_fields (some v)))
    else found

-- `completed_step_ids.add`
abbrev pub add_id : String → List String → List String
add_id x xs = if mem_text x xs then xs else x ∷ xs

abbrev pub resumed_step : String → String → Fields → Fields
resumed_step approval_id step_id rest = field "mode" (text "multitool") (
    field "resumed_from_approval" (flag true)
      (field "approval_id" (text approval_id) (field "resumed_step_id" (text step_id) rest)))

abbrev pub error_entry : Value → Fields
error_entry error = if truthy error then field "error" error end else end

-- the result where the approved step itself failed; it is not consumed
abbrev pub step_failed : Value → Items → Fields
step_failed error calls = dict (
    ("success", flag false)
    ∷ ("error", error)
    ∷ ("tool_calls", arr calls)
    ∷ ("approved_step_executed", flag true)
    ∷ ("approval_consumed", flag false)
    ∷ [])

abbrev pub unresolved_args : String → Fields
unresolved_args path = dict (
    ("success", flag false)
    ∷ ("error_type", text "resume_variable_resolution_failed")
    ∷ ("error_path", text path)
    ∷ ("approved_step_executed", flag false)
    ∷ ("approval_consumed", flag false)
    ∷ [])

abbrev pub waits : Subsequent → Fields
waits sub = dict (
    ("success", flag false)
    ∷ ("waiting_approval", flag true)
    ∷ ("new_approval_id", maybe_text sub.new_approval_id)
    ∷ ("tool_calls", arr sub.tool_calls)
    ∷ ("approved_step_executed", flag true)
    ∷ ("approval_consumed", flag true)
    ∷ ("resume_status", text "waiting_approval")
    ∷ [])

abbrev pub text_entry : String → Option String → Fields → Fields
text_entry key none rest = rest
text_entry key (some s) rest = if s == "" then rest else field key (text s) rest

abbrev pub missing_entry : List String → Fields
missing_entry [] = end
missing_entry (m ∷ ms) = field "missing_depends_on" (arr (items_of (m ∷ ms))) end

abbrev pub ended_text : Subsequent → String
ended_text sub =
    if sub.dependency_error
    then "downstream_failed"
    else if not sub.success
    then "downstream_failed"
    else "completed"

abbrev pub task_text : Subsequent → String
task_text sub =
    if sub.dependency_error then "failed" else if not sub.success then "failed" else "completed"

abbrev pub ended : Subsequent → Fields
ended sub = field "success" (flag sub.success) (
    field "tool_calls" (arr sub.tool_calls) (
      field "approved_step_executed" (flag true) (
        field "approval_consumed" (flag true) (
          field "resume_status" (text (ended_text sub)) (
            text_entry "error" (if sub.success then none else sub.error)
              (text_entry "error_type" sub.error_type (missing_entry sub.missing_depends_on)))))))

abbrev pub keyword_result : String → String → ToolCallRecord → Fields
keyword_result approval_id tool_name r = field "resumed_from_approval" (flag true) (
    field "approval_id" (text approval_id) (
      field "tool_called" (text tool_name) (
        field "data" r.result (
          field "success" (flag r.success) (
            field "approved_step_executed" (flag true)
              (field "approval_consumed" (flag r.success) (error_entry r.error)))))))

-- the approved step, from the payload
abbrev pub approved_step : Fields → Step
approved_step payload = record {
  step_id = get_text "step_id" payload;
  tool_name = get_text "tool_name" payload;
  arguments = get_fields "arguments" payload;
  depends_on = [];
  save_as =
      find_save_as (as_items (get "steps" (get_fields "plan" payload)))
        (get_text "step_id" payload);
}

module _ {W : Type 0} where
  abbrev pub write_task : String → String → Fields → ℕ → State W → State W
  write_task task_id status result now s = record s {
    tasks = (update_task_status task_id status (some result) now s.tasks).0;
  }

module _ {W : Type 0} (env : Env W) (now : ℕ) where
  abbrev pub keyword_called :
      String → String → String → ToolCallRecord × W → State W → State W × Fields
  keyword_called approval_id task_id tool_name (r, w) s =
      let result = keyword_result approval_id tool_name r in
      (
        add_audit
            (record {
              event_type = "approval_resume_completed";
              task_id = task_id;
              approval_id = approval_id;
              action = "resume_keyword";
              outcome = outcome_text r.success;
            })
            (write_task task_id (finished_text r.success) result now (record s { world = w })),
        result,
      )

  -- `_resume_keyword`
  unfoldable pub resume_keyword : String → String → Fields → State W → State W × Fields
  resume_keyword approval_id task_id payload s =
      let tool_name = get_text "tool_name" payload in
      keyword_called approval_id task_id tool_name
        (call env.gateway tool_name (get_fields "arguments" payload) "" s.world) s

  -- after the steps that follow; `none` is the exception of an INSERT with a taken id
  abbrev pub after_steps : String → String → String → Answer W → State W × Option Fields
  after_steps approval_id task_id step_id (s, none) = (s, none)
  after_steps approval_id task_id step_id (s, some sub) =
      let waiting = resumed_step approval_id step_id (waits sub) in
      let final = resumed_step approval_id step_id (ended sub) in
      if sub.waiting_approval
      then (write_task task_id "waiting_approval" waiting now s, some waiting)
      else (
        add_audit
            (record {
              event_type = "approval_resume_completed";
              task_id = task_id;
              approval_id = approval_id;
              action = "resume_multitool";
              outcome = outcome_text sub.success;
            })
            (write_task task_id (task_text sub) final now s),
        some final,
      )

  abbrev pub step_called :
      String
      → String
      → Fields
      → Step
      → Fields
      → ToolCallRecord × W
      → State W
      → State W × Option Fields
  step_called approval_id task_id payload st saved (r, w) s =
      let s' = record s { world = w } in
      let calls = snoc (as_items (get "tool_calls" payload)) (call_data st r) in
      let failure = resumed_step approval_id st.step_id (step_failed r.error calls) in
      let done_ids = add_id st.step_id (texts_of (as_items (get "completed_step_ids" payload))) in
      let subsequent =
        execute_subsequent_steps env task_id (as_items (get "steps" (get_fields "plan" payload)))
          done_ids (save (saved_name st.save_as) (record_value r) saved) calls s' in
      if not r.success
      then (write_task task_id "failed" failure now s', some failure)
      else after_steps approval_id task_id st.step_id subsequent

  abbrev pub step_resolved :
      String → String → Fields → Step → Fields → Resolved Fields → State W → State W × Option Fields
  step_resolved approval_id task_id payload st saved (unresolved path) s =
      (s, some (resumed_step approval_id st.step_id (unresolved_args path)))
  step_resolved approval_id task_id payload st saved (resolved arguments) s =
      step_called approval_id task_id payload st saved
        (call env.gateway st.tool_name arguments "" s.world) s

  -- `_resume_multitool`
  unfoldable pub resume_multitool : String → String → Fields → State W → State W × Option Fields
  resume_multitool approval_id task_id payload s =
      let saved = rebuild_saved (as_items (get "tool_calls" payload)) end in
      step_resolved approval_id task_id payload (approved_step payload) saved
        (resolve_fields (resolve_variable_or_fail saved) (get_fields "arguments" payload)) s
