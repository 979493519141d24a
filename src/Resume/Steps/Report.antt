-- ===== src/Resume/Steps/Report.antt =====
-- A step of the plan as the resume reads it, and what the later steps report
-- (app/services/approval_resume.py).
use project_b_multi_agent.Gateway.{ToolCallRecord}
use project_b_multi_agent.Json.{
  Fields, Items, Value, arr, as_items, as_text, cons, dict, end, field, flag, get, get_fields,
  get_text, nil, obj, put, text, truthy,
}
use project_b_multi_agent.Prelude.{
  Bool, List, Option, String, [], false, if◌then◌else◌, mem_text, none, some, true, ◌==◌, ◌∷◌,
}
use project_b_multi_agent.Resume.{or_null}

pub record Step : Type 0 where
  pub step_id : String
  pub tool_name : String
  pub arguments : Fields
  pub depends_on : List String
  pub save_as : Value

-- the texts of a list
abbrev pub texts_of : Items → List String
texts_of nil = []
texts_of (cons v xs) = as_text (some v) ∷ texts_of xs

abbrev pub items_of : List String → Items
items_of [] = nil
items_of (s ∷ ss) = cons (text s) (items_of ss)

-- the reads of a step's dict at the head of the loop
abbrev pub step_of : Fields → Step
step_of d = record {
  step_id = get_text "step_id" d;
  tool_name = get_text "tool_name" d;
  arguments = get_fields "arguments" d;
  depends_on = texts_of (as_items (get "depends_on" d));
  save_as = or_null (get "save_as" d);
}

-- the name under which a result is saved: a text that is not empty
abbrev pub saved_name : Value → Option String
saved_name (text s) = if s == "" then none else some s
saved_name _ = none

abbrev pub save : Option String → Value → Fields → Fields
save none v saved = saved
save (some name) v saved = put name v saved

abbrev pub snoc : Items → Value → Items
snoc nil v = cons v nil
snoc (cons x xs) v = cons x (snoc xs v)

-- `[d for d in depends_on if d not in completed_step_ids]`
unfoldable pub missing_deps : List String → List String → List String
missing_deps [] done_ids = []
missing_deps (d ∷ ds) done_ids =
    let rest = missing_deps ds done_ids in if mem_text d done_ids then rest else d ∷ rest

-- the entry that a call adds to `tool_calls`
abbrev pub call_data : Step → ToolCallRecord → Value
call_data st r = obj (
    field "step_id" (text st.step_id) (
      field "tool_name" (text st.tool_name) (
        field "success" (flag r.success) (
          field "result" r.result (
            field "save_as" st.save_as
              (if truthy r.error then field "error" r.error end else end))))))

-- the dict that the loop returns
pub record Subsequent : Type 0 where
  pub success : Bool
  pub waiting_approval : Bool
  pub new_approval_id : Option String
  pub error : Option String
  pub error_type : Option String
  pub missing_depends_on : List String
  pub dependency_error : Bool
  pub tool_calls : Items

abbrev pub all_done : Items → Subsequent
all_done calls = record {
  success = true;
  waiting_approval = false;
  new_approval_id = none;
  error = none;
  error_type = none;
  missing_depends_on = [];
  dependency_error = false;
  tool_calls = calls;
}

abbrev pub stopped : String → Option String → Items → Subsequent
stopped error error_type calls = record (all_done calls) {
  success = false;
  error = some error;
  error_type = error_type;
}

abbrev pub waits_for : String → Items → Subsequent
waits_for new_id calls = record (all_done calls) {
  success = false;
  waiting_approval = true;
  new_approval_id = some new_id;
}

-- the payload of an approval for a later step
abbrev pub step_payload : Items → Step → List String → Items → Fields
step_payload steps st done_ids calls = dict (
    ("mode", text "multitool")
    ∷ ("query", text "")
    ∷ ("step_id", text st.step_id)
    ∷ ("tool_name", text st.tool_name)
    ∷ ("arguments", obj st.arguments)
    ∷ ("plan", obj (dict (("steps", arr steps) ∷ [])))
    ∷ ("completed_step_ids", arr (items_of done_ids))
    ∷ ("tool_calls", arr calls)
    ∷ [])
