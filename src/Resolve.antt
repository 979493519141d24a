-- ===== src/Resolve.antt =====
-- `$name.path` placeholders in the arguments of a step: `_resolve_value` and `_resolve_variable`
-- of app/services/approval_resume.py and of app/services/multitool_pipeline.py.
--
-- What a step saved is a JSON value: a tool-call record is the dict of its fields. Methods of
-- Python objects, which `hasattr` would find too, are not among them.
pub mod Laws
use Prim.Native.Char.{code}
use project_b_multi_agent.Gateway.{ToolCallRecord}
use project_b_multi_agent.Json.{
  Fields, Items, Value, arr, cons, dict, end, field, flag, get, nil, null, num, obj, text,
}
use project_b_multi_agent.Prelude.{List, Option, String, [], eqb, if◌then◌else◌, none, some, ◌∷◌}
use project_b_multi_agent.PyText.{split}

pub data Resolved {ℓ} (A : Type ℓ) : Type ℓ where
  resolved : A → Resolved A
  unresolved : String → Resolved A

-- the attributes of a `ToolCallRecord`
abbrev pub record_value : ToolCallRecord → Value
record_value r = obj (
    dict (
      ("tool_name", text r.tool_name)
      ∷ ("arguments", obj r.arguments)
      ∷ ("result", r.result)
      ∷ ("success", flag r.success)
      ∷ ("retry_count", num r.retry_count)
      ∷ ("error", r.error)
      ∷ []))

-- the loop over `parts[1:]`
unfoldable pub follow : Value → List String → Option Value
follow v [] = some v
follow (obj d) (part ∷ parts) = elim (get part d) [ none ↦ none | some v ↦ follow v parts ]
follow _ (part ∷ parts) = none

abbrev pub follow_saved : List String → Fields → Option Value
follow_saved [] saved = none
follow_saved (var_name ∷ []) saved = none
follow_saved (var_name ∷ part ∷ parts) saved = elim (get var_name saved) [
  | none ↦ none
  | some v ↦ follow v (part ∷ parts)
]

-- `_resolve_variable` of the pipeline: `none` is `_UNRESOLVED`
unfoldable pub resolve_variable : Fields → String → Option Value
resolve_variable saved path = follow_saved (split b'.' path) saved

abbrev pub non_null : Option Value → Option Value
non_null none = none
non_null (some null) = none
non_null (some v) = some v

-- `_resolve_variable` of the resume: a value that is `None` counts as unresolved
unfoldable pub resolve_variable_or_fail : Fields → String → Option Value
resolve_variable_or_fail saved path = non_null (resolve_variable saved path)

-- the path of a text that starts with `$`
abbrev pub placeholder : String → Option String
placeholder String.[] = none
placeholder (String.◌∷◌ c path) = if eqb (code c) b'$' then some path else none

abbrev pub found_or : Option Value → String → Resolved Value
found_or none path = unresolved path
found_or (some v) path = resolved v

abbrev pub resolve_text : (String → Option Value) → String → Option String → Resolved Value
resolve_text variable s none = resolved (text s)
resolve_text variable s (some path) = found_or (variable path) path

abbrev pub arr_of : Resolved Items → Resolved Value
arr_of (resolved xs) = resolved (arr xs)
arr_of (unresolved p) = unresolved p

abbrev pub obj_of : Resolved Fields → Resolved Value
obj_of (resolved d) = resolved (obj d)
obj_of (unresolved p) = unresolved p

abbrev pub cons_of : Resolved Value → Resolved Items → Resolved Items
cons_of (unresolved p) r = unresolved p
cons_of (resolved v) (unresolved p) = unresolved p
cons_of (resolved v) (resolved xs) = resolved (cons v xs)

abbrev pub field_of : String → Resolved Value → Resolved Fields → Resolved Fields
field_of k (unresolved p) r = unresolved p
field_of k (resolved v) (unresolved p) = unresolved p
field_of k (resolved v) (resolved d) = resolved (field k v d)

-- `_resolve_value`; the first placeholder that fails raises
unfoldable mutual
  pub resolve_value : (String → Option Value) → Value → Resolved Value
  resolve_value variable null = resolved null
  resolve_value variable (flag b) = resolved (flag b)
  resolve_value variable (num n) = resolved (num n)
  resolve_value variable (text s) = resolve_text variable s (placeholder s)
  resolve_value variable (arr xs) = arr_of (resolve_items variable xs)
  resolve_value variable (obj d) = obj_of (resolve_fields variable d)

  pub resolve_items : (String → Option Value) → Items → Resolved Items
  resolve_items variable nil = resolved nil
  resolve_items variable (cons v xs) =
      cons_of (resolve_value variable v) (resolve_items variable xs)

  pub resolve_fields : (String → Option Value) → Fields → Resolved Fields
  resolve_fields variable end = resolved end
  resolve_fields variable (field k v d) =
      field_of k (resolve_value variable v) (resolve_fields variable d)
