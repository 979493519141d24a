-- ===== src/TaskStore.antt =====
-- app/storage/task_store.py: the tasks table and its operations.
--
-- `result_json` holds the dict that it decodes to; `datetime.now()` is the argument `now`.
pub mod Laws
use project_b_multi_agent.ApprovalStore.{Limit, clamp_limit}
use project_b_multi_agent.Json.{Fields, end, field, merge}
use project_b_multi_agent.Prelude.{
  List, Option, String, [], if◌then◌else◌, none, some, take, ℕ, ◌++◌, ◌==◌, ◌∷◌,
}
use project_b_multi_agent.Prelude.Table.{select, update_where}

pub record Task : Type 0 where
  pub task_id : String
  pub query : String
  pub mode : String
  pub status : String
  pub result : Option Fields
  pub error : Option String
  pub created_at : ℕ
  pub updated_at : ℕ

abbrev pub Tasks : Type 0
Tasks = List Task

abbrev pub task_key : Task → String
task_key t = t.task_id

unfoldable pub get_task : String → Tasks → Option Task
get_task task_id rows = select task_key task_id rows

-- `json.dumps(result) if result else None`
abbrev pub stored_result : Option Fields → Option Fields
stored_result none = none
stored_result (some end) = none
stored_result (some (field k v d)) = some (field k v d)

-- INSERT OR REPLACE: the row with the key goes, and the new one comes last
unfoldable pub without : String → Tasks → Tasks
without task_id [] = []
without task_id (t ∷ rows) =
    let rest = without task_id rows in if t.task_id == task_id then rest else t ∷ rest

unfoldable pub save_task : Task → Tasks → Tasks
save_task task rows =
    without task.task_id rows ++ record task { result = stored_result task.result } ∷ []

-- the result after an update: merged into the old one, or the old one as it is stored again
abbrev pub updated_result : Option Fields → Option Fields → Option Fields
updated_result old none = stored_result old
updated_result none (some u) = some (merge end u)
updated_result (some d) (some u) = some (merge d u)

abbrev pub with_result : String → Option Fields → ℕ → Task → Task
with_result status result now t = record t { status = status; result = result; updated_at = now }

abbrev pub set_status : String → Option Fields → ℕ → Task → Task
set_status status result now t = with_result status (updated_result t.result result) now t

-- UPDATE … WHERE task_id = ?, with the row that was read before it
abbrev pub write_status : Option Task → String → String → Option Fields → ℕ → Tasks → Tasks
write_status none task_id status result now rows = rows
write_status (some old) task_id status result now rows =
    let new_result = updated_result old.result result in
    update_where (λ t. t.task_id == task_id) (with_result status new_result now) rows

unfoldable pub update_task_status :
    String → String → Option Fields → ℕ → Tasks → Tasks × Option Task
update_task_status task_id status result now rows =
    let rows' = write_status (get_task task_id rows) task_id status result now rows in
    (rows', get_task task_id rows')

-- SELECT … ORDER BY created_at DESC LIMIT ?, with the database's order a parameter
pub list_tasks : (Tasks → Tasks) → Limit → Tasks → Tasks
list_tasks newest_first limit rows = take (clamp_limit limit) (newest_first rows)
