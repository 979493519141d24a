-- ===== src/TaskStore/Laws.antt =====
-- What a reader sees after the operations of app/storage/task_store.py.
use mathlib.Core.Option
use project_b_multi_agent.Json.{Fields}
use project_b_multi_agent.Prelude.{
  Option, String, [], arith, eq_iff, if◌then◌else◌, none, refl, some, ℕ, ◌++◌, ◌==◌, ◌∙◌, ◌∷◌, ◌≡◌,
}
use project_b_multi_agent.Prelude.Table.{
  or_select, select, select-append, select-update_key_all, update_where,
}
use project_b_multi_agent.TaskStore.{
  Task, Tasks, get_task, save_task, set_status, stored_result, task_key, update_task_status,
  updated_result, with_result, without, write_status,
}

get_task-write :
    (task_id : String) (f : Task → Task) (keeps : (t : Task) → (f t).task_id ≡ t.task_id)
    (rows : Tasks) (j : String)
    → get_task j (update_where (λ t. t.task_id == task_id) f rows)
      ≡ (if task_id == j then Option.map f (get_task j rows) else get_task j rows)
unfolding get_task
get_task-write task_id f keeps rows j = select-update_key_all task_key f keeps task_id j rows

write_status_row :
    (task_id status : String) (u : Option Fields) (now : ℕ) (rows : Tasks) (j : String)
    (found : Option Task)
    → get_task task_id rows ≡ found
    → get_task j (write_status found task_id status u now rows) ≡ (
        if task_id == j
        then Option.map (set_status status u now) (get_task j rows)
        else get_task j rows)
write_status_row task_id status u now rows j none h = ground (arith, eq_iff task_id j)
write_status_row task_id status u now rows j (some old) h = ground (
  arith,
  eq_iff task_id j,
  get_task-write task_id (with_result status (updated_result old.result u) now) (λ t. refl) rows j,
)

-- `update_task_status` sets the status of the task and merges the result into its result, and
-- every other task is as before; a task that is not there is not made.
get_task-update_task_status :
    (task_id status : String) (u : Option Fields) (now : ℕ) (rows : Tasks) (j : String)
    → get_task j (update_task_status task_id status u now rows).0 ≡ (
        if task_id == j
        then Option.map (set_status status u now) (get_task j rows)
        else get_task j rows)
unfolding update_task_status
get_task-update_task_status task_id status u now rows j =
    write_status_row task_id status u now rows j (get_task task_id rows) refl

without-get_task :
    (task_id j : String) (rows : Tasks)
    → get_task j (without task_id rows) ≡ (if task_id == j then none else get_task j rows)
unfolding get_task without select
without-get_task task_id j [] = ground arith
without-get_task task_id j (t ∷ rows) = ground (
  arith,
  eq_iff t.task_id task_id,
  eq_iff t.task_id j,
  eq_iff task_id j,
  without-get_task task_id j rows,
)

get_task-append :
    (t : Task) (rows : Tasks) (j : String)
    → get_task j (rows ++ t ∷ [])
      ≡ or_select task_key (get_task j rows) (if t.task_id == j then some t else none)
unfolding get_task
get_task-append t rows j = select-append task_key j rows t

-- A saved task is found as it was saved, with an empty result as none, in place of any task that
-- had its id; every other task is as before.
pub get_task-save_task :
    (task : Task) (rows : Tasks) (j : String)
    → get_task j (save_task task rows) ≡ (
        if task.task_id == j
        then some (record task { result = stored_result task.result })
        else get_task j rows)
unfolding save_task
get_task-save_task task rows j =
    let saved : Task = record task { result = stored_result task.result } in
    get_task-append saved (without task.task_id rows) j
    ∙ ground (arith, without-get_task task.task_id j rows)
