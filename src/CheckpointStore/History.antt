-- ===== src/CheckpointStore/History.antt =====
-- The table of checkpoints under the statements of any number of clients, in any order; each
-- statement is one SQL statement, so atomic (app/storage/graph_checkpoint_store.py).
use project_b_multi_agent.CheckpointStore.{
  Checkpoint, Checkpoints, checkpoint_key, claim_for_resume, create_checkpoint, expire_old,
  get_checkpoint, insert_checkpoint, is_interrupted, mark_cancelled, mark_pending_interrupt,
  mark_resumed,
}
use project_b_multi_agent.CheckpointStore.Claims.{claim_for_resume-claimed}
use project_b_multi_agent.CheckpointStore.Rows.{
  get_checkpoint-claim_for_resume, get_checkpoint-expire_old, get_checkpoint-insert,
  get_checkpoint-mark_cancelled, get_checkpoint-mark_pending_interrupt, get_checkpoint-mark_resumed,
  keeps-set_interrupt, or_unchanged,
}
use project_b_multi_agent.Json.{Fields}
use project_b_multi_agent.Prelude.{
  Bool, List, Option, String, [], arith, eq_iff, eq_refl, false, if◌then◌else◌, none, not, refl,
  some, true, ℕ, ◌&&◌, ◌+◌, ◌==◌, ◌∷◌, ◌≡◌, ◌≤◌,
}
use project_b_multi_agent.Prelude.Table.{IsKeyed, append-IsKeyed, select, update_where-IsKeyed}

pub data Statement : Type 0 where
  insert : Checkpoint → Statement
  interrupt : String → String → Fields → Option Fields → ℕ → Statement
  claim_row : String → String → ℕ → Statement
  resume_row : String → Fields → Option Fields → ℕ → Statement
  cancel_row : String → String → ℕ → Statement
  expire_rows : ℕ → Statement

unfoldable pub execute : Statement → Checkpoints → Checkpoints
execute (insert r) rows = or_unchanged (create_checkpoint r rows) rows
execute (interrupt k a payload state now) rows =
    (mark_pending_interrupt k a payload state now rows).0
execute (claim_row k a now) rows = (claim_for_resume k a now rows).0
execute (resume_row k payload snapshot now) rows = (mark_resumed k payload snapshot now rows).0
execute (cancel_row k reason now) rows = (mark_cancelled k reason now rows).0
execute (expire_rows now) rows = (expire_old now rows).0

unfoldable pub execute_all : List Statement → Checkpoints → Checkpoints
execute_all [] rows = rows
execute_all (s ∷ ss) rows = execute_all ss (execute s rows)

-- 1 if the statement is a claim of `k` that succeeds
abbrev pub won : Option Checkpoint → ℕ
won none = 0
won (some r) = 1

abbrev pub wins_now : String → Statement → Checkpoints → ℕ
wins_now k (claim_row j a now) rows = if j == k then won (claim_for_resume j a now rows).1 else 0
wins_now k _ rows = 0

-- how many claims of `k` succeed
unfoldable pub wins : String → List Statement → Checkpoints → ℕ
wins k [] rows = 0
wins k (s ∷ ss) rows = wins_now k s rows + wins k ss (execute s rows)

-- statements that can make `k` claimable: an interrupt of it, or its insertion
abbrev pub chance : String → Statement → ℕ
chance k (insert r) = if r.checkpoint_id == k then 1 else 0
chance k (interrupt j a payload state now) = if j == k then 1 else 0
chance k _ = 0

unfoldable pub chances : String → List Statement → ℕ
chances k [] = 0
chances k (s ∷ ss) = chance k s + chances k ss

abbrev pub credit : Option Checkpoint → ℕ
credit none = 0
credit (some r) = if not r.consumed && is_interrupted r.status then 1 else 0

insert-IsKeyed :
    (r : Checkpoint) (rows : Checkpoints) (found : Option Checkpoint)
    → select checkpoint_key r.checkpoint_id rows ≡ found
    → IsKeyed checkpoint_key rows
    → IsKeyed checkpoint_key (or_unchanged (insert_checkpoint found r rows) rows)
insert-IsKeyed r rows none free h = append-IsKeyed checkpoint_key rows r h free
insert-IsKeyed r rows (some _) taken h = h

execute-IsKeyed :
    (s : Statement) (rows : Checkpoints)
    → IsKeyed checkpoint_key rows
    → IsKeyed checkpoint_key (execute s rows)
unfolding execute create_checkpoint get_checkpoint mark_pending_interrupt claim_for_resume
    mark_resumed mark_cancelled expire_old
execute-IsKeyed (insert r) rows h =
    insert-IsKeyed r rows (select checkpoint_key r.checkpoint_id rows) refl h
execute-IsKeyed (interrupt k a payload state now) rows h =
    update_where-IsKeyed checkpoint_key _ _ (keeps-set_interrupt a payload now state) rows h
execute-IsKeyed (claim_row k a now) rows h =
    update_where-IsKeyed checkpoint_key _ _ (λ r. refl) rows h
execute-IsKeyed (resume_row k payload snapshot now) rows h =
    update_where-IsKeyed checkpoint_key _ _ (λ r. refl) rows h
execute-IsKeyed (cancel_row k reason now) rows h =
    update_where-IsKeyed checkpoint_key _ _ (λ r. refl) rows h
execute-IsKeyed (expire_rows now) rows h =
    update_where-IsKeyed checkpoint_key _ _ (λ r. refl) rows h

step_credit :
    (k : String) (s : Statement) (rows : Checkpoints)
    → IsKeyed checkpoint_key rows
    → wins_now k s rows + credit (get_checkpoint k (execute s rows))
      ≤ credit (get_checkpoint k rows) + chance k s
unfolding execute
step_credit k (insert r) rows h = ground (arith, get_checkpoint-insert r rows k)
step_credit k (interrupt j a payload state now) rows h =
    ground (arith, get_checkpoint-mark_pending_interrupt j rows k a payload state now)
step_credit k (claim_row j a now) rows h = ground (
  arith,
  get_checkpoint-claim_for_resume j rows k a now,
  claim_for_resume-claimed j a now rows h,
  eq_iff j k,
)
step_credit k (resume_row j payload snapshot now) rows h =
    ground (arith, get_checkpoint-mark_resumed j rows k payload snapshot now)
step_credit k (cancel_row j reason now) rows h =
    ground (arith, get_checkpoint-mark_cancelled j rows k reason now)
step_credit k (expire_rows now) rows h = ground (arith, get_checkpoint-expire_old now rows k)

abbrev pub is_spent : Option Checkpoint → Bool
is_spent none = false
is_spent (some r) = r.consumed

step_spent :
    (s : Statement) (k : String) (rows : Checkpoints)
    → is_spent (get_checkpoint k rows) ≡ true
    → is_spent (get_checkpoint k (execute s rows)) ≡ true
unfolding execute
step_spent (insert r) k rows h = ground (arith, get_checkpoint-insert r rows k)
step_spent (interrupt j a payload none now) k rows h =
    ground (arith, get_checkpoint-mark_pending_interrupt j rows k a payload none now)
step_spent (interrupt j a payload (some state) now) k rows h =
    ground (arith, get_checkpoint-mark_pending_interrupt j rows k a payload (some state) now)
step_spent (claim_row j a now) k rows h =
    ground (arith, get_checkpoint-claim_for_resume j rows k a now)
step_spent (resume_row j payload snapshot now) k rows h =
    ground (arith, get_checkpoint-mark_resumed j rows k payload snapshot now)
step_spent (cancel_row j reason now) k rows h =
    ground (arith, get_checkpoint-mark_cancelled j rows k reason now)
step_spent (expire_rows now) k rows h = ground (arith, get_checkpoint-expire_old now rows k)

-- In a table whose ids are unique, once a checkpoint is consumed (resumed, cancelled or expired),
-- no statements of any clients make it claimable again, interrupts of it included: every later
-- claim fails.
pub consumed_never_claimed :
    (ss : List Statement) (k a : String) (now : ℕ) (rows : Checkpoints)
    → IsKeyed checkpoint_key rows
    → is_spent (get_checkpoint k rows) ≡ true
    → (claim_for_resume k a now (execute_all ss rows)).1 ≡ none
unfolding execute_all
consumed_never_claimed [] k a now rows keyed h =
    ground (arith, claim_for_resume-claimed k a now rows keyed)
consumed_never_claimed (s ∷ ss) k a now rows keyed h =
    consumed_never_claimed ss k a now (execute s rows) (execute-IsKeyed s rows keyed)
      (step_spent s k rows h)

-- In a table whose ids are unique, however the statements of several resumers interleave, the
-- claims of a checkpoint that succeed are no more than the times it was made claimable: once if
-- it is claimable at the start, and once for each interrupt or insertion of it.
pub wins_le :
    (k : String) (ss : List Statement) (rows : Checkpoints)
    → IsKeyed checkpoint_key rows
    → wins k ss rows ≤ credit (get_checkpoint k rows) + chances k ss
unfolding wins chances
wins_le k [] rows h = omega arith
wins_le k (s ∷ ss) rows h =
    omega (arith, step_credit k s rows h, wins_le k ss (execute s rows) (execute-IsKeyed s rows h))

-- a checkpoint that is there is consumed once it is resumed
pub mark_resumed-spent :
    (k : String) (payload : Fields) (snapshot : Option Fields) (now : ℕ) (rows : Checkpoints)
    {r : Checkpoint}
    → get_checkpoint k rows ≡ some r
    → is_spent (get_checkpoint k (mark_resumed k payload snapshot now rows).0) ≡ true
mark_resumed-spent k payload snapshot now rows h =
    ground (arith, get_checkpoint-mark_resumed k rows k payload snapshot now, eq_refl k)

-- a successful claim returns the row as it now stands
pub claim_for_resume-get :
    (k a : String) (now : ℕ) (rows : Checkpoints) {r : Checkpoint}
    → (claim_for_resume k a now rows).1 ≡ some r
    → get_checkpoint k (claim_for_resume k a now rows).0 ≡ some r
unfolding claim_for_resume
claim_for_resume-get k a now rows h = ground arith

pub claim_for_resume-IsKeyed :
    (k a : String) (now : ℕ) (rows : Checkpoints)
    → IsKeyed checkpoint_key rows
    → IsKeyed checkpoint_key (claim_for_resume k a now rows).0
unfolding execute
claim_for_resume-IsKeyed k a now rows h = execute-IsKeyed (claim_row k a now) rows h

pub mark_pending_interrupt-IsKeyed :
    (k a : String) (payload : Fields) (state : Option Fields) (now : ℕ) (rows : Checkpoints)
    → IsKeyed checkpoint_key rows
    → IsKeyed checkpoint_key (mark_pending_interrupt k a payload state now rows).0
unfolding execute
mark_pending_interrupt-IsKeyed k a payload state now rows h =
    execute-IsKeyed (interrupt k a payload state now) rows h

pub mark_resumed-IsKeyed :
    (k : String) (payload : Fields) (snapshot : Option Fields) (now : ℕ) (rows : Checkpoints)
    → IsKeyed checkpoint_key rows
    → IsKeyed checkpoint_key (mark_resumed k payload snapshot now rows).0
unfolding execute
mark_resumed-IsKeyed k payload snapshot now rows h =
    execute-IsKeyed (resume_row k payload snapshot now) rows h
