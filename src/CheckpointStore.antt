-- ===== src/CheckpointStore.antt =====
-- app/storage/graph_checkpoint_store.py: the table of graph checkpoints and its operations.
--
-- A row is the columns of `graph_run_states`; a JSON column holds the value that it decodes to.
-- Times are numbers that order as their ISO texts do, and `datetime.now()` is the argument `now`.
pub mod Rows
pub mod History
pub mod Claims
use project_b_multi_agent.Json.{Fields}
use project_b_multi_agent.Prelude.{
  Bool, List, Option, String, [], eqb, false, if◌then◌else◌, leb, ltb, none, not, some, true, ℕ,
  ◌&&◌, ◌++◌, ◌+◌, ◌==◌, ◌∷◌,
}
use project_b_multi_agent.Prelude.Table.{count_where, select, update_where}

-- the values of `status` that the program writes
pub data CheckpointStatus : Type 0 where
  running interrupted blocked resuming resumed completed failed cancelled expired : CheckpointStatus

abbrev pub is_interrupted : CheckpointStatus → Bool
is_interrupted interrupted = true
is_interrupted _ = false

-- `expires_at`: NULL, the empty text, or a time
pub data Expiry : Type 0 where
  unset : Expiry
  blank : Expiry
  at : ℕ → Expiry

pub record Checkpoint : Type 0 where
  pub checkpoint_id : String
  pub task_id : String
  pub approval_id : Option String
  pub graph_thread_id : Option String
  pub run_id : Option String
  pub status : CheckpointStatus
  pub current_node : Option String
  pub graph_state : Fields
  pub pending_interrupt : Option Fields
  pub resume_payload : Option Fields
  pub result_snapshot : Option Fields
  pub consumed : Bool
  pub resumed_at : Option ℕ
  pub created_at : ℕ
  pub updated_at : ℕ
  pub expires_at : Expiry
  pub schema_version : ℕ
  pub resume_attempt_count : ℕ
  pub last_resume_error : Option String
  pub locked_by : Option String
  pub locked_at : Option ℕ

abbrev pub Checkpoints : Type 0
Checkpoints = List Checkpoint

abbrev pub checkpoint_key : Checkpoint → String
checkpoint_key r = r.checkpoint_id

unfoldable pub get_checkpoint : String → Checkpoints → Option Checkpoint
get_checkpoint checkpoint_id rows = select checkpoint_key checkpoint_id rows

-- INSERT; `none` is the `ValueError` that a second row with the key raises
abbrev pub insert_checkpoint : Option Checkpoint → Checkpoint → Checkpoints → Option Checkpoints
insert_checkpoint none r rows = some (rows ++ r ∷ [])
insert_checkpoint (some _) r rows = none

unfoldable pub create_checkpoint : Checkpoint → Checkpoints → Option Checkpoints
create_checkpoint r rows = insert_checkpoint (get_checkpoint r.checkpoint_id rows) r rows

-- SELECT … WHERE task_id = ? ORDER BY created_at DESC LIMIT 1: of rows created at one time the
-- database may return any, and the model the first
abbrev pub later : Checkpoint → Option Checkpoint → Checkpoint
later r none = r
later r (some s) = if ltb r.created_at s.created_at then s else r

unfoldable pub get_latest_for_task : String → Checkpoints → Option Checkpoint
get_latest_for_task task_id [] = none
get_latest_for_task task_id (r ∷ rows) =
    let rest = get_latest_for_task task_id rows in
    if r.task_id == task_id then some (later r rest) else rest

abbrev pub set_interrupt : String → Fields → ℕ → Option Fields → Checkpoint → Checkpoint
set_interrupt approval_id payload now none r = record r {
  approval_id = some approval_id;
  pending_interrupt = some payload;
  status = interrupted;
  updated_at = now;
}
set_interrupt approval_id payload now (some state) r = record r {
  approval_id = some approval_id;
  pending_interrupt = some payload;
  status = interrupted;
  updated_at = now;
  graph_state = state;
}

unfoldable pub mark_pending_interrupt :
    String → String → Fields → Option Fields → ℕ → Checkpoints → Checkpoints × Option Checkpoint
mark_pending_interrupt checkpoint_id approval_id payload graph_state now rows =
    let rows' =
      update_where (λ r. r.checkpoint_id == checkpoint_id)
        (set_interrupt approval_id payload now graph_state) rows in
    (rows', get_checkpoint checkpoint_id rows')

-- expires_at IS NULL OR expires_at = '' OR expires_at > now
abbrev pub unexpired : ℕ → Expiry → Bool
unexpired now unset = true
unexpired now blank = true
unexpired now (at t) = ltb now t

abbrev pub has_approval : String → Option String → Bool
has_approval approval_id none = false
has_approval approval_id (some a) = a == approval_id

-- the part of the WHERE clause after checkpoint_id = ?
abbrev pub is_claimable : String → ℕ → Checkpoint → Bool
is_claimable approval_id now r =
    has_approval approval_id r.approval_id
    && (not r.consumed && (is_interrupted r.status && unexpired now r.expires_at))

abbrev pub claim : ℕ → Checkpoint → Checkpoint
claim now r = record r {
  status = resuming;
  locked_at = some now;
  updated_at = now;
  resume_attempt_count = r.resume_attempt_count + 1;
}

unfoldable pub claim_for_resume :
    String → String → ℕ → Checkpoints → Checkpoints × Option Checkpoint
claim_for_resume checkpoint_id approval_id now rows =
    let p =
      λ (r : Checkpoint). r.checkpoint_id == checkpoint_id && is_claimable approval_id now r in
    let changed = count_where p rows in
    let rows' = update_where p (claim now) rows in
    (rows', if eqb changed 1 then get_checkpoint checkpoint_id rows' else none)

abbrev pub finish : ℕ → Fields → Option Fields → Checkpoint → Checkpoint
finish now payload snapshot r = record r {
  status = resumed;
  consumed = true;
  resumed_at = some now;
  updated_at = now;
  resume_payload = some payload;
  result_snapshot = snapshot;
}

unfoldable pub mark_resumed :
    String → Fields → Option Fields → ℕ → Checkpoints → Checkpoints × Option Checkpoint
mark_resumed checkpoint_id payload snapshot now rows =
    let rows' =
      update_where (λ r. r.checkpoint_id == checkpoint_id) (finish now payload snapshot) rows in
    (rows', get_checkpoint checkpoint_id rows')

abbrev pub cancel : ℕ → String → Checkpoint → Checkpoint
cancel now reason r = record r {
  status = cancelled;
  consumed = true;
  updated_at = now;
  last_resume_error = some reason;
}

unfoldable pub mark_cancelled : String → String → ℕ → Checkpoints → Checkpoints × Option Checkpoint
mark_cancelled checkpoint_id reason now rows =
    let rows' = update_where (λ r. r.checkpoint_id == checkpoint_id) (cancel now reason) rows in
    (rows', get_checkpoint checkpoint_id rows')

-- consumed = 0 AND expires_at IS NOT NULL AND expires_at != '' AND expires_at <= now
abbrev pub is_expirable : ℕ → Checkpoint → Bool
is_expirable now r =
    not r.consumed && elim r.expires_at [ unset ↦ false | blank ↦ false | at t ↦ leb t now ]

abbrev pub expire : ℕ → Checkpoint → Checkpoint
expire now r = record r { status = expired; consumed = true; updated_at = now }

unfoldable pub expire_old : ℕ → Checkpoints → Checkpoints × ℕ
expire_old now rows =
    (update_where (is_expirable now) (expire now) rows, count_where (is_expirable now) rows)
