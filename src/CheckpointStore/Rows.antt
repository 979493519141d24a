-- ===== src/CheckpointStore/Rows.antt =====
-- What a reader of one row sees after each statement of app/storage/graph_checkpoint_store.py.
use mathlib.Core.Option
use project_b_multi_agent.CheckpointStore.{
  Checkpoint, Checkpoints, cancel, checkpoint_key, claim, claim_for_resume, create_checkpoint,
  expire, expire_old, finish, get_checkpoint, is_claimable, is_expirable, mark_cancelled,
  mark_pending_interrupt, mark_resumed, set_interrupt,
}
use project_b_multi_agent.Json.{Fields}
use project_b_multi_agent.Prelude.{
  Option, String, arith, eq_iff, if◌then◌else◌, none, refl, some, ℕ, ◌==◌, ◌≡◌,
}
use project_b_multi_agent.Prelude.Table.{
  amend, select-append, select-update_key, select-update_key_all, select-update_where,
}

abbrev pub or_unchanged : Option Checkpoints → Checkpoints → Checkpoints
or_unchanged none rows = rows
or_unchanged (some rows') rows = rows'

abbrev pub or_new : Option Checkpoint → Option Checkpoint → Option Checkpoint
or_new none o = o
or_new (some r) o = some r

pub keeps-set_interrupt :
    (a : String) (payload : Fields) (now : ℕ) (state : Option Fields) (r : Checkpoint)
    → (set_interrupt a payload now state r).checkpoint_id ≡ r.checkpoint_id
keeps-set_interrupt a payload now none r = refl
keeps-set_interrupt a payload now (some _) r = refl

module _ (k : String) (rows : Checkpoints) (j : String) where
  pub get_checkpoint-mark_pending_interrupt :
      (a : String) (payload : Fields) (state : Option Fields) (now : ℕ)
      → get_checkpoint j (mark_pending_interrupt k a payload state now rows).0 ≡ (
          if k == j
          then Option.map (set_interrupt a payload now state) (get_checkpoint j rows)
          else get_checkpoint j rows)
  unfolding get_checkpoint mark_pending_interrupt
  get_checkpoint-mark_pending_interrupt a payload state now =
      select-update_key_all checkpoint_key _ (keeps-set_interrupt a payload now state) k j rows

  pub get_checkpoint-claim_for_resume :
      (a : String) (now : ℕ)
      → get_checkpoint j (claim_for_resume k a now rows).0 ≡ (
          if k == j
          then Option.map (amend (is_claimable a now) (claim now)) (get_checkpoint j rows)
          else get_checkpoint j rows)
  unfolding get_checkpoint claim_for_resume
  get_checkpoint-claim_for_resume a now =
      select-update_key checkpoint_key (is_claimable a now) (claim now) (λ r. refl) k j rows

  pub get_checkpoint-mark_resumed :
      (payload : Fields) (snapshot : Option Fields) (now : ℕ)
      → get_checkpoint j (mark_resumed k payload snapshot now rows).0 ≡ (
          if k == j
          then Option.map (finish now payload snapshot) (get_checkpoint j rows)
          else get_checkpoint j rows)
  unfolding get_checkpoint mark_resumed
  get_checkpoint-mark_resumed payload snapshot now =
      select-update_key_all checkpoint_key _ (λ r. refl) k j rows

  pub get_checkpoint-mark_cancelled :
      (reason : String) (now : ℕ)
      → get_checkpoint j (mark_cancelled k reason now rows).0 ≡ (
          if k == j
          then Option.map (cancel now reason) (get_checkpoint j rows)
          else get_checkpoint j rows)
  unfolding get_checkpoint mark_cancelled
  get_checkpoint-mark_cancelled reason now =
      select-update_key_all checkpoint_key _ (λ r. refl) k j rows

pub get_checkpoint-expire_old :
    (now : ℕ) (rows : Checkpoints) (j : String)
    → get_checkpoint j (expire_old now rows).0
      ≡ Option.map (amend (is_expirable now) (expire now)) (get_checkpoint j rows)
unfolding get_checkpoint expire_old
get_checkpoint-expire_old now rows j =
    select-update_where checkpoint_key (is_expirable now) (expire now) (λ r. refl) j rows

-- the row of `k` after an INSERT that may fail
pub get_checkpoint-insert :
    (r : Checkpoint) (rows : Checkpoints) (j : String)
    → get_checkpoint j (or_unchanged (create_checkpoint r rows) rows)
      ≡ or_new (get_checkpoint j rows) (if r.checkpoint_id == j then some r else none)
unfolding get_checkpoint create_checkpoint
get_checkpoint-insert r rows j =
    ground (arith, eq_iff r.checkpoint_id j, select-append checkpoint_key j rows r)
