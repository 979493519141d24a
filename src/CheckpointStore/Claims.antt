-- ===== src/CheckpointStore/Claims.antt =====
-- The claim of a checkpoint for resume, and expiry (app/storage/graph_checkpoint_store.py).
use project_b_multi_agent.CheckpointStore.{
  Checkpoint, CheckpointStatus, Checkpoints, Expiry, at, blank, blocked, cancelled, checkpoint_key,
  claim, claim_for_resume, completed, expire, expire_old, expired, failed, get_checkpoint,
  has_approval, interrupted, is_claimable, is_interrupted, resumed, resuming, running, unexpired,
  unset,
}
use project_b_multi_agent.CheckpointStore.Rows.{get_checkpoint-claim_for_resume}
use project_b_multi_agent.Prelude.{
  Bool, Bool-cases, Option, String, [], and_true, ap, ap₂, arith, eq_iff, eq_refl, false, if_no,
  if_yes, if◌then◌else◌, inl, inr, leb, ltb, ltb→lt, lt→ltb, map, none, not, refl, some, sym, true,
  ℕ, ◌&&◌, ◌+◌, ◌<◌, ◌==◌, ◌↔◌, ◌∙◌, ◌∷◌, ◌≡◌,
}
use project_b_multi_agent.Prelude.Table.{
  IsKeyed, count_where, count_where-select, hits, update_where,
}

-- what the claim returns, by the row that it finds
abbrev pub claimed : String → ℕ → Option Checkpoint → Option Checkpoint
claimed a now none = none
claimed a now (some r) = if is_claimable a now r then some (claim now r) else none

claim-rowcount :
    (k a : String) (now : ℕ) (rows : Checkpoints)
    → IsKeyed checkpoint_key rows
    → count_where (λ r. r.checkpoint_id == k && is_claimable a now r) rows
      ≡ hits (is_claimable a now) (get_checkpoint k rows)
unfolding get_checkpoint
claim-rowcount k a now rows keyed =
    count_where-select checkpoint_key (is_claimable a now) k rows keyed

pub claim_for_resume-claimed :
    (k a : String) (now : ℕ) (rows : Checkpoints)
    → IsKeyed checkpoint_key rows
    → (claim_for_resume k a now rows).1 ≡ claimed a now (get_checkpoint k rows)
claim_for_resume-claimed k a now rows keyed =
    let count = claim-rowcount k a now rows keyed in
    let after = get_checkpoint-claim_for_resume k rows k a now in
    unfold claim_for_resume in ground (arith, count, after, eq_refl k)

-- there is no expiry time, or it is later than `now`
abbrev pub Lasts : ℕ → Expiry → Type 0
Lasts now unset = Unit
Lasts now blank = Unit
Lasts now (at t) = now < t

-- the row belongs to the approval, is interrupted, and has neither been consumed nor expired
abbrev pub IsOpen : String → ℕ → Checkpoint → Type 0
IsOpen a now r =
    (r.approval_id ≡ some a)
    × (r.consumed ≡ false)
    × (r.status ≡ interrupted)
    × Lasts now r.expires_at

-- the row as a claim leaves it
abbrev pub row_as_claimed : ℕ → Checkpoint → Checkpoint
row_as_claimed now r = record r {
  status = resuming;
  locked_at = some now;
  updated_at = now;
  resume_attempt_count = r.resume_attempt_count + 1;
}

has_approval_iff : (a : String) (o : Option String) → (has_approval a o ≡ true) ↔ (o ≡ some a)
has_approval_iff a none = (λ h. cc, λ h. cc)
has_approval_iff a (some b) = (λ h. ap some ((eq_iff b a).0 h), λ h. ground (arith, eq_iff b a, h))

is_interrupted_iff : (s : CheckpointStatus) → (is_interrupted s ≡ true) ↔ (s ≡ interrupted)
is_interrupted_iff s = (λ h. to s h, λ h. ap is_interrupted h)
  where
    to : (s : CheckpointStatus) → is_interrupted s ≡ true → s ≡ interrupted
    to interrupted h = refl
    to running h = cc
    to blocked h = cc
    to resuming h = cc
    to resumed h = cc
    to completed h = cc
    to failed h = cc
    to cancelled h = cc
    to expired h = cc

unexpired_iff : (now : ℕ) (e : Expiry) → (unexpired now e ≡ true) ↔ Lasts now e
unexpired_iff now unset = (λ h. tt, λ h. refl)
unexpired_iff now blank = (λ h. tt, λ h. refl)
unexpired_iff now (at t) = (λ h. ltb→lt now t h, λ h. lt→ltb now t h)

is_claimable_iff :
    (a : String) (now : ℕ) (r : Checkpoint) → (is_claimable a now r ≡ true) ↔ IsOpen a now r
is_claimable_iff a now r =
    let approval = has_approval_iff a r.approval_id in
    let status = is_interrupted_iff r.status in
    let time = unexpired_iff now r.expires_at in
    (
      λ h. (
        approval.0 (ground (arith, h)),
        ground (arith, h),
        status.0 (ground (arith, h)),
        time.0 (ground (arith, h)),
      ),
      λ (mine, fresh, open_row, lasts).
          and_true (approval.1 mine)
            (and_true (ap not fresh) (and_true (status.1 open_row) (time.1 lasts))),
    )

-- On a table whose ids are unique, a claim succeeds exactly if the row is there, belongs to the
-- approval, is not consumed, is interrupted and has not expired. It then returns the row as
-- `resuming`, locked now, with one attempt more.
pub claim_for_resume_lem :
    (k a : String) (now : ℕ) (rows : Checkpoints)
    → IsKeyed checkpoint_key rows
    → (r' : Checkpoint)
    → ((claim_for_resume k a now rows).1 ≡ some r') ↔ (
        (r : Checkpoint) × (get_checkpoint k rows ≡ some r)
        × IsOpen a now r
        × (r' ≡ row_as_claimed now r))
claim_for_resume_lem k a now rows keyed r' =
    let answer = claim_for_resume-claimed k a now rows keyed in
    let row = by_row (get_checkpoint k rows) in (λ h. row.0 (sym answer ∙ h), λ h. answer ∙ row.1 h)
  where
    by_row :
        (row : Option Checkpoint)
        → (claimed a now row ≡ some r')
          ↔ ((r : Checkpoint) × (row ≡ some r) × IsOpen a now r × (r' ≡ row_as_claimed now r))
    by_row none = (λ h. cc, λ h. cc (h.1))
    by_row (some r) = (
      λ h. elim (Bool-cases (is_claimable a now r)) [
        | inl e ↦ (r, refl, (is_claimable_iff a now r).0 e, ground (arith, e, h))
        | inr e ↦ cc (h, if_no (is_claimable a now r) (some (claim now r)) none e)
      ],
      λ (q, same, is_open, now_locked).
          let same_row : r ≡ q = cc same in
          ap (claimed a now) same
          ∙ if_yes _ _ _ ((is_claimable_iff a now q).1 is_open)
          ∙ ap some (sym now_locked),
    )

-- a row by whether it is consumed and when it expires: it stays, or is consumed and marked
abbrev pub expired_if : Bool → Expiry → ℕ → Checkpoint → Checkpoint
expired_if true e now r = r
expired_if false unset now r = r
expired_if false blank now r = r
expired_if false (at t) now r =
    if ltb now t then r else record r { status = expired; consumed = true; updated_at = now }

amend-expired_if :
    (b : Bool) (e : Expiry) (now : ℕ) (r : Checkpoint)
    → (if not b && elim e [ unset ↦ false | blank ↦ false | at t ↦ leb t now ]
        then expire now r
        else r)
      ≡ expired_if b e now r
amend-expired_if true e now r = refl
amend-expired_if false unset now r = refl
amend-expired_if false blank now r = refl
amend-expired_if false (at t) now r = ground arith

-- `expire_old now` consumes and marks exactly the rows that are not consumed and whose time is
-- `now` or earlier, and leaves every other row as it is. The number returned is by how many the
-- consumed rows grew.
pub expire_old_lem :
    (now : ℕ) (rows : Checkpoints)
    → let (rows', changed) = expire_old now rows in
      (rows' ≡ map (λ r. expired_if r.consumed r.expires_at now r) rows)
      × (count_where (λ r. r.consumed) rows' ≡ count_where (λ r. r.consumed) rows + changed)
unfolding expire_old update_where count_where
expire_old_lem now [] = (refl, omega arith)
expire_old_lem now (r ∷ rows) =
    let (h₀, h₁) = expire_old_lem now rows in
    (ap₂ (λ q qs. q ∷ qs) (amend-expired_if r.consumed r.expires_at now r) h₀, ground (arith, h₁))
