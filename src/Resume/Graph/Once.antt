-- ===== src/Resume/Graph/Once.antt =====
-- An approved tool call is made once, however often and by however many it is resumed
-- (app/agent/graph/resume_adapter.py).
use project_b_multi_agent.ApprovalStore.{Approval, payload_of}
use project_b_multi_agent.Budget.Sums.{spent}
use project_b_multi_agent.CheckpointStore.{
  Checkpoint, CheckpointStatus, Checkpoints, checkpoint_key, claim_for_resume, completed,
  get_checkpoint, resumed,
}
use project_b_multi_agent.CheckpointStore.History.{
  Statement, claim_for_resume-IsKeyed, claim_for_resume-get, consumed_never_claimed, execute_all,
  is_spent, mark_resumed-IsKeyed, mark_resumed-spent,
}
use project_b_multi_agent.Gateway.{Gateway}
use project_b_multi_agent.Json.{Fields, get, get_text, is_set}
use project_b_multi_agent.Prelude.{
  Bool, List, Option, String, arith, false, none, refl, some, true, ◌≡◌,
}
use project_b_multi_agent.Prelude.Table.{IsKeyed}
use project_b_multi_agent.Resume.{Clock, State}
use project_b_multi_agent.Resume.Graph.{
  after_claim, answer_or, by_status, early_answer, handle_claim_failed, resume_graph, run_claimed,
}

-- the checkpoint that the approval's payload names
abbrev pub checkpoint_of : Approval → String
checkpoint_of r = get_text "checkpoint_id" (payload_of r.payload)

-- the answer reports a call of the tool
abbrev pub has_called : Fields → Bool
has_called answer = is_set "graph_resumed" answer

claim_failed-not_called :
    (a k : String) (o : Option Checkpoint) → has_called (handle_claim_failed a k o) ≡ false
unfolding handle_claim_failed get
claim_failed-not_called a k none = refl
claim_failed-not_called a k (some c) = by c.status c.consumed
  where
    by :
        (st : CheckpointStatus) (b : Bool)
        → has_called (by_status st b c.result_snapshot a k) ≡ false
    by resumed true = refl
    by resumed false = refl
    by completed true = refl
    by completed false = refl
    by _ _ = refl

early-not_called :
    (a : String) (payload d : Fields) → early_answer a payload ≡ some d → has_called d ≡ false
unfolding early_answer get
early-not_called a payload d h = ground arith

-- what a resume that is refused keeps: all but the checkpoints
pub record Untouched {W : Type 0} (s s' : State W) : Type 0 where
  pub world : s'.world ≡ s.world
  pub tasks : s'.tasks ≡ s.tasks
  pub approvals : s'.approvals ≡ s.approvals
  pub audit : s'.audit ≡ s.audit

module _ {W : Type 0} (g : Gateway W) where
  refused_claim :
      (clock : Clock) (a : String) (r : Approval) (k : String)
      (claim : Checkpoints × Option Checkpoint) (s : State W)
      → claim.1 ≡ none
      → Untouched s (after_claim g clock a r k claim s).0
        × (has_called (after_claim g clock a r k claim s).1 ≡ false)
  refused_claim clock a r k (rows, none) s h = (
    record { world = refl; tasks = refl; approvals = refl; audit = refl },
    claim_failed-not_called a k (get_checkpoint k rows),
  )
  refused_claim clock a r k (rows, some c) s h = cc

  refused_resume :
      (clock : Clock) (a : String) (r : Approval) (s : State W) (early : Option Fields)
      → early_answer a (payload_of r.payload) ≡ early
      → (claim_for_resume (checkpoint_of r) a clock.claimed_at s.checkpoints).1 ≡ none
      → let later =
          after_claim g clock a r
            (checkpoint_of r)
            (claim_for_resume (checkpoint_of r) a clock.claimed_at s.checkpoints)
            s in
        Untouched s (answer_or g early s later).0
        × (has_called (answer_or g early s later).1 ≡ false)
  refused_resume clock a r s (some d) e h = (
    record { world = refl; tasks = refl; approvals = refl; audit = refl },
    early-not_called a (payload_of r.payload) d e,
  )
  refused_resume clock a r s none e h =
      refused_claim clock a r (checkpoint_of r)
        (claim_for_resume (checkpoint_of r) a clock.claimed_at s.checkpoints) s h

  -- A resume whose claim fails calls no tool, writes no task and no approval, and says so.
  resume_graph-unclaimed :
      (clock : Clock) (a : String) (r : Approval) (s : State W)
      → (claim_for_resume (checkpoint_of r) a clock.claimed_at s.checkpoints).1 ≡ none
      → Untouched s (resume_graph g clock a r s).0
        × (has_called (resume_graph g clock a r s).1 ≡ false)
  unfolding resume_graph
  resume_graph-unclaimed clock a r s h =
      refused_resume clock a r s (early_answer a (payload_of r.payload)) refl h

  -- the checkpoint is consumed, and the ids stay unique
  abbrev IsClosed : String → Checkpoints → Type 0
  IsClosed k rows = (is_spent (get_checkpoint k rows) ≡ true) × IsKeyed checkpoint_key rows

  run_claimed-IsClosed :
      (clock : Clock) (a : String) (r : Approval) (k : String) (c : Checkpoint) (s : State W)
      → get_checkpoint k s.checkpoints ≡ some c
      → IsKeyed checkpoint_key s.checkpoints
      → IsClosed k (run_claimed g clock a r k c s).0.checkpoints
  unfolding run_claimed
  run_claimed-IsClosed clock a r k c s h keyed = (
    mark_resumed-spent k _ _ clock.resumed_at s.checkpoints h,
    mark_resumed-IsKeyed k _ _ clock.resumed_at s.checkpoints keyed,
  )

  ran-IsClosed :
      (clock : Clock) (a : String) (r : Approval) (k : String)
      (claim : Checkpoints × Option Checkpoint) (s : State W)
      → ((c : Checkpoint) → claim.1 ≡ some c → get_checkpoint k claim.0 ≡ some c)
      → IsKeyed checkpoint_key claim.0
      → has_called (after_claim g clock a r k claim s).1 ≡ true
      → IsClosed k (after_claim g clock a r k claim s).0.checkpoints
  ran-IsClosed clock a r k (rows, none) s found keyed h =
      cc (h, claim_failed-not_called a k (get_checkpoint k rows))
  ran-IsClosed clock a r k (rows, some c) s found keyed h =
      run_claimed-IsClosed clock a r k c (record s { checkpoints = rows }) (found c refl) keyed

  called-IsClosed :
      (clock : Clock) (a : String) (r : Approval) (s : State W) (early : Option Fields)
      → early_answer a (payload_of r.payload) ≡ early
      → IsKeyed checkpoint_key s.checkpoints
      → let k = checkpoint_of r in
        let later =
          after_claim g clock a r k (claim_for_resume k a clock.claimed_at s.checkpoints) s in
        has_called (answer_or g early s later).1 ≡ true
        → IsClosed k (answer_or g early s later).0.checkpoints
  called-IsClosed clock a r s (some d) e keyed h =
      cc (h, early-not_called a (payload_of r.payload) d e)
  called-IsClosed clock a r s none e keyed h =
      let k = checkpoint_of r in
      ran-IsClosed clock a r k (claim_for_resume k a clock.claimed_at s.checkpoints) s
        (λ c p. claim_for_resume-get k a clock.claimed_at s.checkpoints p)
        (claim_for_resume-IsKeyed k a clock.claimed_at s.checkpoints keyed) h

  resume_graph-IsClosed :
      (clock : Clock) (a : String) (r : Approval) (s : State W)
      → IsKeyed checkpoint_key s.checkpoints
      → has_called (resume_graph g clock a r s).1 ≡ true
      → IsClosed (checkpoint_of r) (resume_graph g clock a r s).0.checkpoints
  unfolding resume_graph
  resume_graph-IsClosed clock a r s keyed h =
      called-IsClosed clock a r s (early_answer a (payload_of r.payload)) refl keyed h

  -- In a table of checkpoints whose ids are unique, once a resume reports that it called the
  -- approved tool, no resume of the same checkpoint calls a tool again: not with another approval
  -- or an old copy of this one, and not after any statements that other clients run on the
  -- checkpoints in between. Such a resume leaves the world, the tasks, the approvals and the
  -- audit trail as they are.
  pub resume_graph_once :
      (clock clock' : Clock) (a a' : String) (r r' : Approval) (s s' : State W)
      (ss : List Statement)
      → IsKeyed checkpoint_key s.checkpoints
      → has_called (resume_graph g clock a r s).1 ≡ true
      → s'.checkpoints ≡ execute_all ss (resume_graph g clock a r s).0.checkpoints
      → checkpoint_of r' ≡ checkpoint_of r
      → Untouched s' (resume_graph g clock' a' r' s').0
        × (has_called (resume_graph g clock' a' r' s').1 ≡ false)
  resume_graph_once clock clock' a a' r r' s s' ss keyed h after same =
      let (spent, keyed') = resume_graph-IsClosed clock a r s keyed h in
      resume_graph-unclaimed clock' a' r' s' (
        rw (after, same)
          (consumed_never_claimed ss (checkpoint_of r) a' clock'.claimed_at _ keyed' spent))
