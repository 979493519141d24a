-- ===== src/GraphRun/Interrupted.antt =====
-- What a keyword run that needs a person leaves in the stores (app/agent/graph/runtime_adapter.py).
use project_b_multi_agent.ApprovalStore.{
  Approvals, Request, approval_key, create_approval, get_approval, new_approval,
}
use project_b_multi_agent.CheckpointStore.{
  Checkpoint, CheckpointStatus, checkpoint_key, create_checkpoint, get_checkpoint, interrupted,
  set_interrupt, unset,
}
use project_b_multi_agent.CheckpointStore.History.{mark_pending_interrupt-IsKeyed}
use project_b_multi_agent.CheckpointStore.Rows.{get_checkpoint-mark_pending_interrupt}
use project_b_multi_agent.Gateway.{ToolSpec}
use project_b_multi_agent.GraphRun.{Adapter, Machine, Run, checkpoint, row_at}
use project_b_multi_agent.GraphRun.Responses.{
  base_response, created_answer, graph_request, held_response,
}
use project_b_multi_agent.GraphRun.Stages.{
  audit_interrupt, decision_on, hold_for_approval, interrupt_of, mark_interrupt, request_approval,
}
use project_b_multi_agent.Json.{Fields, get, is_set, join_text, merge, obj, put, text}
use project_b_multi_agent.Prelude.{
  String, [], arith, eq_refl, false, if◌then◌else◌, none, refl, some, true, ℕ, ◌++◌, ◌+◌, ◌==◌, ◌∷◌,
  ◌≡◌,
}
use project_b_multi_agent.Prelude.Table.{IsKeyed, append-IsKeyed, or_select, select-append}
use project_b_multi_agent.Raise.{Attempt, and_then, done, failed_with, give, ◌>>◌}

module _ {W : Type 0} where
  -- the run ends with a result, of which `Q` holds
  abbrev pub Returns : {A : Type 0} → (A → Machine W → Type 0) → Attempt A × Machine W → Type 0
  Returns Q (done a, m) = Q a m
  Returns Q (failed_with e, m) = ⊥

  pub and_then-Returns :
      {A B : Type 0} (P : A → Machine W → Type 0) (Q : B → Machine W → Type 0)
      (r : Attempt A × Machine W) (f : A → Run W B)
      → Returns P r
      → ((a : A) (m : Machine W) → P a m → Returns Q (f a m))
      → Returns Q (and_then r f)
  and_then-Returns P Q (done a, m) f p next = next a m p
  and_then-Returns P Q (failed_with e, m) f p next = absurd p

  -- a checkpoint was added, and nothing else was written to the stores
  pub record Adds (row : Checkpoint) (m : Machine W) (k : String) (m' : Machine W) : Type 0 where
    pub id : k ≡ row.checkpoint_id
    pub draws : m'.draws ≡ m.draws + 1
    pub approvals : m'.stores.approvals ≡ m.stores.approvals
    pub tasks : m'.stores.tasks ≡ m.stores.tasks
    pub world : m'.stores.world ≡ m.stores.world
    pub keyed : IsKeyed checkpoint_key m'.stores.checkpoints
    pub rows :
        (j : String)
        → get_checkpoint j m'.stores.checkpoints
          ≡ or_select checkpoint_key
              (get_checkpoint j m.stores.checkpoints)
              (if row.checkpoint_id == j then some row else none)

  module _ (env : Adapter W) (task_id : String) where
    -- A checkpoint whose id is not taken is stored, and `_checkpoint` returns its id.
    pub checkpoint-Adds :
        (stage : String) (status : CheckpointStatus) (m : Machine W)
        → get_checkpoint (row_at env task_id stage status m).checkpoint_id m.stores.checkpoints
          ≡ none
        → IsKeyed checkpoint_key m.stores.checkpoints
        → Returns
            (Adds (row_at env task_id stage status m) m)
            (checkpoint env task_id stage status m)
    unfolding checkpoint create_checkpoint get_checkpoint
    checkpoint-Adds stage status m free keyed = rw free (record {
      id = refl;
      draws = refl;
      approvals = refl;
      tasks = refl;
      world = refl;
      keyed = append-IsKeyed checkpoint_key m.stores.checkpoints _ keyed free;
      rows = λ j. select-append checkpoint_key j m.stores.checkpoints _;
    })

  pub after_done :
      {A B : Type 0} (Q : B → Machine W → Type 0) (r : Attempt A × Machine W) (f : A → Run W B)
      (a : A) (m : Machine W)
      → r ≡ (done a, m)
      → Returns Q (f a m)
      → Returns Q (and_then r f)
  after_done Q r f a m e h = rw e h

  abbrev pub approval_id_at : Adapter W → ℕ → String
  approval_id_at env draws = join_text ("apr_" ∷ env.uuid draws ∷ [])

  module _ (env : Adapter W) (task_id query : String) where
    new_approval-found :
        (a : String) (now : ℕ) (q : Request) (rows : Approvals)
        → get_approval a rows ≡ none
        → get_approval a (rows ++ new_approval a now q ∷ []) ≡ some (new_approval a now q)
    unfolding get_approval
    new_approval-found a now q rows free =
        ground (arith, select-append approval_key a rows (new_approval a now q), eq_refl a)

    approval_requested :
        (q : Request) (m : Machine W)
        → get_approval (approval_id_at env m.draws) m.stores.approvals ≡ none
        → let a = approval_id_at env m.draws in
          request_approval env task_id query q m ≡ (
            done a,
            record m {
              stores = record m.stores {
                approvals = m.stores.approvals ++ new_approval a (env.now m.draws) q ∷ [];
              };
              draws = m.draws + 1;
            },
          )
    unfolding request_approval create_approval
    approval_requested q m free = rw free refl

    -- What is left by a run that holds the call of tool `t`: a pending approval that names the
    -- checkpoint, the checkpoint interrupted for that approval, and the world as it was.
    pub record AwaitsPerson (w : W) (spec : ToolSpec) (t k a : String) (answer : Fields)
        (m : Machine W) : Type 0 where
      pub made : ℕ
      pub asked : ℕ
      pub row : Checkpoint
      pub found_approval :
          let decision = decision_on env task_id query spec t in
          get_approval a m.stores.approvals
          ≡ some (
              new_approval a made (
                graph_request task_id query spec decision t k
                  (interrupt_of env task_id query spec decision t k asked)))
      pub found_row : get_checkpoint k m.stores.checkpoints ≡ some row
      pub row_approval : row.approval_id ≡ some a
      pub row_status : row.status ≡ interrupted
      pub row_free : row.consumed ≡ false
      pub row_expiry : row.expires_at ≡ unset
      pub keyed : IsKeyed checkpoint_key m.stores.checkpoints
      pub world : m.stores.world ≡ w
      pub answer_approval : get "approval_id" answer ≡ some (text a)
      pub answer_success : is_set "success" answer ≡ false

    -- the writes after the approval: the checkpoint is marked, the audit trail grows
    marked-AwaitsPerson :
        (spec : ToolSpec) (t k a : String) (now made : ℕ) (answer : Fields) (row : Checkpoint)
        (m : Machine W)
        → let decision = decision_on env task_id query spec t in
          let interrupt_payload = interrupt_of env task_id query spec decision t k now in
          get_approval a m.stores.approvals
            ≡ some (
                new_approval a made
                  (graph_request task_id query spec decision t k interrupt_payload))
          → get_checkpoint k m.stores.checkpoints ≡ some row
          → row.consumed ≡ false
          → row.expires_at ≡ unset
          → IsKeyed checkpoint_key m.stores.checkpoints
          → get "approval_id" answer ≡ some (text a)
          → is_set "success" answer ≡ false
          → Returns (AwaitsPerson m.stores.world spec t k a) (
              and_then
                (mark_interrupt env task_id query k a interrupt_payload m)
                λ _. audit_interrupt env task_id query a >> give answer)
    unfolding mark_interrupt audit_interrupt
    marked-AwaitsPerson spec t k a now made answer row m asked found unconsumed lasting keyed named
          failed' =
        let p =
          interrupt_of env task_id query spec (decision_on env task_id query spec t) t k now in
        record {
          made = made;
          asked = now;
          row = set_interrupt a p (env.now m.draws) (some m.state) row;
          found_approval = asked;
          found_row =
              rw (get_checkpoint-mark_pending_interrupt k m.stores.checkpoints k, eq_refl k, found)
                refl;
          row_approval = refl;
          row_status = refl;
          row_free = unconsumed;
          row_expiry = lasting;
          keyed =
              mark_pending_interrupt-IsKeyed k a _ _ (env.now m.draws) m.stores.checkpoints keyed;
          world = refl;
          answer_approval = named;
          answer_success = failed';
        }

    pub hold_for_approval-AwaitsPerson :
        (spec : ToolSpec) (t k : String) (row : Checkpoint) (m : Machine W)
        → get_approval (approval_id_at env m.draws) m.stores.approvals ≡ none
        → get_checkpoint k m.stores.checkpoints ≡ some row
        → row.consumed ≡ false
        → row.expires_at ≡ unset
        → IsKeyed checkpoint_key m.stores.checkpoints
        → let decision = decision_on env task_id query spec t in
          Returns
            (AwaitsPerson m.stores.world spec t k (approval_id_at env m.draws))
            (hold_for_approval env task_id query spec decision t k m)
    unfolding merge put get
    hold_for_approval-AwaitsPerson spec t k row m free found unconsumed lasting keyed =
        let a = approval_id_at env m.draws in
        let now = env.now m.draws in
        let decision = decision_on env task_id query spec t in
        let q =
          graph_request task_id query spec decision t k
            (interrupt_of env task_id query spec decision t k now) in
        let answer : Fields =
          held_response (base_response spec decision t) (created_answer t) (text a) k true in
        let written : Machine W = record m {
          stores = record m.stores { approvals = m.stores.approvals ++ new_approval a now q ∷ [] };
          state = put "response" (obj answer) (put "execution_result" (obj answer) m.state);
          draws = m.draws + 1;
        } in
        after_done (AwaitsPerson m.stores.world spec t k a) _ _ _ _ (approval_requested q m free) (
          marked-AwaitsPerson spec t k a now now answer row written
            (new_approval-found a now q m.stores.approvals free) found unconsumed lasting keyed refl
            refl)
