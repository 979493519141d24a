-- ===== src/GraphRun/Approved.antt =====
-- A high-risk keyword run on the graph runtime, from the question to the call that a person
-- approved (app/agent/graph/runtime_adapter.py, app/storage/approval_store.py,
-- app/agent/graph/resume_adapter.py).
use project_b_multi_agent.ApprovalStore.{get_approval}
use project_b_multi_agent.CheckpointStore.{
  blocked, checkpoint_key, get_checkpoint, interrupted, running,
}
use project_b_multi_agent.Context.{dump_context}
use project_b_multi_agent.Gateway.{ToolSpec, get_tool}
use project_b_multi_agent.GraphRun.{Adapter, Machine, Run, checkpoint_id_at, row_at}
use project_b_multi_agent.GraphRun.Interrupted.{
  Adds, AwaitsPerson, Returns, and_then-Returns, approval_id_at, checkpoint-Adds,
  hold_for_approval-AwaitsPerson,
}
use project_b_multi_agent.GraphRun.Responses.{base_response, initial_state, plan_dict}
use project_b_multi_agent.GraphRun.Stages.{
  begin, context_at, decision_on, hold, needs_person, report_error, run_keyword, run_plan,
  run_stages,
}
use project_b_multi_agent.Json.{Fields, obj, put, text}
use project_b_multi_agent.Keyword.{plan}
use project_b_multi_agent.Prelude.{
  Bool, Option, String, eq_refl, false, if_split, if◌then◌else◌, none, refl, some, true, ℕ, ◌+◌,
  ◌==◌, ◌∙◌, ◌≡◌,
}
use project_b_multi_agent.Prelude.Table.{IsKeyed}
use project_b_multi_agent.Raise.{Attempt, done, failed_with, recover}
use project_b_multi_agent.Resume.{State}

module _ {W : Type 0} (env : Adapter W) (task_id query : String) where
  abbrev pub id_at : String → ℕ → String
  id_at stage draw = checkpoint_id_at task_id stage (env.uuid draw)

  -- The ids that a run draws are new: none is in a table, and its three checkpoints' ids differ.
  pub record FreshIds (stores : State W) (n : ℕ) : Type 0 where
    pub assembled : get_checkpoint (id_at "assemble_context" n) stores.checkpoints ≡ none
    pub planned : get_checkpoint (id_at "plan" (n + 1)) stores.checkpoints ≡ none
    pub executed : get_checkpoint (id_at "execute" (n + 1 + 1)) stores.checkpoints ≡ none
    pub first_two : (id_at "assemble_context" n == id_at "plan" (n + 1)) ≡ false
    pub first_last : (id_at "assemble_context" n == id_at "execute" (n + 1 + 1)) ≡ false
    pub last_two : (id_at "plan" (n + 1) == id_at "execute" (n + 1 + 1)) ≡ false
    pub approval : get_approval (approval_id_at env (n + 1 + 1 + 1)) stores.approvals ≡ none
    pub keyed : IsKeyed checkpoint_key stores.checkpoints

  -- what `AwaitsPerson` says of the run's own ids, drawn from `n` on
  abbrev pub Held : State W → ℕ → ToolSpec → String → Fields → Machine W → Type 0
  Held stores n spec t =
      AwaitsPerson env task_id query stores.world spec t (id_at "execute" (n + 1 + 1))
        (approval_id_at env (n + 1 + 1 + 1))

  held_as :
      (spec : ToolSpec) (t : String) {w w' : W} {k k' a a' : String}
      (r : Attempt Fields × Machine W)
      → w ≡ w'
      → k ≡ k'
      → a ≡ a'
      → Returns (AwaitsPerson env task_id query w spec t k a) r
      → Returns (AwaitsPerson env task_id query w' spec t k' a') r
  held_as spec t r e₀ e₁ e₂ h = rw (← e₀, ← e₁, ← e₂) h

  hold-Held :
      (stores : State W) (n : ℕ) (spec : ToolSpec) (t : String) (m : Machine W)
      → env.has_approval_store ≡ true
      → m.draws ≡ n + 1 + 1
      → m.stores.world ≡ stores.world
      → m.stores.approvals ≡ stores.approvals
      → get_checkpoint (id_at "execute" (n + 1 + 1)) m.stores.checkpoints ≡ none
      → get_approval (approval_id_at env (n + 1 + 1 + 1)) stores.approvals ≡ none
      → IsKeyed checkpoint_key m.stores.checkpoints
      → Returns
          (Held stores n spec t)
          (hold env task_id query spec (decision_on env task_id query spec t) t m)
  unfolding hold
  hold-Held stores n spec t m has_store drawn world approvals free new keyed =
      let decision = decision_on env task_id query spec t in
      let status = if env.has_approval_store then interrupted else blocked in
      let before : Machine W = record m {
        state =
            put "execution_result" (obj (base_response spec decision t))
              (put "stage" (text "execute") m.state);
      } in
      let row = row_at env task_id "execute" status before in
      let found : (k : String) (m' : Machine W)
          → Adds row before k m'
          → get_checkpoint k m'.stores.checkpoints ≡ some row =
        λ k m' added. rw (added.rows, added.id, drawn, free, eq_refl) refl in
      and_then-Returns (Adds row before) (Held stores n spec t) _ _
        (checkpoint-Adds env task_id "execute" status before (rw drawn free) keyed)
        λ k m' added.
          if_split (λ (run : Run W Fields). Returns (Held stores n spec t) (run m'))
            env.has_approval_store
            (λ has.
              held_as spec t _ (added.world ∙ world) (added.id ∙ rw drawn refl)
                (rw (added.draws, drawn) refl)
                (hold_for_approval-AwaitsPerson env task_id query spec t k row m'
                  (rw (added.draws, drawn, added.approvals, approvals) new) (found k m' added) refl
                  refl added.keyed))
            λ has_none. cc (has_store, has_none)

  -- the plan names the tool `t`, which a person has to approve, and there is an approval store
  pub record NeedsApproval (spec : ToolSpec) (t : String) : Type 0 where
    pub planned : (plan env.switches env.rules query).tool_name ≡ some t
    pub matched : (plan env.switches env.rules query).matched ≡ true
    pub named : (t == "") ≡ false
    pub found : get_tool t env.gateway ≡ some spec
    pub risky : needs_person env task_id query spec (decision_on env task_id query spec t) ≡ true
    pub has_store : env.has_approval_store ≡ true

  run_plan-hold :
      (spec : ToolSpec) (t : String) (o : Option String) (matched : Bool) (m : Machine W)
      → o ≡ some t
      → matched ≡ true
      → (t == "") ≡ false
      → get_tool t env.gateway ≡ some spec
      → needs_person env task_id query spec (decision_on env task_id query spec t) ≡ true
      → run_plan env task_id query o matched m
        ≡ hold env task_id query spec (decision_on env task_id query spec t) t m
  run_plan-hold spec t o matched m o_eq m_eq named found risky =
      rw (o_eq, m_eq, named, found) (rw risky refl)

  run_stages-Held :
      (stores : State W) (n : ℕ) (spec : ToolSpec) (t : String)
      → NeedsApproval spec t
      → FreshIds stores n
      → Returns
          (Held stores n spec t)
          (run_stages env task_id query (begin env task_id query stores n))
  unfolding run_stages
  run_stages-Held stores n spec t needs fresh =
      let p = plan env.switches env.rules query in
      let before : Machine W = record {
        stores = stores;
        state =
            put "context" (obj (dump_context (context_at env task_id query (env.now n))))
              (put "stage" (text "assemble_context") (initial_state task_id query));
        draws = n;
      } in
      and_then-Returns (Adds (row_at env task_id "assemble_context" running before) before)
        (Held stores n spec t) _ _
        (checkpoint-Adds env task_id "assemble_context" running before fresh.assembled fresh.keyed)
        λ k₁ m₁ add₁.
          let planned : Machine W = record m₁ {
            state = put "plan" (obj (plan_dict p)) (put "stage" (text "plan") m₁.state);
          } in
          and_then-Returns (Adds (row_at env task_id "plan" running planned) planned)
            (Held stores n spec t) _ _
            (checkpoint-Adds env task_id "plan" running planned
              (rw (add₁.draws, add₁.rows, fresh.planned, fresh.first_two) refl) add₁.keyed)
            λ k₂ m₂ add₂.
              rw
                (run_plan-hold spec t p.tool_name p.matched m₂ needs.planned needs.matched
                  needs.named needs.found needs.risky)
                (hold-Held stores n spec t m₂ needs.has_store (rw (add₂.draws, add₁.draws) refl)
                  (add₂.world ∙ add₁.world) (add₂.approvals ∙ add₁.approvals)
                  (rw
                    (
                      add₂.rows, add₁.rows, fresh.executed, fresh.first_last, add₁.draws,
                      fresh.last_two,
                    )
                    refl)
                  fresh.approval add₂.keyed)

  recover-Returns :
      (Q : Fields → Machine W → Type 0) (r : Attempt Fields × Machine W)
      → Returns Q r
      → Returns Q (recover r (report_error env task_id query))
  recover-Returns Q (done d, m) h = h
  recover-Returns Q (failed_with e, m) h = absurd h

  -- A keyword run whose plan names a registered tool that a person has to approve, with an approval
  -- store and with ids that are new, returns: the answer names a pending approval in the store, the
  -- approval names a checkpoint, and the checkpoint is interrupted for that approval and not
  -- consumed. The world outside is as it was.
  pub run_keyword-AwaitsPerson :
      (stores : State W) (n : ℕ) (spec : ToolSpec) (t : String)
      → NeedsApproval spec t
      → FreshIds stores n
      → Returns (Held stores n spec t) (run_keyword env task_id query stores n)
  unfolding run_keyword
  run_keyword-AwaitsPerson stores n spec t needs fresh =
      recover-Returns (Held stores n spec t) _ (run_stages-Held stores n spec t needs fresh)
