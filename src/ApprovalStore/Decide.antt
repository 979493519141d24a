-- ===== src/ApprovalStore/Decide.antt =====
-- What each operation of app/storage/approval_store.py does to the rows that a client reads.
use mathlib.Core.Option
use project_b_multi_agent.ApprovalStore.{
  Approval, Approvals, Request, approval_key, approved, create_approval, decide_approval,
  decide_update, get_approval, is_pending, new_approval, payload_of, pending, rejected,
  stored_payload, update_payload, write_payload,
}
use project_b_multi_agent.GraphRun.{stored}
use project_b_multi_agent.Json.{Fields, end, field, merge}
use project_b_multi_agent.Prelude.{
  Bool, Option, String, ap, arith, eq_iff, eq_refl, false, if_yes, if◌then◌else◌, none, refl, some,
  sym, true, ℕ, ◌==◌, ◌∙◌, ◌≡◌,
}
use project_b_multi_agent.Prelude.Table.{
  amend, select-append, select-update_key, select-update_key_all,
}

-- The row that a first decision leaves.
abbrev pub decided : Bool → ℕ → String → String → Approval → Approval
decided approve now decided_by reason r = record r {
  status = if approve then approved else rejected;
  decided_at = some now;
  decided_by = some decided_by;
  decision_reason = some reason;
}

abbrev pub with_payload : Fields → Approval → Approval
with_payload d r = record r { payload = some d }

get_approval-new_approval :
    (approval_id : String) (now : ℕ) (q : Request) (rows : Approvals) {rows' : Approvals}
    → create_approval approval_id now q rows ≡ some rows'
    → (j : String)
    → get_approval j rows'
      ≡ (if approval_id == j then some (new_approval approval_id now q) else get_approval j rows)
unfolding create_approval get_approval
get_approval-new_approval approval_id now q rows h j = ground (
  arith,
  eq_iff approval_id j,
  select-append approval_key j rows (new_approval approval_id now q),
)

-- an empty payload is stored as none
abbrev pub IsKept : Option Fields → Option Fields → Type 0
IsKept none stored = stored ≡ none
IsKept (some end) stored = stored ≡ none
IsKept (some (field k v d)) stored = stored ≡ some (field k v d)

-- the row of a request that nobody has decided
abbrev pub IsNewRow : String → ℕ → Request → Approval → Type 0
IsNewRow approval_id now q r =
    (r.approval_id ≡ approval_id)
    × (r.task_id ≡ q.task_id)
    × (r.tool_name ≡ q.tool_name)
    × (r.action ≡ q.action)
    × (r.risk_level ≡ q.risk_level)
    × (r.impact_scope ≡ q.impact_scope)
    × (r.agent_reason ≡ q.agent_reason)
    × (r.status ≡ pending)
    × (r.requested_at ≡ now)
    × (r.decided_at ≡ none)
    × (r.decided_by ≡ none)
    × (r.decision_reason ≡ none)
    × IsKept q.payload r.payload

stored_payload-IsKept : (payload : Option Fields) → IsKept payload (stored_payload payload)
stored_payload-IsKept none = refl
stored_payload-IsKept (some end) = refl
stored_payload-IsKept (some (field k v d)) = refl

-- A created approval is found under its id with what was requested, pending, undecided and with no
-- payload where the request's is empty. Every other row is as before.
pub get_approval-create_approval :
    (approval_id : String) (now : ℕ) (q : Request) (rows : Approvals) {rows' : Approvals}
    → create_approval approval_id now q rows ≡ some rows'
    → ((r : Approval) × (get_approval approval_id rows' ≡ some r) × IsNewRow approval_id now q r)
      × ((j : String)
          → get_approval j rows'
            ≡ (if approval_id == j then get_approval approval_id rows' else get_approval j rows))
get_approval-create_approval approval_id now q rows h =
    let row = get_approval-new_approval approval_id now q rows h in
    (
      (
        new_approval approval_id now q,
        row approval_id ∙ if_yes _ _ _ (eq_refl approval_id),
        (
          refl,
          refl,
          refl,
          refl,
          refl,
          refl,
          refl,
          refl,
          refl,
          refl,
          refl,
          refl,
          stored_payload-IsKept q.payload,
        ),
      ),
      λ j.
          row j
          ∙ ap (λ new. if approval_id == j then new else get_approval j rows)
              (sym (row approval_id ∙ if_yes _ _ _ (eq_refl approval_id))),
    )

pub get_approval-decide_update :
    (approval_id : String) (approve : Bool) (now : ℕ) (decided_by reason : String)
    (rows : Approvals) (j : String)
    → get_approval j (decide_update approval_id approve now decided_by reason rows) ≡ (
        if approval_id == j
        then Option.map
            (amend (λ r. is_pending r.status) (decided approve now decided_by reason))
            (get_approval j rows)
        else get_approval j rows)
unfolding get_approval decide_update
get_approval-decide_update approval_id approve now decided_by reason rows j =
    select-update_key approval_key _ _ (λ r. refl) approval_id j rows

pub get_approval-write_payload :
    (approval_id : String) (payload : Fields) (rows : Approvals) (j : String)
    → get_approval j (write_payload approval_id payload rows) ≡ (
        if approval_id == j
        then Option.map (with_payload payload) (get_approval j rows)
        else get_approval j rows)
unfolding get_approval write_payload
get_approval-write_payload approval_id payload rows j =
    select-update_key_all approval_key _ (λ r. refl) approval_id j rows

-- `decide_approval` decides a pending approval: the row is set as asked and returned, no other
-- row changes, and no error is reported.
pub decide_approval-pending :
    (approval_id : String) (approve : Bool) (now : ℕ) (decided_by reason : String)
    (rows : Approvals) {r : Approval}
    → get_approval approval_id rows ≡ some r
    → is_pending r.status ≡ true
    → let (rows', answer) = decide_approval approval_id approve now decided_by reason rows in
      let r' = decided approve now decided_by reason r in
      (answer ≡ some (record { row = r'; already_decided = false; decision_error = none }))
      × ((j : String)
          → get_approval j rows' ≡ (if approval_id == j then some r' else get_approval j rows))
unfolding decide_approval
decide_approval-pending approval_id approve now decided_by reason rows h p =
    let at_key =
      λ (j : String). get_approval-decide_update approval_id approve now decided_by reason rows j in
    (
      ground (arith, at_key approval_id, eq_refl approval_id),
      λ j. ground (arith, at_key j, eq_iff approval_id j),
    )

-- A second decision changes no row: it returns the row as it is, marked as already decided.
decide_approval-decided :
    (approval_id : String) (approve : Bool) (now : ℕ) (decided_by reason : String)
    (rows : Approvals) {r : Approval}
    → get_approval approval_id rows ≡ some r
    → is_pending r.status ≡ false
    → let (rows', answer) = decide_approval approval_id approve now decided_by reason rows in
      (rows' ≡ rows)
      × (Option.map {B = Approval × Bool} (λ d. (d.row, d.already_decided)) answer ≡ some (r, true))
unfolding decide_approval
decide_approval-decided approval_id approve now decided_by reason rows h p = ground arith

-- `update_payload` merges the update into the payload of the row and changes nothing else: the
-- row keeps its status, and every other row is as before.
pub update_payload_lem :
    (approval_id : String) (u : Fields) (rows : Approvals) {r : Approval}
    → get_approval approval_id rows ≡ some r
    → let (rows', answer) = update_payload approval_id u rows in
      let r' = with_payload (merge (payload_of r.payload) u) r in
      (answer ≡ some r')
      × ((j : String)
          → get_approval j rows' ≡ (if approval_id == j then some r' else get_approval j rows))
unfolding update_payload
update_payload_lem approval_id u rows {r} h =
    let at_key = λ (j : String).
      get_approval-write_payload approval_id (merge (payload_of r.payload) u) rows j in
    (
      ground (arith, at_key approval_id, eq_refl approval_id),
      λ j. ground (arith, at_key j, eq_iff approval_id j),
    )
