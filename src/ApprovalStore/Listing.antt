-- ===== src/ApprovalStore/Listing.antt =====
-- What `list_approvals` of app/storage/approval_store.py returns. The database's ORDER BY is a
-- parameter: it returns the rows that it is given, each as often as before.
use project_b_multi_agent.ApprovalStore.{
  Approval, ApprovalStatus, Approvals, Limit, approved, clamp_limit, filter_status, list_approvals,
  nat, negative, pending, rejected, same_status,
}
use project_b_multi_agent.Prelude.{
  All, Bool-cases, Option, [], arith, inl, inr, length, length-take-le, none, refl, some, suc, take,
  true, zero, ℕ, ◌∷◌, ◌≡◌, ◌≤◌,
}

pub record ReordersRows (newest_first : Approvals → Approvals) : Type 1 where
  pub keeps : (P : Approval → Type 0) (rows : Approvals) → All P rows → All P (newest_first rows)
  pub same_length : (rows : Approvals) → length (newest_first rows) ≡ length rows

-- the row has the status that was asked for, if one was
abbrev pub HasStatus : Option ApprovalStatus → Approval → Type 0
HasStatus none r = Unit
HasStatus (some s) r = r.status ≡ s

same_status_sound : (a b : ApprovalStatus) → same_status a b ≡ true → a ≡ b
same_status_sound pending pending h = refl
same_status_sound pending approved h = cc
same_status_sound pending rejected h = cc
same_status_sound approved pending h = cc
same_status_sound approved approved h = refl
same_status_sound approved rejected h = cc
same_status_sound rejected pending h = cc
same_status_sound rejected approved h = cc
same_status_sound rejected rejected h = refl

module _ (P : Approval → Type 0) where
  with_no_status : (rows : Approvals) → All P rows → All (λ r. P r × HasStatus none r) rows
  with_no_status [] h = tt
  with_no_status (r ∷ rows) (p, h) = ((p, tt), with_no_status rows h)

  filter_status-All :
      (status : Option ApprovalStatus) (rows : Approvals)
      → All P rows
      → All (λ r. P r × HasStatus status r) (filter_status status rows)
  filter_status-All none rows h = with_no_status rows h
  filter_status-All (some s) [] h = tt
  filter_status-All (some s) (r ∷ rows) (p, h) =
      let rest = filter_status-All (some s) rows h in
      elim (Bool-cases (same_status r.status s)) [
        | inl same ↦ rw same ((p, same_status_sound r.status s same), rest)
        | inr other ↦ rw other rest
      ]

take-All : (P : Approval → Type 0) (n : ℕ) (rows : Approvals) → All P rows → All P (take n rows)
take-All P zero rows h = tt
take-All P (suc n) [] h = tt
take-All P (suc n) (r ∷ rows) (p, h) = (p, take-All P n rows h)

clamp_limit-le : (limit : Limit) → clamp_limit limit ≤ 100
clamp_limit-le negative = omega arith
clamp_limit-le (nat n) = ground arith

-- Whatever limit is asked for and however the database orders the rows, `list_approvals` returns at most 100 rows, each of them a row of
-- the table with the status that was asked for, if one was.
pub list_approvals_sound :
    (newest_first : Approvals → Approvals) (status : Option ApprovalStatus) (limit : Limit)
    (rows : Approvals) (P : Approval → Type 0)
    → ReordersRows newest_first
    → All P rows
    → All (λ r. P r × HasStatus status r) (list_approvals newest_first status limit rows)
      × (length (list_approvals newest_first status limit rows) ≤ 100)
unfolding list_approvals
list_approvals_sound newest_first status limit rows P order h = (
  take-All _ (clamp_limit limit) _ (order.keeps _ _ (filter_status-All P status rows h)),
  omega (
    arith,
    length-take-le (clamp_limit limit) (newest_first (filter_status status rows)),
    clamp_limit-le limit,
  ),
)
