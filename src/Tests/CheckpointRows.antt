-- ===== src/Tests/CheckpointRows.antt =====
-- The theorems on checkpoints, at a table of two.
use project_b_multi_agent.CheckpointStore.{
  Checkpoint, at, checkpoint_key, claim_for_resume, expire_old, get_checkpoint,
}
use project_b_multi_agent.CheckpointStore.Claims.{
  IsOpen, claim_for_resume_lem, expire_old_lem, expired_if, row_as_claimed,
}
use project_b_multi_agent.CheckpointStore.History.{
  Statement, chances, claim_row, consumed_never_claimed, credit, execute_all, wins, wins_le,
}
use project_b_multi_agent.Prelude.{List, [], map, none, refl, some, ◌+◌, ◌↔◌, ◌∷◌, ◌≡◌, ◌≤◌}
use project_b_multi_agent.Prelude.Table.{IsKeyed, count_where, select}
use project_b_multi_agent.Tests.{checkpoint_at, consumed_checkpoints, test_checkpoints}

keyed : IsKeyed checkpoint_key test_checkpoints
unfolding select
keyed = (refl, (refl, tt))

abbrev claims : List Statement
claims = claim_row "c1" "a1" 10 ∷ claim_row "c1" "a1" 10 ∷ []

wins_le_example :
    wins "c1" claims test_checkpoints
    ≤ credit (get_checkpoint "c1" test_checkpoints) + chances "c1" claims
wins_le_example = wins_le "c1" claims test_checkpoints keyed

consumed_never_claimed_example :
    (claim_for_resume "c1" "a1" 10 (execute_all claims consumed_checkpoints)).1 ≡ none
unfolding get_checkpoint select
consumed_never_claimed_example =
    consumed_never_claimed claims "c1" "a1" 10 consumed_checkpoints (refl, tt) refl

claim_for_resume_lem_example :
    ((claim_for_resume "c1" "a1" 10 test_checkpoints).1
      ≡ some (row_as_claimed 10 (checkpoint_at "c1" (at 100))))
    ↔ ((r : Checkpoint) × (get_checkpoint "c1" test_checkpoints ≡ some r)
        × IsOpen "a1" 10 r
        × (row_as_claimed 10 (checkpoint_at "c1" (at 100)) ≡ row_as_claimed 10 r))
claim_for_resume_lem_example =
    claim_for_resume_lem "c1" "a1" 10 test_checkpoints keyed
      (row_as_claimed 10 (checkpoint_at "c1" (at 100)))

expire_old_lem_example :
    let (rows', changed) = expire_old 10 test_checkpoints in
    (rows' ≡ map (λ r. expired_if r.consumed r.expires_at 10 r) test_checkpoints)
    × (count_where (λ r. r.consumed) rows'
        ≡ count_where (λ r. r.consumed) test_checkpoints + changed)
expire_old_lem_example = expire_old_lem 10 test_checkpoints
