-- ===== src/Gateway/Retry.antt =====
-- The retries of a call (app/harness/gateway/tool_gateway.py).
use native.Mathlib.Numerals.{add-one}
use native.Mathlib.Nat.{add-suc, suc-add, zero-add}
use project_b_multi_agent.Gateway.{ToolCallRecord}
use project_b_multi_agent.Gateway.Call.{call_with_retry, retry_loop, with_count}
use project_b_multi_agent.Prelude.{
  Bool-cases, arith, false, if_no, if_yes, inl, inr, refl, suc, true, zero, ℕ, ℕ_discrete, ◌+◌, ◌<◌,
  ◌∙◌, ◌≡◌, ◌≤◌, ◌⊎◌,
}

module _ {W : Type 0} (attempt : W → ToolCallRecord × W) where
  -- the record and the world after attempt `k`, counted from 0, if none is skipped
  pub nth_attempt : ℕ → W → ToolCallRecord × W
  nth_attempt zero w = attempt w
  nth_attempt (suc k) w = nth_attempt k (attempt w).1

  abbrev counted : ℕ → ToolCallRecord × W → ToolCallRecord × W
  counted k (r, w) = (with_count k r, w)

  -- the answer is attempt `k` with its number written in, all attempts before it failed, and it
  -- succeeded or was the last of `1 + max_retries`
  pub record IsFirstSuccess (max_retries : ℕ) (w : W) (answer : ToolCallRecord × W) : Type 0 where
    pub within : answer.0.retry_count ≤ max_retries
    pub attempted : answer ≡ counted answer.0.retry_count (nth_attempt answer.0.retry_count w)
    pub failed_before : (j : ℕ) → j < answer.0.retry_count → (nth_attempt j w).0.success ≡ false
    pub ends : (answer.0.success ≡ true) ⊎ (answer.0.retry_count ≡ max_retries)

  nth_attempt-suc : (k : ℕ) (w : W) → nth_attempt (suc k) w ≡ attempt (nth_attempt k w).1
  unfolding nth_attempt
  nth_attempt-suc zero w = refl
  nth_attempt-suc (suc k) w = nth_attempt-suc k (attempt w).1

  fails_to :
      (count : ℕ) (w : W)
      → ((j : ℕ) → j < count → (nth_attempt j w).0.success ≡ false)
      → (nth_attempt count w).0.success ≡ false
      → (j : ℕ) → j < suc count
      → (nth_attempt j w).0.success ≡ false
  fails_to count w before now j h = elim (ℕ_discrete j count) [
    | yes e ↦ rw e now
    | no ne ↦ before j (omega arith)
  ]

  retry_loop_done :
      (left count : ℕ) (s : ToolCallRecord × W)
      → s.0.success ≡ true
      → retry_loop attempt (suc left) count s ≡ counted count s
  unfolding retry_loop
  retry_loop_done left count s done = if_yes s.0.success _ _ done

  retry_loop_again :
      (left count : ℕ) (s : ToolCallRecord × W)
      → s.0.success ≡ false
      → retry_loop attempt (suc left) count s ≡ retry_loop attempt left (suc count) (attempt s.1)
  unfolding retry_loop
  retry_loop_again left count s again = if_no s.0.success _ _ again ∙ rw add-one

  retry_loop-IsFirstSuccess :
      (left count : ℕ) (w : W)
      → ((j : ℕ) → j < count → (nth_attempt j w).0.success ≡ false)
      → IsFirstSuccess (count + left) w (retry_loop attempt left count (nth_attempt count w))
  retry_loop-IsFirstSuccess zero count w before =
      unfold retry_loop in
      record {
        within = omega arith;
        attempted = refl;
        failed_before = before;
        ends = inr (omega arith);
      }
  retry_loop-IsFirstSuccess (suc left) count w before =
      elim (Bool-cases (nth_attempt count w).0.success) [
        | inl done ↦ rw (retry_loop_done left count (nth_attempt count w) done) (record {
          within = omega arith;
          attempted = refl;
          failed_before = before;
          ends = inl done;
        })
        | inr again ↦
            let rest =
              retry_loop-IsFirstSuccess left (suc count) w (fails_to count w before again) in
            rw (retry_loop_again left count (nth_attempt count w) again, ← nth_attempt-suc count w)
              (rw (add-suc, ← suc-add) rest)
      ]

  -- A call with retries makes its attempts in turn: it returns the first that succeeds, or the
  -- last of `1 + max_retries`, with its number as `retry_count` and the world as it left it.
  pub call_with_retry_lem :
      (max_retries : ℕ) (w : W)
      → IsFirstSuccess max_retries w (call_with_retry attempt max_retries w)
  unfolding call_with_retry nth_attempt
  call_with_retry_lem max_retries w =
      rw zero-add at (retry_loop-IsFirstSuccess max_retries 0 w (λ j h. elim h [ ]))
