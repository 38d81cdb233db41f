-- ===== src/Retry/Attempts.antt =====
-- storage/retry/retry.go: the attempts of DoWithKey. The context and the operation answer by the number of
-- the attempt; the delays, which are float64 arithmetic with random jitter, are left out, and the number
-- of retries is not negative.
use ocache.Base.{Bool, Option, if◌then◌else◌, none, not, some, suc, zero, ℕ}

pub record World (E : Type 0) : Type 0 where
  -- ctx.Done() before an attempt, and during the wait behind it
  pub done_before : ℕ → Bool
  pub done_waiting : ℕ → Bool
  -- what the operation returns: an error, or none
  pub run_operation : ℕ → Option E
  pub is_retryable : E → Bool

pub data Returned (E : Type 0) : Type 0 where
  success timeout : Returned E
  error : E → Returned E

-- An attempt, `again` being what follows a retryable error.
abbrev pub attempt : {E : Type 0} → World E → ℕ → (E → ℕ × Returned E) → ℕ × Returned E
attempt w i again = if w.done_before i then (i, timeout) else elim (w.run_operation i) [
  | none ↦ (suc i, success)
  | some e ↦ if not (w.is_retryable e) then (suc i, error e) else again e
]

-- From the attempt `i` on, with so many retries left: the number of calls of the operation, and what is
-- returned.
unfoldable pub attempts : {E : Type 0} → World E → ℕ → ℕ → ℕ × Returned E
attempts w zero i = attempt w i (λ e. (suc i, error e))
attempts w (suc left) i =
    let later = attempts w left (suc i) in
    attempt w i (λ e. if w.done_waiting i then (suc i, timeout) else later)

unfoldable pub do_with_key : {E : Type 0} → World E → ℕ → ℕ × Returned E
unfolding attempts
do_with_key w max_retries = attempts w max_retries 0
