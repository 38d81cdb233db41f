-- ===== src/Tests/Retry.antt =====
-- The retry loop at a concrete input.
use ocache.Base.{false, if◌then◌else◌, ltb, none, refl, some, true, ℕ, ◌≡◌}
use ocache.Retry.Attempts.{World, do_with_key, error, success}
use ocache.Retry.Outcomes.{Outcome, do_with_key-Outcome}

-- Two errors that may be tried again, then success.
abbrev third_time : World ℕ
third_time = record {
  done_before = λ i. false;
  done_waiting = λ i. false;
  run_operation = λ i. if ltb i 2 then some i else none;
  is_retryable = λ e. true;
}

do_with_key-Outcome_example : Outcome third_time 0 5 (do_with_key third_time 5)
do_with_key-Outcome_example = do_with_key-Outcome third_time 5

three_calls : do_with_key third_time 5 ≡ (3, success)
unfolding do_with_key
three_calls = refl

out_of_retries : do_with_key third_time 1 ≡ (2, error 1)
unfolding do_with_key
out_of_retries = refl
