-- ===== src/Protect/Examples.antt =====
-- The theorems on protect at concrete runs.
use durarun_operator.Prelude.{
  ℕ, ℤ, pos, negsuc, ltb, Bool, false, ◌≡◌, refl, Option, none, some, if◌then◌else◌,
}
use durarun_operator.Protect.{
  RunError, step_error, RetryConfig, exponential_backoff, further_attempts, run_from, execute,
  retry_delay,
}
use durarun_operator.Protect.Runs.{RunsFrom, execute-RunsFrom}

abbrev three_attempts : RetryConfig
three_attempts = record {
  max_attempts = pos 3;
  initial_delay = 1000000000;
  max_delay = 60000000000;
  backoff = exponential_backoff;
  retry_on = none;
}

-- The first run fails, and the others succeed.
abbrev flaky : ℕ → Option RunError
flaky n = if ltb n 2 then some (step_error "busy") else none

abbrev never : ℕ → Bool
never n = false

execute-RunsFrom_example :
    RunsFrom flaky never none 1
      (further_attempts three_attempts)
      (execute flaky never three_attempts)
execute-RunsFrom_example = execute-RunsFrom flaky never three_attempts

execute-flaky : execute flaky never three_attempts ≡ (2, none)
unfolding execute run_from
execute-flaky = refl

-- From attempt 35 on, a second shifted left passes the largest int64, and the cap does not apply.
retry_delay-negative : retry_delay three_attempts 35 ≡ negsuc 1266874889709551615
unfolding retry_delay durarun_operator.Prelude.to_int64
retry_delay-negative = refl
