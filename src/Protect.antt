-- ===== src/Protect.antt =====
-- protect/retry.go: a step that is run again when it fails.
--
-- `fn k` is what the k-th run of the step returns, `none` for nil, and `cancelled k` says whether the
-- context ends during the wait after it. Delays are natural numbers of nanoseconds; `onRetry` and
-- the wait itself are left out.
pub mod Runs
mod Examples
use durarun_operator.Prelude.{
  ℕ, zero, suc, ◌+◌, ◌-◌, ◌*◌, ◌^◌, ℤ, pos, ltb_ℤ, to_int64, Bool, true, false, not, ◌&&◌, Option,
  none, some, String, ltb, ◌==◌, if◌then◌else◌, List,
}

pub data BackoffType : Type 0 where
  no_backoff exponential_backoff : BackoffType

pub data RunError : Type 0 where
  step_error : String → RunError
  context_error : RunError

-- `retry_on` is `none` for nil. The number of attempts is an int.
pub record RetryConfig : Type 0 where
  pub max_attempts : ℤ
  pub initial_delay : ℕ
  pub max_delay : ℕ
  pub backoff : BackoffType
  pub retry_on : Option (RunError → Bool)

abbrev cap_delay : ℕ → ℤ → ℤ
cap_delay limit delay = if ltb 0 limit && ltb_ℤ (pos limit) delay then pos limit else delay

-- The delay after an attempt; the shift is one of int64.
unfoldable pub retry_delay : RetryConfig → ℕ → ℤ
retry_delay cfg attempt = elim cfg.backoff [
  | no_backoff ↦ pos cfg.initial_delay
  | exponential_backoff ↦
      cap_delay cfg.max_delay (to_int64 (pos (cfg.initial_delay * 2 ^ (attempt - 1))))
]

abbrev pub is_retried : Option (RunError → Bool) → RunError → Bool
is_retried none e = true
is_retried (some p) e = p e

-- The number of attempts that are left after the first.
abbrev pub further_attempts : RetryConfig → ℕ
further_attempts cfg = elim cfg.max_attempts [
  | durarun_operator.Prelude.pos n ↦ n - 1
  | durarun_operator.Prelude.negsuc n ↦ 0
]

module _ (fn : ℕ → Option RunError) (cancelled : ℕ → Bool) where
  after_run :
      Option RunError → Option (RunError → Bool) → ℕ → ℕ × Option RunError → ℕ × Option RunError
  after_run none retry_on attempt next = (attempt, none)
  after_run (some e) retry_on attempt next =
      if not (is_retried retry_on e)
      then (attempt, some e)
      else if cancelled attempt
      then (attempt, some context_error)
      else next

  -- The loop, with the number of attempts that may follow this one.
  unfoldable pub run_from : Option (RunError → Bool) → ℕ → ℕ → ℕ × Option RunError
  unfolding after_run
  run_from retry_on zero attempt = (attempt, fn attempt)
  run_from retry_on (suc n) attempt =
      after_run (fn attempt) retry_on attempt (run_from retry_on n (suc attempt))

  -- Execute: the number of attempts and the error.
  unfoldable pub execute : RetryConfig → ℕ × Option RunError
  unfolding run_from
  execute cfg = run_from cfg.retry_on (further_attempts cfg) 1
