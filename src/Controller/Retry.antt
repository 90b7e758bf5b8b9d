-- ===== src/Controller/Retry.antt =====
-- internal/controller/retry.go.
--
-- math.Pow and the product are exact here, since 5 * 10^9 has 33 bits. The conversion of a float64
-- that no int64 holds is left to the platform by Go: it is the parameter `overflow`.
use native.Mathlib.Nat.{pow-le-pow_right}
use durarun_operator.Prelude.{
  ℕ, suc, ◌*◌, ◌/◌, ◌^◌, ◌≤◌, min, ℤ, pos, negsuc, ltb_ℤ, leb_ℤ, ◌≤ℤ◌, ◌≡◌, Bool, true, false, ◌&&◌,
  arith, ltb, if◌then◌else◌,
}
use durarun_operator.Api.{
  AgentJob, ErrorCategory, infra, user, timeout, oom, unknown, no_category, other_category,
  default_max_attempts,
}

-- 5 seconds and 5 minutes, in nanoseconds
abbrev pub backoff_base_delay : ℕ
backoff_base_delay = 5000000000

abbrev pub backoff_max_delay : ℕ
backoff_max_delay = 300000000000

pub data RetryReason : Type 0 where
  attempts_exhausted : ℤ → ℤ → RetryReason
  retry_after : ErrorCategory → RetryReason
  not_retryable : RetryReason

pub record RetryDecision : Type 0 where
  pub should_retry : Bool
  pub delay : ℤ
  pub reason : RetryReason

-- `time.Duration(float64(backoffBaseDelay) * multiplier)` before the cap.
abbrev raw_backoff : (ℕ → ℤ) → ℤ → ℤ
raw_backoff overflow (pos n) =
    let d = backoff_base_delay * 2 ^ n in if ltb d (2 ^ 63) then pos d else overflow d
raw_backoff overflow (negsuc n) = pos (backoff_base_delay / 2 ^ suc n)

module _ (overflow : ℕ → ℤ) where
  unfoldable pub compute_backoff : ℤ → ℤ
  compute_backoff attempt_ordinal =
      let delay = raw_backoff overflow attempt_ordinal in
      if ltb_ℤ (pos backoff_max_delay) delay then pos backoff_max_delay else delay

  retry : ErrorCategory → ℤ → RetryDecision
  retry c delay = record { should_retry = true; delay = delay; reason = retry_after c }

  by_category : ErrorCategory → ℤ → RetryDecision
  unfolding retry
  by_category infra delay = retry infra delay
  by_category oom delay = retry oom delay
  by_category timeout delay = retry timeout delay
  by_category user delay = retry user delay
  by_category unknown delay = retry unknown delay
  by_category no_category delay = record {
    should_retry = false;
    delay = pos 0;
    reason = not_retryable;
  }
  by_category (other_category s) delay = record {
    should_retry = false;
    delay = pos 0;
    reason = not_retryable;
  }

  unfoldable pub should_retry : AgentJob → ℤ → ErrorCategory → RetryDecision
  unfolding by_category
  should_retry job failed_attempts category =
      let max_attempts =
        if leb_ℤ job.spec.execution.max_attempts (pos 0)
        then default_max_attempts
        else job.spec.execution.max_attempts in
      if leb_ℤ max_attempts failed_attempts
      then record {
        should_retry = false;
        delay = pos 0;
        reason = attempts_exhausted failed_attempts max_attempts;
      }
      else by_category category (compute_backoff failed_attempts)

abbrev pub is_retryable : ErrorCategory → Bool
is_retryable infra = true
is_retryable user = true
is_retryable timeout = true
is_retryable oom = true
is_retryable unknown = true
is_retryable no_category = false
is_retryable (other_category s) = false

-- The number of attempts that a job is given, where a value below 1 stands for the default.
abbrev pub attempt_limit : AgentJob → ℤ
attempt_limit job =
    if leb_ℤ job.spec.execution.max_attempts (pos 0)
    then default_max_attempts
    else job.spec.execution.max_attempts

module _ (overflow : ℕ → ℤ) where
  -- A failed attempt is retried exactly when its category is one of the five that the API defines
  -- and the failed attempts are fewer than the limit.
  pub should_retry_iff :
      (job : AgentJob) (failed : ℤ) (c : ErrorCategory)
      → (should_retry overflow job failed c).should_retry
        ≡ (is_retryable c && ltb_ℤ failed (attempt_limit job))
  unfolding should_retry
  should_retry_iff job failed c = ground arith

  small_power : (n : ℕ) → n ≤ 30 → 2 ^ n ≤ 2 ^ 30
  small_power n h = pow-le-pow_right (omega arith) h

  -- Up to an ordinal of 30 the delay is 5 seconds doubled once for each ordinal, at most 5 minutes.
  pub compute_backoff_exact :
      (n : ℕ)
      → n ≤ 30
      → compute_backoff overflow (pos n) ≡ pos (min (backoff_base_delay * 2 ^ n) backoff_max_delay)
  unfolding compute_backoff
  compute_backoff_exact n h = ground (arith, small_power n h)

  large_power : (n : ℕ) → 31 ≤ n → 2 ^ 31 ≤ 2 ^ n
  large_power n h = pow-le-pow_right (omega arith) h

  -- From an ordinal of 31 on the product passes the largest int64. On a platform whose conversion
  -- yields a value that is not positive, such as the smallest int64, that value is the delay, and
  -- the cap does not apply.
  pub compute_backoff-overflow :
      (n : ℕ)
      → 31 ≤ n
      → overflow (backoff_base_delay * 2 ^ n) ≤ℤ pos 0
      → compute_backoff overflow (pos n) ≡ overflow (backoff_base_delay * 2 ^ n)
  unfolding compute_backoff
  compute_backoff-overflow n h neg = ground (arith, large_power n h)
