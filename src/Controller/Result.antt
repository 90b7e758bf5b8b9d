-- ===== src/Controller/Result.antt =====
-- internal/controller/result_reconciler.go: an envelope that a runner sent, applied to its attempt.
-- The message texts of the conditions are not modelled, except for their fixed parts.
use durarun_operator.Prelude.{
  ℤ, pos, eq_ℤ, to_int32, String, ◌≡◌, ◌≢◌, refl, Bool, true, false, ◌&&◌, ◌||◌, not, Option, none,
  some, str_eq, if◌then◌else◌, Bool-cases, inl, inr,
}
use durarun_operator.State.{
  ConditionApi, condition_true, set_attempt_condition, attempt_condition_complete,
  attempt_condition_failed, is_attempt_terminal, is_attempt_succeeded,
}
use durarun_operator.State.Attempts.{attempt-set_complete, attempt-set_failed}
use durarun_operator.Api.{
  AgentJob, AgentAttempt, AgentAttemptStatus, ErrorCategory, infra, user, timeout, oom, unknown,
  no_category, other_category,
}
use durarun_operator.Controller.Fencing.{FencingReason, ManifestEnvelope, validate_fencing}
use durarun_operator.Controller.Classify.{classify_error}

-- v1alpha1.ErrorCategory(s)
unfoldable pub to_category : String → ErrorCategory
to_category s =
    if str_eq s ""
    then no_category
    else if str_eq s "Infra"
    then infra
    else if str_eq s "User"
    then user
    else if str_eq s "Timeout"
    then timeout
    else if str_eq s "OOM"
    then oom
    else if str_eq s "Unknown"
    then unknown
    else other_category s

abbrev pub is_unknown : ErrorCategory → Bool
is_unknown unknown = true
is_unknown infra = false
is_unknown user = false
is_unknown timeout = false
is_unknown oom = false
is_unknown no_category = false
is_unknown (other_category s) = false

-- The category of step 2, with the envelope's own where the exit code says nothing.
unfoldable pub result_category : ManifestEnvelope → ErrorCategory
unfolding classify_error to_category
result_category envelope =
    let category =
      classify_error
        (some (record {
          exit_code = envelope.result.exit_code;
          signal = envelope.result.signal;
          oom_killed = false;
          error = "";
        }))
        none in
    if not (str_eq envelope.result.error_category "") && is_unknown category
    then to_category envelope.result.error_category
    else category

module _ ⦃api : ConditionApi⦄ where
  -- Steps 3 and 4.
  pub record_result : ℤ → AgentAttempt → ManifestEnvelope → AgentAttempt
  record_result now attempt envelope =
      let r = envelope.result in
      let status = attempt.status in
      let filled : AgentAttemptStatus = record status {
        exit_code = some (to_int32 r.exit_code);
        signal = if eq_ℤ r.signal (pos 0) then status.signal else some (to_int32 r.signal);
        error_category = result_category envelope;
        completion_time = some now;
      } in
      record attempt {
        status = record filled {
          conditions =
              if eq_ℤ r.exit_code (pos 0)
              then set_attempt_condition status.conditions attempt_condition_complete condition_true
                  "ProcessExitZero" "process exited with code 0" now
              else set_attempt_condition status.conditions attempt_condition_failed condition_true
                  "ProcessFailed" "process exited with code" now;
        };
      }

  recorded :
      (now : ℤ) (attempt : AgentAttempt) (envelope : ManifestEnvelope)
      → let after = record_result now attempt envelope in
        (is_attempt_terminal after.status.conditions ≡ true)
        × (after.status.exit_code ≡ some (to_int32 envelope.result.exit_code))
        × (after.status.completion_time ≡ some now)
        × (is_attempt_succeeded after.status.conditions ≡ (
            eq_ℤ envelope.result.exit_code (pos 0)
            || is_attempt_succeeded attempt.status.conditions))
  unfolding record_result
  recorded now attempt envelope =
      let cs = attempt.status.conditions in
      let done = attempt-set_complete cs "ProcessExitZero" "process exited with code 0" now in
      let failed = attempt-set_failed cs "ProcessFailed" "process exited with code" now in
      elim (Bool-cases (eq_ℤ envelope.result.exit_code (pos 0))) [
        | inl e ↦ (rw e done.0, refl, refl, rw e done.1)
        | inr e ↦ (rw e failed.0, refl, refl, rw e failed.1)
      ]

  by_verdict :
      Option FencingReason
      → ℤ
      → AgentAttempt
      → ManifestEnvelope
      → Option FencingReason × AgentAttempt
  unfolding record_result
  by_verdict (some reason) now attempt envelope = (some reason, attempt)
  by_verdict none now attempt envelope = (none, record_result now attempt envelope)

  -- ReconcileResult: the error, and the attempt afterwards.
  unfoldable pub reconcile_result :
      ℤ → AgentJob → AgentAttempt → ManifestEnvelope → Option FencingReason × AgentAttempt
  unfolding by_verdict
  reconcile_result now job attempt envelope =
      by_verdict (validate_fencing job attempt envelope) now attempt envelope

  -- What is said of an attempt after a verdict.
  abbrev Outcome :
      Option FencingReason
      → ℤ
      → AgentAttempt
      → ManifestEnvelope
      → Option FencingReason × AgentAttempt
      → Type 0
  Outcome verdict now attempt envelope result =
      let after = result.1 in
      (result.0 ≡ verdict)
      × (result.0 ≢ none → after ≡ attempt)
      × (result.0 ≡ none
          → (is_attempt_terminal after.status.conditions ≡ true)
            × (after.status.exit_code ≡ some (to_int32 envelope.result.exit_code))
            × (after.status.completion_time ≡ some now)
            × (is_attempt_succeeded after.status.conditions ≡ (
                eq_ℤ envelope.result.exit_code (pos 0)
                || is_attempt_succeeded attempt.status.conditions)))

  by_verdict-Outcome :
      (verdict : Option FencingReason) (now : ℤ) (attempt : AgentAttempt)
      (envelope : ManifestEnvelope)
      → Outcome verdict now attempt envelope (by_verdict verdict now attempt envelope)
  unfolding by_verdict
  by_verdict-Outcome none now attempt envelope =
      (refl, λ n. absurd (n refl), λ o. recorded now attempt envelope)
  by_verdict-Outcome (some r) now attempt envelope = (refl, λ n. refl, λ o. cc)

  -- A rejected envelope leaves the attempt as it was. An accepted one makes the attempt terminal,
  -- with the time and the exit code as an int32; an exit code 0 makes it succeeded, and another
  -- leaves it succeeded only if it was before.
  pub reconcile_result_outcome :
      (now : ℤ) (job : AgentJob) (attempt : AgentAttempt) (envelope : ManifestEnvelope)
      → let after = (reconcile_result now job attempt envelope).1 in
        let error = (reconcile_result now job attempt envelope).0 in
        (error ≡ validate_fencing job attempt envelope)
        × (error ≢ none → after ≡ attempt)
        × (error ≡ none
            → (is_attempt_terminal after.status.conditions ≡ true)
              × (after.status.exit_code ≡ some (to_int32 envelope.result.exit_code))
              × (after.status.completion_time ≡ some now)
              × (is_attempt_succeeded after.status.conditions ≡ (
                  eq_ℤ envelope.result.exit_code (pos 0)
                  || is_attempt_succeeded attempt.status.conditions)))
  unfolding reconcile_result
  reconcile_result_outcome now job attempt envelope =
      by_verdict-Outcome (validate_fencing job attempt envelope) now attempt envelope
