-- ===== src/Controller/Examples.antt =====
-- The theorems on internal/controller at concrete resources.
use durarun_operator.Prelude.{
  ℕ, ◌*◌, ◌^◌, ◌-◌, min, ℤ, pos, negsuc, ltb_ℤ, leb_ℤ, eq_ℤ, to_int32, ◌+ℤ◌, ◌≡◌, ◌≢◌, refl, ◌↔◌,
  ◌⊎◌, true, false, not, ◌&&◌, ◌||◌, Option, none, some, List, [], ◌∷◌, arith, str_eq, find_if, All,
  is_some,
}
use durarun_operator.State.{
  has_true, job_condition_failed, Condition, is_job_terminal, is_attempt_terminal,
  is_attempt_succeeded,
}
use durarun_operator.State.Examples.{true_condition, listed_conditions}
use durarun_operator.Api.{AgentJob, AgentAttempt, infra, no_category}
use durarun_operator.Controller.Pods.{Pod, pod_succeeded}
use durarun_operator.Controller.Fencing.{
  ManifestEnvelope, IsCurrent, validate_fencing, validate_fencing_iff,
}
use durarun_operator.Controller.Retry.{
  should_retry, is_retryable, attempt_limit, compute_backoff, backoff_base_delay, backoff_max_delay,
  should_retry_iff, compute_backoff_exact,
}
use durarun_operator.Controller.Classify.{ProcessResult}
use durarun_operator.Controller.Result.{reconcile_result, reconcile_result_outcome}
use durarun_operator.Controller.Deadline.{IsWait, check_ttl, check_ttl_exact}
use durarun_operator.Controller.Ownership.{
  JobSnapshot, verify_attempt_ownership, is_owned, verify_attempt_ownership_iff, handle_cancel,
  is_cancelled, handle_cancel_exact, active_attempt,
}
use durarun_operator.Controller.Server.{ApiServer, answered, not_found}
use durarun_operator.Controller.Sends.{Allowed}
use durarun_operator.Controller.Attempt.{reconcile_attempt}
use durarun_operator.Controller.Attempt.Outcome.{Returned, Honest, reconcile_attempt-Honest}
use durarun_operator.Controller.Attempt.Success.{
  SucceededIs, recorded_success, reconcile_attempt-success,
}
use durarun_operator.Controller.Job.{first_violation, with_hash, reconcile}
use durarun_operator.Controller.Job.Lawful.{IsLawfulWrite}
use durarun_operator.Controller.Job.Writes.{reconcile-writes_lawfully}

-- A server that has no pod and no attempt, and accepts every write.
instance abbrev accepting : ApiServer
accepting = record {
  get_attempt = λ h name. not_found;
  get_pod = λ h name. not_found;
  create_attempt = λ h a. answered (record a { uid = "new-attempt" });
  create_pod = λ h p. answered (record p { uid = "new-pod" });
  update_attempt = λ h a. answered tt;
  update_job = λ h j. answered tt;
  own_attempt =
      λ j a. some (record a { owner_references = record { name = j.name; uid = j.uid } ∷ [] });
  own_pod = λ a p. some p;
  compute_spec_hash = λ s. s.runtime.image;
}

abbrev job_with : List Condition → AgentJob
job_with cs = record {
  name = "train";
  namespace = "default";
  uid = "job-1";
  annotations = ("durarun.io/cancel", "true") ∷ [];
  spec = record {
    runtime = record { image = "agent:1"; command = none; args = [] };
    execution = record {
      timeout = some (pos 1000);
      max_attempts = pos 3;
      backoff_limit = none;
      active_deadline_seconds = some (pos 60);
      ttl_seconds_after_finished = some (pos 10);
    };
    checkpoint = record { enabled = false; interval_seconds = pos 0; storage_ref = "" };
  };
  status = record {
    conditions = cs;
    active_attempt = some (record { name = "train-1"; ordinal = pos 1; uid = "attempt-1" });
    completed_attempts = pos 0;
    failed_attempts = pos 2;
    start_time = some (pos 5);
    completion_time = some (pos 90);
    spec_hash = "agent:1";
  };
}

abbrev open_job : AgentJob
open_job = job_with (true_condition "Running" ∷ [])

abbrev done_job : AgentJob
done_job = job_with (true_condition "Complete" ∷ [])

abbrev attempt_with : List Condition → AgentAttempt
attempt_with cs = record {
  name = "train-1";
  namespace = "default";
  uid = "attempt-1";
  owner_references = record { name = "train"; uid = "job-1" } ∷ [];
  spec = record {
    job_ref = record { name = "train"; namespace = "default"; uid = "job-1" };
    ordinal = pos 1;
    deadline = some (pos 2000);
  };
  status = record {
    conditions = cs;
    pod_name = "train-1";
    pod_uid = "pod-1";
    start_time = none;
    completion_time = none;
    exit_code = none;
    signal = none;
    error_category = no_category;
  };
}

abbrev open_attempt : AgentAttempt
open_attempt = attempt_with []

abbrev done_attempt : AgentAttempt
done_attempt = attempt_with (true_condition "Complete" ∷ [])

abbrev failed_attempt : AgentAttempt
failed_attempt = attempt_with (true_condition "Failed" ∷ [])

abbrev finished_pod : Pod
finished_pod = record {
  name = "train-1";
  uid = "pod-1";
  attempt_label = "train-1";
  status = record { phase = pod_succeeded; reason = ""; conditions = []; container_statuses = [] };
}

abbrev snapshot_of : AgentJob → AgentAttempt → JobSnapshot
snapshot_of job attempt = record { job = job; attempts = attempt ∷ []; pods = finished_pod ∷ [] }

abbrev envelope : ManifestEnvelope
envelope = record {
  job_uid = "job-1";
  attempt_uid = "attempt-1";
  ordinal = pos 1;
  spec_hash = "agent:1";
  result = record {
    exit_code = pos 0;
    signal = pos 0;
    error_category = "";
    artifacts = [];
    checkpoint_key = "";
    content_hash = "";
  };
}

-- The smallest int64, which amd64 yields for a float64 that no int64 holds.
abbrev min_int64 : ℕ → ℤ
min_int64 d = negsuc (2 ^ 63 - 1)

validate_fencing_iff_example :
    (validate_fencing open_job open_attempt envelope ≡ none)
    ↔ IsCurrent open_job open_attempt envelope
validate_fencing_iff_example = validate_fencing_iff open_job open_attempt envelope

validate_fencing_accepts : validate_fencing open_job open_attempt envelope ≡ none
unfolding validate_fencing is_job_terminal
validate_fencing_accepts = refl

should_retry_iff_example :
    (should_retry min_int64 open_job (pos 2) infra).should_retry
    ≡ (is_retryable infra && ltb_ℤ (pos 2) (attempt_limit open_job))
should_retry_iff_example = should_retry_iff min_int64 open_job (pos 2) infra

compute_backoff_exact_example :
    compute_backoff min_int64 (pos 4) ≡ pos (min (backoff_base_delay * 2 ^ 4) backoff_max_delay)
compute_backoff_exact_example = compute_backoff_exact min_int64 4 (omega arith)

abbrev killed : Option ℕ
killed = some 9

abbrev clean_exit : ProcessResult
clean_exit = record { exit_code = pos 0; signal = pos 0; oom_killed = false; error = "" }

reconcile_result_outcome_example :
    let after = (reconcile_result (pos 100) open_job open_attempt envelope).1 in
    let error = (reconcile_result (pos 100) open_job open_attempt envelope).0 in
    (error ≡ validate_fencing open_job open_attempt envelope)
    × (error ≢ none → after ≡ open_attempt)
    × (error ≡ none
        → (is_attempt_terminal after.status.conditions ≡ true)
          × (after.status.exit_code ≡ some (to_int32 (pos 0)))
          × (after.status.completion_time ≡ some (pos 100))
          × (is_attempt_succeeded after.status.conditions
              ≡ (eq_ℤ (pos 0) (pos 0) || is_attempt_succeeded [])))
reconcile_result_outcome_example = reconcile_result_outcome (pos 100) open_job open_attempt envelope

check_ttl_exact_example :
    let expiry = pos 90 +ℤ pos (10 * 1000000000) in
    ((check_ttl done_job (pos 100)).0 ≡ leb_ℤ expiry (pos 100))
    × (leb_ℤ expiry (pos 100) ≡ false → IsWait expiry (pos 100) (check_ttl done_job (pos 100)).1)
check_ttl_exact_example =
    check_ttl_exact done_job (pos 100) (pos 90) 10 (unfold is_job_terminal in refl) refl refl
      (omega arith)

verify_attempt_ownership_iff_example : (verify_attempt_ownership open_job open_attempt ≡ none) ↔ (
    (is_owned open_job (find_if (λ r. str_eq r.name open_job.name) open_attempt.owner_references)
      ≡ true)
    × ((open_attempt.spec.job_ref.uid ≡ "") ⊎ (open_attempt.spec.job_ref.uid ≡ open_job.uid)))
verify_attempt_ownership_iff_example = verify_attempt_ownership_iff open_job open_attempt

handle_cancel_exact_example :
    ((handle_cancel (pos 100) open_job).1
      ≡ (is_cancelled open_job && not (is_job_terminal open_job.status.conditions)))
    × ((handle_cancel (pos 100) open_job).1 ≡ true
        → (is_job_terminal (handle_cancel (pos 100) open_job).0.status.conditions ≡ true)
          × (has_true (handle_cancel (pos 100) open_job).0.status.conditions job_condition_failed
              ≡ true)
          × ((handle_cancel (pos 100) open_job).0.status.completion_time ≡ some (pos 100)))
    × ((handle_cancel (pos 100) open_job).1 ≡ false
        → (handle_cancel (pos 100) open_job).0 ≡ open_job)
handle_cancel_exact_example = handle_cancel_exact (pos 100) open_job

reconcile_attempt-Honest_example :
    Returned Honest
      (reconcile_attempt (pos 100) (snapshot_of open_job open_attempt) open_attempt []).0
reconcile_attempt-Honest_example =
    reconcile_attempt-Honest (pos 100) (snapshot_of open_job open_attempt) open_attempt []

reconcile_attempt-success_example :
    Returned
      (SucceededIs (recorded_success open_attempt finished_pod))
      (reconcile_attempt (pos 100) (snapshot_of open_job open_attempt) open_attempt []).0
reconcile_attempt-success_example =
    reconcile_attempt-success (pos 100) (snapshot_of open_job open_attempt) open_attempt
      finished_pod [] (unfold is_attempt_terminal in refl)
      (unfold durarun_operator.Controller.Ownership.pod_for_attempt in refl)

reconcile-writes_lawfully_example :
    All
      (Allowed (
        IsLawfulWrite
          (pos 100)
          (is_some (first_violation open_job (done_attempt ∷ [])))
          (with_hash (snapshot_of open_job done_attempt)).job))
      (reconcile (pos 100) (snapshot_of open_job done_attempt) []).1
reconcile-writes_lawfully_example =
    reconcile-writes_lawfully (pos 100) (snapshot_of open_job done_attempt)
