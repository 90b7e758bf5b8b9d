-- ===== src/Controller/Job.antt =====
-- internal/controller/job_controller.go: one reconciliation of an AgentJob over a snapshot.
-- Metrics, traces, log lines and recorded events are left out; the clock is read once, and of a
-- message that prints values the fixed words are kept.
pub mod Lawful
pub mod Writes
pub mod Passes
use durarun_operator.Prelude.{
  ℕ, ℤ, pos, add_int32, ltb_ℤ, String, Bool, true, false, Option, none, some, List, [], ◌∷◌,
  if◌then◌else◌, is_some,
}
use durarun_operator.State.{
  ConditionApi, condition_true, condition_false, is_job_terminal, is_attempt_succeeded,
  set_job_condition, try_set_job_terminal, job_condition_scheduled, job_condition_running,
  job_condition_complete, job_condition_failed,
}
use durarun_operator.Api.{AgentJob, AgentJobStatus, AgentAttempt, AttemptReference, OwnerReference}
use durarun_operator.Controller.Ownership.{
  OwnershipError, JobSnapshot, verify_attempt_ownership, active_attempt,
}
use durarun_operator.Controller.Server.{
  ApiServer, Reply, answered, not_found, already_exists, refused, Exec, pure, fail, expect,
  continue, ◌>>=◌, ◌>>◌, update_job, get_attempt, create_attempt_object, attempt_create_failed,
  attempt_get_failed, owner_reference_failed,
}
use durarun_operator.Controller.Attempt.{
  CtrlResult, no_requeue, AttemptOutcome, numbered_name, reconcile_attempt, or_now,
}

abbrev pub requeue_now : CtrlResult
requeue_now = record { requeue = true; requeue_after = 0 }

abbrev reference_to : AgentAttempt → AttemptReference
reference_to a = record { name = a.name; ordinal = a.spec.ordinal; uid = a.uid }

-- The ordinal that createAttempt computes.
unfoldable pub new_ordinal : AgentJob → ℤ
new_ordinal job =
    add_int32 (add_int32 job.status.failed_attempts job.status.completed_attempts) (pos 1)

unfoldable pub new_attempt : AgentJob → AgentAttempt
new_attempt job = record {
  name = numbered_name job.name (new_ordinal job);
  namespace = job.namespace;
  uid = "";
  owner_references = [];
  spec = record {
    job_ref = record { name = job.name; namespace = job.namespace; uid = job.uid };
    ordinal = new_ordinal job;
    deadline = none;
  };
  status = record {
    conditions = [];
    pod_name = "";
    pod_uid = "";
    start_time = none;
    completion_time = none;
    exit_code = none;
    signal = none;
    error_category = durarun_operator.Api.no_category;
  };
}

-- `job.Status.CompletedAttempts++`
unfoldable pub count_success : AgentJob → AgentJob
count_success job = record job {
  status = record job.status {
    completed_attempts = add_int32 job.status.completed_attempts (pos 1);
  };
}

-- `job.Status.FailedAttempts++`
unfoldable pub count_failure : AgentJob → AgentJob
count_failure job = record job {
  status = record job.status { failed_attempts = add_int32 job.status.failed_attempts (pos 1) };
}

-- The first attempt that is not the job's.
unfoldable pub first_violation : AgentJob → List AgentAttempt → Option OwnershipError
first_violation job [] = none
first_violation job (a ∷ rest) =
    let later = first_violation job rest in
    let this = verify_attempt_ownership job a in if is_some this then this else later

module _ ⦃api : ConditionApi⦄ where
  -- The job with a terminal condition (if it has none yet) and a completion time.
  unfoldable pub finish_job : ℤ → AgentJob → String → String → String → AgentJob
  finish_job now job type reason message = record job {
    status = record job.status {
      completion_time = some now;
      conditions =
          (try_set_job_terminal job.status.conditions type condition_true reason message now).0;
    };
  }

  unfoldable pub violated_job : ℤ → AgentJob → AgentJob
  unfolding finish_job
  violated_job now job =
      finish_job now job job_condition_failed "OwnershipViolation" "stale attempt detected"

  unfoldable pub scheduled_job : ℤ → AgentJob → AgentAttempt → AgentJob
  scheduled_job now job attempt = record job {
    status = record job.status {
      active_attempt = some (reference_to attempt);
      conditions =
          set_job_condition job.status.conditions job_condition_scheduled condition_true
            "AttemptCreated" "Created attempt" now;
    };
  }

  unfoldable pub running_job : ℤ → AgentJob → AgentJob
  running_job now job = record job {
    status = record job.status {
      start_time = or_now job.status.start_time now;
      conditions =
          set_job_condition job.status.conditions job_condition_running condition_true "PodRunning"
            "Job is now running" now;
    };
  }

  unfoldable pub succeeded_job : ℤ → AgentJob → AgentJob
  unfolding finish_job
  succeeded_job now job =
      finish_job now job job_condition_complete "Succeeded" "Job completed successfully"

  unfoldable pub retried_job : ℤ → AgentJob → AgentAttempt → AgentJob
  retried_job now job attempt = record job {
    status = record job.status {
      active_attempt = some (reference_to attempt);
      conditions =
          set_job_condition
            (set_job_condition job.status.conditions job_condition_running condition_false
              "Retrying" "Attempt failed, retrying" now)
            job_condition_scheduled condition_true "Retrying" "Attempt failed, retrying" now;
    };
  }

  unfoldable pub failed_job : ℤ → AgentJob → AgentJob
  unfolding finish_job
  failed_job now job = finish_job now job job_condition_failed "RetriesExhausted" "Job failed"

module _ ⦃api : ConditionApi⦄ ⦃server : ApiServer⦄ where
  get_after_race : Reply AgentAttempt → Exec AgentAttempt
  get_after_race (answered a) = pure a
  get_after_race not_found = fail attempt_get_failed
  get_after_race already_exists = fail attempt_get_failed
  get_after_race refused = fail attempt_get_failed

  after_create : String → Reply AgentAttempt → Exec AgentAttempt
  unfolding get_after_race
  after_create name (answered a) = pure a
  after_create name already_exists = do reply ← get_attempt name; get_after_race reply
  after_create name not_found = fail attempt_create_failed
  after_create name refused = fail attempt_create_failed

  create_owned : String → Option AgentAttempt → Exec AgentAttempt
  unfolding after_create
  create_owned name none = fail owner_reference_failed
  create_owned name (some a) = do reply ← create_attempt_object a; after_create name reply

  create_new : AgentJob → Exec AgentAttempt
  unfolding create_owned new_attempt
  create_new job =
      create_owned (numbered_name job.name (new_ordinal job))
        (server.own_attempt job (new_attempt job))

  -- Any error of the first `Get` leads to a creation.
  reuse_or_create : AgentJob → Reply AgentAttempt → Exec AgentAttempt
  unfolding create_new
  reuse_or_create job (answered a) = pure a
  reuse_or_create job not_found = create_new job
  reuse_or_create job already_exists = create_new job
  reuse_or_create job refused = create_new job

  -- createAttempt
  unfoldable pub create_attempt : AgentJob → Exec AgentAttempt
  unfolding reuse_or_create
  create_attempt job = do
    reply ← get_attempt (numbered_name job.name (new_ordinal job))
    reuse_or_create job reply

  -- Writes the job and returns the result.
  unfoldable pub write_job : AgentJob → CtrlResult → Exec CtrlResult
  write_job job result = do update_job job; pure result

  -- The job has no active attempt.
  unfoldable pub schedule : ℤ → AgentJob → Exec CtrlResult
  unfolding write_job create_attempt
  schedule now job = do
    attempt ← create_attempt job
    write_job (scheduled_job now job attempt) requeue_now

  -- `job` has counted the failure.
  unfoldable pub retry_or_fail : ℤ → AgentJob → Exec CtrlResult
  unfolding write_job create_attempt
  retry_or_fail now job =
      if ltb_ℤ job.status.failed_attempts job.spec.execution.max_attempts
      then (do attempt ← create_attempt job; write_job (retried_job now job attempt) requeue_now)
      else write_job (failed_job now job) no_requeue

  -- What follows from the outcome of the active attempt.
  unfoldable pub by_outcome : ℤ → AgentJob → AttemptOutcome → Exec CtrlResult
  unfolding retry_or_fail
  by_outcome now job (ended, result, attempt) =
      if ended
      then if is_attempt_succeeded attempt.status.conditions
        then write_job (succeeded_job now (count_success job)) no_requeue
        else retry_or_fail now (count_failure job)
      else if is_some attempt.status.start_time
      then write_job (running_job now job) result
      else pure result

  with_active : ℤ → JobSnapshot → Option AgentAttempt → Exec CtrlResult
  unfolding schedule by_outcome
  with_active now snap none = schedule now snap.job
  with_active now snap (some attempt) = do
    outcome ← reconcile_attempt now snap attempt
    by_outcome now snap.job outcome

  -- The job is not terminal here, so that TrySetJobTerminal takes effect on a violation.
  checked : ℤ → JobSnapshot → Option OwnershipError → Exec CtrlResult
  unfolding with_active
  checked now snap (some violation) = write_job (violated_job now snap.job) no_requeue
  checked now snap none = with_active now snap (active_attempt snap)

  -- The snapshot with the spec hash of the job filled in.
  abbrev pub with_hash : JobSnapshot → JobSnapshot
  with_hash snap = record snap {
    job = record snap.job {
      status = record snap.job.status { spec_hash = server.compute_spec_hash snap.job.spec };
    };
  }

  -- JobReconciler.Reconcile, from the loaded snapshot on.
  unfoldable pub reconcile : ℤ → JobSnapshot → Exec CtrlResult
  unfolding checked first_violation
  reconcile now snap =
      if is_job_terminal snap.job.status.conditions
      then pure no_requeue
      else checked now (with_hash snap) (first_violation snap.job snap.attempts)
