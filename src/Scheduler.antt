-- ===== src/Scheduler.antt =====
-- internal/scheduler/reconciler.go: the reconciler of the standalone service.
--
-- A pass is an `Action`: between any two of its statements others may run, and any statement may be
-- refused. Lines of the log that report an error are kept, and those that report progress are not.
-- The ticker of `Run` calls `reconcile` again and again.
pub mod Refined
pub mod Handled
pub mod Scheduling
use durarun_operator.Prelude.{
  ℕ, zero, suc, ◌+◌, ℤ, pos, ◌+ℤ◌, ltb_ℤ, to_int64, String, Bool, true, false, ◌&&◌, Option, none,
  some, List, [], ◌∷◌, count_if, if◌then◌else◌, is_some,
}
use durarun_operator.Pool as Pool
use durarun_operator.Pool.{Manager}
use durarun_operator.Model.{
  Job, JobState, Attempt, job_pending, job_scheduled, job_running, job_failed, job_state_eq,
  attempt_executing, attempt_failed, attempt_timed_out, attempt_state_eq,
}
use durarun_operator.Store.{Result, ok, failed}
use durarun_operator.Store.Jobs.{list_jobs, get_job, transition_job_state}
use durarun_operator.Store.Attempts.{
  find_stale_attempts, get_attempts, count_attempts, transition_attempt_state,
}
use durarun_operator.Store.Session.{
  World, Environment, Action, pure, ◌>>=◌, ◌>>◌, for_each, report, when, statement, on_pool,
  on_result, on_option, create_attempt,
}

pub record Reconciler : Type 0 where
  -- poolMgr != nil
  pub has_pool : Bool
  pub heartbeat_timeout : ℤ
  -- the ids of the pods that the pool makes
  pub pod_uuid : ℕ → String

-- PoolManager.SetPendingDemand and Reconcile
abbrev pub demand_pods : (ℕ → String) → ℕ → ℤ → Manager → Unit {0} × Manager
demand_pods pod_uuid pending now m =
    (tt, Pool.reconcile pod_uuid now (record m { pending_demand = pending }))

-- The last of the rows.
abbrev pub latest : List Attempt → Option Attempt
latest [] = none
latest (a ∷ rest) = elim (latest rest) [ none ↦ some a | some b ↦ some b ]

-- count < job.Spec.MaxRetries + 1, in int64
abbrev pub may_retry : ℕ → ℤ → Bool
may_retry count max_retries = ltb_ℤ (pos count) (to_int64 (max_retries +ℤ pos 1))

module _ (env : Environment) (r : Reconciler) where
  -- TransitionJobState, whose error is logged.
  unfoldable pub move_job_or_report : String → JobState → JobState → String → Action Unit
  move_job_or_report id from target trigger = do
    moved ← statement env (λ tid now. transition_job_state id from target trigger tid now)
    on_result moved (λ e. report "TransitionJobState" id) (λ _. pure tt)

  -- A new attempt, and the job's way to Scheduled.
  unfoldable pub schedule_attempt : String → JobState → String → Action Unit
  schedule_attempt id from trigger = do
    made ← create_attempt env id ""
    on_result made (λ e. report "CreateAttempt" id)
        (λ _. move_job_or_report id from job_scheduled trigger)

  -- The pool's answer to Claim: whether a pod was warm. A miss is progress in the log.
  unfoldable pub claim_warm : String → Action Bool
  claim_warm id =
      if r.has_pool
      then on_pool env (λ now m. Pool.claim id now m)
        >>= (λ pod. on_option pod (pure false) (λ _. pure true))
      else pure false

  unfoldable pub schedule_job : Job → Action Unit
  schedule_job job = when (job_state_eq job.state job_pending) do
    warm ← claim_warm job.id
    schedule_attempt job.id job_pending (if warm then "pool-claim" else "reconciler")

  -- Reconciler.schedulePendingJobs
  unfoldable pub schedule_pending_jobs : Action Unit
  schedule_pending_jobs = do
    jobs ← statement env (λ _ _. list_jobs)
    on_result jobs (λ e. report "ListJobs" "") (λ js. for_each js schedule_job)

  -- Reconciler.reconcilePool
  unfoldable pub reconcile_pool : Action Unit
  reconcile_pool = when r.has_pool do
    jobs ← statement env (λ _ _. list_jobs)
    on_result jobs (λ e. report "ListJobs" "")
        (λ js.
          on_pool env
            (demand_pods r.pod_uuid (count_if (λ j. job_state_eq j.state job_pending) js)))

  -- Another attempt while the spec allows one, and otherwise the end of the job.
  unfoldable pub retry_or_fail : String → ℤ → ℕ → String → Action Unit
  retry_or_fail id max_retries count trigger =
      if may_retry count max_retries
      then schedule_attempt id job_running trigger
      else move_job_or_report id job_running job_failed "max-retries-exceeded"

  unfoldable pub retry_latest : Job → Attempt → Action Unit
  retry_latest job attempt = when (attempt_state_eq attempt.state attempt_failed) do
    count ← statement env (λ _ _. count_attempts job.id)
    on_result count (λ e. pure tt)
        (λ n. retry_or_fail job.id job.spec.max_retries n "retry-after-failure")

  unfoldable pub handle_running_job : Job → Action Unit
  handle_running_job job = when (job_state_eq job.state job_running) do
    attempts ← statement env (λ _ _. get_attempts job.id)
    on_result attempts (λ e. pure tt)
        (λ as_made. on_option (latest as_made) (pure tt) (retry_latest job))

  -- Reconciler.handleFailedAttempts
  unfoldable pub handle_failed_attempts : Action Unit
  handle_failed_attempts = do
    jobs ← statement env (λ _ _. list_jobs)
    on_result jobs (λ e. report "ListJobs" "") (λ js. for_each js handle_running_job)

  -- What follows once the stale attempt is TimedOut.
  unfoldable pub retry_stale : Attempt → Action Unit
  retry_stale attempt = do
    job ← statement env (λ _ _. get_job attempt.job_id)
    on_result job (λ e. report "GetJob" attempt.job_id)
        λ j. do
          count ← statement env (λ _ _. count_attempts attempt.job_id)
          on_result count (λ e. report "CountAttempts" attempt.job_id)
              (λ n. retry_or_fail attempt.job_id j.spec.max_retries n "retry")

  unfoldable pub handle_stale : Attempt → Action Unit
  handle_stale attempt = do
    moved ← statement env (λ tid now.
        transition_attempt_state attempt.id attempt_executing attempt_timed_out "heartbeat-timeout"
          tid now)
    on_result moved (λ e. report "TransitionAttemptState" attempt.id) (λ _. retry_stale attempt)

  -- Reconciler.handleStaleAttempts
  unfoldable pub handle_stale_attempts : Action Unit
  handle_stale_attempts = do
    stale ← statement env (λ _ now. find_stale_attempts r.heartbeat_timeout now)
    on_result stale (λ e. report "FindStaleAttempts" "")
        (λ as_found. for_each as_found handle_stale)

  -- Reconciler.reconcile
  unfoldable pub reconcile : Action Unit
  reconcile =
      reconcile_pool >> (schedule_pending_jobs >> (handle_stale_attempts >> handle_failed_attempts))
