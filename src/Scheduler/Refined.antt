-- ===== src/Scheduler/Refined.antt =====
-- The reconciler refines the state machine of jobs and attempts (internal/scheduler/reconciler.go).
use durarun_operator.Prelude.{ℕ, ℤ, String, ◌≡◌, refl, true}
use durarun_operator.Model.{
  Job, JobState, Attempt, job_pending, job_scheduled, job_running, job_failed, job_state_eq,
  attempt_failed, attempt_executing, attempt_timed_out, attempt_state_eq,
}
use durarun_operator.Store.Evolves.{Rights, model_rights, Evolves-refl}
use durarun_operator.Store.Inserts.{get_job-Evolves, list_jobs-Evolves, get_attempts-Evolves}
use durarun_operator.Store.Moves.{transition_job_state-Evolves, transition_attempt_state-Evolves}
use durarun_operator.Store.Session.{World, Environment}
use durarun_operator.Store.Follows.{
  Follows, Refines, pure-Refines, bind-Refines, then-Refines, if-Refines, when-Refines,
  for_each-Refines, on_result-Refines, on_option-Refines, report-Refines, statement-Refines,
  on_pool-Refines, create_attempt-Refines,
}
use durarun_operator.Scheduler.{
  Reconciler, move_job_or_report, schedule_attempt, claim_warm, schedule_job, schedule_pending_jobs,
  reconcile_pool, retry_or_fail, retry_latest, handle_running_job, handle_failed_attempts,
  retry_stale, handle_stale, handle_stale_attempts, reconcile, latest, may_retry,
}

-- The moves of the reconciler are allowed.
pub record HasSchedulerRights (rights : Rights) : Type 0 where
  pub schedules : rights.job_may job_pending job_scheduled ≡ true
  pub reschedules : rights.job_may job_running job_scheduled ≡ true
  pub fails : rights.job_may job_running job_failed ≡ true
  pub times_out : rights.attempt_may attempt_executing attempt_timed_out ≡ true

pub scheduler_rights : HasSchedulerRights model_rights
scheduler_rights = record { schedules = refl; reschedules = refl; fails = refl; times_out = refl }

module _ (rights : Rights) (own : HasSchedulerRights rights) (env : Environment)
    (others : (n : ℕ) (w : World) → Follows rights w (env.others n w)) (r : Reconciler) where
  pub move_job_or_report-Refines :
      (id : String) (from target : JobState) (trigger : String)
      → rights.job_may from target ≡ true
      → Refines rights (move_job_or_report env r id from target trigger)
  unfolding move_job_or_report
  move_job_or_report-Refines id from target trigger c =
      bind-Refines rights
        (statement-Refines rights env others _
          (λ tid now db. transition_job_state-Evolves rights id from target trigger tid now db c))
        (λ moved.
          on_result-Refines rights moved (λ e. report-Refines rights _ _)
            (λ _. pure-Refines rights tt))

  schedule_attempt-Refines :
      (id : String) (from : JobState) (trigger : String)
      → rights.job_may from job_scheduled ≡ true
      → Refines rights (schedule_attempt env r id from trigger)
  unfolding schedule_attempt
  schedule_attempt-Refines id from trigger c =
      bind-Refines rights (create_attempt-Refines rights env others id "") (λ made.
        on_result-Refines rights made (λ e. report-Refines rights _ _)
          (λ _. move_job_or_report-Refines id from job_scheduled trigger c))

  claim_warm-Refines : (id : String) → Refines rights (claim_warm env r id)
  unfolding claim_warm
  claim_warm-Refines id =
      if-Refines rights r.has_pool
        (bind-Refines rights (on_pool-Refines rights env others _) (λ pod.
          on_option-Refines rights pod (pure-Refines rights _) (λ _. pure-Refines rights _)))
        (pure-Refines rights _)

  pub schedule_job-Refines : (job : Job) → Refines rights (schedule_job env r job)
  unfolding schedule_job
  schedule_job-Refines job = when-Refines rights (job_state_eq job.state job_pending) (
      bind-Refines rights (claim_warm-Refines job.id)
        (λ warm. schedule_attempt-Refines job.id job_pending _ own.schedules))

  pub schedule_pending_jobs-Refines : Refines rights (schedule_pending_jobs env r)
  unfolding schedule_pending_jobs
  schedule_pending_jobs-Refines =
      bind-Refines rights
        (statement-Refines rights env others _ (λ _ _ db. list_jobs-Evolves rights db))
        (λ jobs.
          on_result-Refines rights jobs (λ e. report-Refines rights _ _)
            (λ js. for_each-Refines rights js schedule_job-Refines))

  reconcile_pool-Refines : Refines rights (reconcile_pool env r)
  unfolding reconcile_pool
  reconcile_pool-Refines = when-Refines rights r.has_pool (
      bind-Refines rights
        (statement-Refines rights env others _ (λ _ _ db. list_jobs-Evolves rights db))
        (λ jobs.
          on_result-Refines rights jobs (λ e. report-Refines rights _ _)
            (λ js. on_pool-Refines rights env others _)))

  retry_or_fail-Refines :
      (id : String) (max_retries : ℤ) (count : ℕ) (trigger : String)
      → Refines rights (retry_or_fail env r id max_retries count trigger)
  unfolding retry_or_fail
  retry_or_fail-Refines id max_retries count trigger =
      if-Refines rights (may_retry count max_retries)
        (schedule_attempt-Refines id job_running trigger own.reschedules)
        (move_job_or_report-Refines id job_running job_failed _ own.fails)

  retry_latest-Refines :
      (job : Job) (attempt : Attempt) → Refines rights (retry_latest env r job attempt)
  unfolding retry_latest
  retry_latest-Refines job attempt =
      when-Refines rights (attempt_state_eq attempt.state attempt_failed) (
        bind-Refines rights
          (statement-Refines rights env others _ (λ _ _ db. Evolves-refl rights db))
          (λ count.
            on_result-Refines rights count (λ e. pure-Refines rights tt)
              (λ n. retry_or_fail-Refines job.id job.spec.max_retries n _)))

  handle_running_job-Refines : (job : Job) → Refines rights (handle_running_job env r job)
  unfolding handle_running_job
  handle_running_job-Refines job = when-Refines rights (job_state_eq job.state job_running) (
      bind-Refines rights
        (statement-Refines rights env others _ (λ _ _ db. get_attempts-Evolves rights job.id db))
        (λ made.
          on_result-Refines rights made (λ e. pure-Refines rights tt)
            (λ as_made.
              on_option-Refines rights (latest as_made) (pure-Refines rights tt)
                (retry_latest-Refines job))))

  handle_failed_attempts-Refines : Refines rights (handle_failed_attempts env r)
  unfolding handle_failed_attempts
  handle_failed_attempts-Refines =
      bind-Refines rights
        (statement-Refines rights env others _ (λ _ _ db. list_jobs-Evolves rights db))
        (λ jobs.
          on_result-Refines rights jobs (λ e. report-Refines rights _ _)
            (λ js. for_each-Refines rights js handle_running_job-Refines))

  retry_stale-Refines : (attempt : Attempt) → Refines rights (retry_stale env r attempt)
  unfolding retry_stale
  retry_stale-Refines attempt =
      bind-Refines rights
        (statement-Refines rights env others _ (λ _ _ db. get_job-Evolves rights attempt.job_id db))
        (λ job.
          on_result-Refines rights job (λ e. report-Refines rights _ _)
            (λ j.
              bind-Refines rights
                (statement-Refines rights env others _ (λ _ _ db. Evolves-refl rights db))
                (λ count.
                  on_result-Refines rights count (λ e. report-Refines rights _ _)
                    (λ n. retry_or_fail-Refines attempt.job_id j.spec.max_retries n _))))

  handle_stale-Refines : (attempt : Attempt) → Refines rights (handle_stale env r attempt)
  unfolding handle_stale
  handle_stale-Refines attempt =
      bind-Refines rights
        (statement-Refines rights env others _ (λ tid now db.
          transition_attempt_state-Evolves rights attempt.id _ _ _ tid now db own.times_out))
        (λ moved.
          on_result-Refines rights moved (λ e. report-Refines rights _ _)
            (λ _. retry_stale-Refines attempt))

  handle_stale_attempts-Refines : Refines rights (handle_stale_attempts env r)
  unfolding handle_stale_attempts
  handle_stale_attempts-Refines =
      bind-Refines rights (statement-Refines rights env others _ (λ _ _ db. Evolves-refl rights db))
        (λ stale.
          on_result-Refines rights stale (λ e. report-Refines rights _ _)
            (λ as_found. for_each-Refines rights as_found handle_stale-Refines))

  pub reconcile-Refines : Refines rights (reconcile env r)
  unfolding reconcile
  reconcile-Refines = then-Refines rights reconcile_pool-Refines (
      then-Refines rights schedule_pending_jobs-Refines
        (then-Refines rights handle_stale_attempts-Refines handle_failed_attempts-Refines))
