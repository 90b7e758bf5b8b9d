-- ===== src/Server/Refined.antt =====
-- The HTTP interface refines the state machine of jobs (internal/api/server.go).
use durarun_operator.Prelude.{
  Bool, ◌&&◌, not, ℕ, String, ◌≡◌, true, false, Bool-cases, inl, inr, Option, none, some,
  if◌then◌else◌,
}
use durarun_operator.Model.{JobSpec, Job, JobState, job_terminated}
use durarun_operator.Model.Validation.{Validated, invalid, valid, validate_job_spec}
use durarun_operator.Isolation.{validate_level}
use durarun_operator.Store.{StoreError}
use durarun_operator.Store.Evolves.{Rights}
use durarun_operator.Store.Inserts.{create_job-Evolves, get_job-Evolves}
use durarun_operator.Store.Moves.{transition_job_state-Evolves}
use durarun_operator.Store.Session.{World, Environment}
use durarun_operator.Store.Follows.{
  Follows, Refines, pure-Refines, bind-Refines, then-Refines, if-Refines, on_result-Refines,
  report-Refines, statement-Refines,
}
use durarun_operator.Server.{
  is_over, internal_error, read_error, is_no_rows, create_valid, handle_create_job, create_checked,
  handle_create_job_v2, terminate, handle_terminate_job,
}

-- A job that is not over may be terminated.
pub record HasServerRights (rights : Rights) : Type 0 where
  pub terminates : (s : JobState) → is_over s ≡ false → rights.job_may s job_terminated ≡ true

module _ (rights : Rights) (env : Environment)
    (others : (n : ℕ) (w : World) → Follows rights w (env.others n w)) where
  internal_error-Refines :
      {A : Type 0} (operation subject : String)
      → Refines rights (internal_error env {A = A} operation subject)
  unfolding internal_error
  internal_error-Refines operation subject =
      then-Refines rights (report-Refines rights _ _) (pure-Refines rights _)

  read_error-Refines :
      {A : Type 0} (operation subject : String) (e : StoreError)
      → Refines rights (read_error env {A = A} operation subject e)
  unfolding read_error
  read_error-Refines operation subject e =
      if-Refines rights (is_no_rows e) (pure-Refines rights _)
        (internal_error-Refines operation subject)

  create_valid-Refines : (checked : Validated) → Refines rights (create_valid env checked)
  unfolding create_valid
  create_valid-Refines (invalid e) = pure-Refines rights _
  create_valid-Refines (valid spec) =
      bind-Refines rights
        (statement-Refines rights env others _
          (λ id now db. create_job-Evolves rights id spec now db))
        (λ job.
          on_result-Refines rights job (λ e. internal_error-Refines _ _)
            (λ j. pure-Refines rights _))

  pub handle_create_job-Refines :
      (request : Option JobSpec) → Refines rights (handle_create_job env request)
  unfolding handle_create_job
  handle_create_job-Refines none = pure-Refines rights _
  handle_create_job-Refines (some spec) = create_valid-Refines (validate_job_spec spec)

  create_checked-Refines :
      (checks_level : Bool) (checked : Validated)
      → Refines rights (create_checked env checks_level checked)
  unfolding create_checked
  create_checked-Refines checks_level (invalid e) = pure-Refines rights _
  create_checked-Refines checks_level (valid spec) =
      if-Refines rights (checks_level && not (validate_level spec.isolation.level))
        (pure-Refines rights _) (create_valid-Refines (valid spec))

  pub handle_create_job_v2-Refines :
      (checks_level : Bool) (request : Option JobSpec)
      → Refines rights (handle_create_job_v2 env checks_level request)
  unfolding handle_create_job_v2
  handle_create_job_v2-Refines checks_level none = pure-Refines rights _
  handle_create_job_v2-Refines checks_level (some spec) =
      create_checked-Refines checks_level (validate_job_spec spec)

  module _ (own : HasServerRights rights) where
    terminate-Refines : (job : Job) → Refines rights (terminate env job)
    unfolding terminate
    terminate-Refines job = elim (Bool-cases (is_over job.state)) [
      | inl e ↦ rw (e, if◌then◌else◌) (pure-Refines rights _)
      | inr e ↦
          rw (e, if◌then◌else◌)
            (bind-Refines rights
              (statement-Refines rights env others _ (λ tid now db.
                transition_job_state-Evolves rights job.id job.state job_terminated _ tid now db
                  (own.terminates job.state e)))
              (λ moved.
                on_result-Refines rights moved
                  (λ x. then-Refines rights (report-Refines rights _ _) (pure-Refines rights _))
                  (λ _. pure-Refines rights _)))
    ]

    -- While the others make only allowed moves, a request to terminate a job makes only allowed
    -- moves, if a job that is not over may be terminated.
    pub handle_terminate_job-Refines : (id : String) → Refines rights (handle_terminate_job env id)
    unfolding handle_terminate_job
    handle_terminate_job-Refines id =
        bind-Refines rights
          (statement-Refines rights env others _ (λ _ _ db. get_job-Evolves rights id db))
          (λ job. on_result-Refines rights job (read_error-Refines "GetJob" id) terminate-Refines)
