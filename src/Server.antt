-- ===== src/Server.antt =====
-- internal/api/server.go: the handlers of the standalone service's HTTP interface that use the store.
--
-- A request is what the handler reads of it, `none` for a body that is not JSON, and a reply is its
-- status with what is encoded; the texts of errors are left out.
pub mod Refined
pub mod Policies
use durarun_operator.Prelude.{
  ℕ, String, Bool, true, false, ◌||◌, ◌&&◌, not, Option, none, some, List, if◌then◌else◌,
}
use durarun_operator.Model.{
  JobSpec, Job, JobState, Attempt, StateTransition, job_completed, job_failed, job_terminated,
  job_state_eq,
}
use durarun_operator.Model.Validation.{Validated, invalid, valid, validate_job_spec}
use durarun_operator.Isolation.{validate_level}
use durarun_operator.Store.{
  StoreError, no_rows, database_error, duplicate_key, missing_reference, state_mismatch,
}
use durarun_operator.Store.Jobs.{create_job, get_job, list_jobs, transition_job_state}
use durarun_operator.Store.Attempts.{get_attempts}
use durarun_operator.Store.Records.{get_logs, list_artifacts, get_artifact, get_transitions}
use durarun_operator.Store.Session.{
  Environment, Action, pure, ◌>>=◌, ◌>>◌, report, statement, on_result,
}

pub data Reply (A : Type 0) : Type 0 where
  success : ℕ → A → Reply A
  problem : ℕ → Reply A

-- err == sql.ErrNoRows
abbrev pub is_no_rows : StoreError → Bool
is_no_rows no_rows = true
is_no_rows database_error = false
is_no_rows duplicate_key = false
is_no_rows missing_reference = false
is_no_rows (state_mismatch s) = false

abbrev pub is_over : JobState → Bool
is_over s =
    job_state_eq s job_completed || job_state_eq s job_failed || job_state_eq s job_terminated

module _ (env : Environment) where
  -- An error that is logged and answered with 500.
  unfoldable pub internal_error : {A : Type 0} → String → String → Action (Reply A)
  internal_error operation subject = report operation subject >> pure (problem 500)

  -- The error of a read: no such row, or another one.
  unfoldable pub read_error : {A : Type 0} → String → String → StoreError → Action (Reply A)
  read_error operation subject e =
      if is_no_rows e then pure (problem 404) else internal_error operation subject

  unfoldable pub create_valid : Validated → Action (Reply String)
  create_valid (invalid e) = pure (problem 400)
  create_valid (valid spec) = do
    job ← statement env (λ id now. create_job id spec now)
    on_result job (λ e. internal_error "CreateJob" spec.name) (λ j. pure (success 201 j.id))

  -- Server.handleCreateJob
  unfoldable pub handle_create_job : Option JobSpec → Action (Reply String)
  handle_create_job none = pure (problem 400)
  handle_create_job (some spec) = create_valid (validate_job_spec spec)

  -- handleCreateJobV2, once the spec is checked; `checks_level` tells whether there is an isolation
  -- manager.
  unfoldable pub create_checked : Bool → Validated → Action (Reply String)
  create_checked checks_level (invalid e) = pure (problem 400)
  create_checked checks_level (valid spec) =
      if checks_level && not (validate_level spec.isolation.level)
      then pure (problem 400)
      else create_valid (valid spec)

  -- Server.handleCreateJobV2
  unfoldable pub handle_create_job_v2 : Bool → Option JobSpec → Action (Reply String)
  handle_create_job_v2 checks_level none = pure (problem 400)
  handle_create_job_v2 checks_level (some spec) =
      create_checked checks_level (validate_job_spec spec)

  -- Server.handleListJobs
  unfoldable pub handle_list_jobs : Action (Reply (List Job))
  handle_list_jobs = do
    jobs ← statement env (λ _ _. list_jobs)
    on_result jobs (λ e. internal_error "ListJobs" "") (λ js. pure (success 200 js))

  -- Server.handleGetJob
  unfoldable pub handle_get_job : String → Action (Reply (Job × List Attempt))
  handle_get_job id = do
    job ← statement env (λ _ _. get_job id)
    on_result job (read_error "GetJob" id) λ j. do
      attempts ← statement env (λ _ _. get_attempts id)
      on_result attempts (λ e. internal_error "GetAttempts" id)
          (λ rows. pure (success 200 (j, rows)))

  -- Server.handleGetLogs
  unfoldable pub handle_get_logs : String → Action (Reply (List String))
  handle_get_logs id = do
    logs ← statement env (λ _ _. get_logs id)
    on_result logs (λ e. internal_error "GetLogs" id) (λ rows. pure (success 200 rows))

  -- Server.handleListArtifacts
  unfoldable pub handle_list_artifacts : String → Action (Reply (List String))
  handle_list_artifacts id = do
    names ← statement env (λ _ _. list_artifacts id)
    on_result names (λ e. internal_error "ListArtifacts" id) (λ rows. pure (success 200 rows))

  -- Server.handleGetArtifact
  unfoldable pub handle_get_artifact : String → String → Action (Reply String)
  handle_get_artifact id name = do
    content ← statement env (λ _ _. get_artifact id name)
    on_result content (read_error "GetArtifact" id) (λ bytes. pure (success 200 bytes))

  -- Server.handleGetTransitions
  unfoldable pub handle_get_transitions : String → Action (Reply (List StateTransition))
  handle_get_transitions id = do
    rows ← statement env (λ _ _. get_transitions "job" id)
    on_result rows (λ e. internal_error "GetTransitions" id) (λ ts. pure (success 200 ts))

  unfoldable pub terminate : Job → Action (Reply Unit)
  terminate job =
      if is_over job.state
      then pure (problem 409)
      else statement env
          (λ tid now. transition_job_state job.id job.state job_terminated "api-delete" tid now)
        >>= (λ moved.
            on_result moved (λ e. report "TransitionJobState" job.id >> pure (problem 409))
              (λ _. pure (success 204 tt)))

  -- Server.handleTerminateJob
  unfoldable pub handle_terminate_job : String → Action (Reply Unit)
  handle_terminate_job id = do
    job ← statement env (λ _ _. get_job id)
    on_result job (read_error "GetJob" id) terminate
