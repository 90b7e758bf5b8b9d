-- ===== src/Worker.antt =====
-- internal/worker/worker.go: how a worker executes an attempt.
--
-- What happens outside the store and the pool is a `Run`: the file system under the data directory,
-- internal/runner, the sandbox, and the beats of the ticker until the sandbox ends. The goroutine of
-- the heartbeats has ended when the results are read, so its statements come first, in order. The
-- environment variables and the resources that are handed to the sandbox are left out, and so are
-- lines of the log that report progress.
pub mod Steps
pub mod Refined
use durarun_operator.Prelude.{
  ℕ, ℤ, pos, String, str_append, show_ℤ, eq_ℤ, Bool, true, false, Option, none, some, List, [], ◌∷◌,
  str_eq, if◌then◌else◌,
}
use durarun_operator.Pool as Pool
use durarun_operator.Pool.{Manager, PoolPod}
use durarun_operator.Isolation.{
  Level, LevelResult, l0_process, l1_gvisor, l2_firecracker, l3_docker, resolved, unavailable,
  not_allowed, resolve_level,
}
use durarun_operator.Model.{
  Job, Attempt, Checkpoint, JobState, AttemptState, job_scheduled, job_running, job_completed,
  attempt_new, attempt_executing, attempt_completed, attempt_failed,
}
use durarun_operator.Store.{Result, ok, failed}
use durarun_operator.Store.Jobs.{get_job, transition_job_state}
use durarun_operator.Store.Attempts.{
  claim_scheduled_attempt, transition_attempt_state, update_heartbeat, update_attempt_pool_info,
  update_attempt_step_progress,
}
use durarun_operator.Store.Records.{save_checkpoint, get_latest_checkpoint, save_artifact, save_log}
use durarun_operator.Store.Session.{
  Environment, Action, pure, ◌>>=◌, ◌>>◌, for_each, report, when, statement, on_pool, on_result,
  on_option,
}

-- A checkpoint manifest: its JSON, and of StepProgress the last step and the number of steps.
pub record Manifest : Type 0 where
  pub content : String
  pub progress : Option (String × ℕ)

-- The file system, the runner and the sandbox in one execution. The runner is created in recovery
-- mode or not, and checkpoint.json may have been written before it started.
pub record Run : Type 0 where
  pub work_dir_made : Bool
  pub has_completed_steps : String → Bool
  pub runner_made : Bool → Bool
  pub hook_started : Bool
  pub env_prepared : Bool
  pub claim_latency_ms : ℤ
  pub available : Level → Bool
  pub sandbox_started : Level → Bool
  pub beats : List (Option Manifest)
  pub sandbox_error : Option String
  pub result : Option (ℤ × String)
  pub output_log : Option String
  pub final_manifest : Option Manifest
  pub checkpoint_json : Option String → Option String
  pub artifact_files : List (String × Option String)

pub record Worker : Type 0 where
  pub id : String
  pub pool_name : String
  pub pod_uuid : ℕ → String

-- mapIsolationLevel
abbrev pub map_isolation_level : String → Level
map_isolation_level s =
    if str_eq s "L0Process"
    then l0_process
    else if str_eq s "L1GVisor"
    then l1_gvisor
    else if str_eq s "L2Firecracker"
    then l2_firecracker
    else if str_eq s "L3Docker"
    then l3_docker
    else l1_gvisor

-- len(StepProgress.CompletedSteps), or 0
abbrev pub step_index : Manifest → ℕ
step_index m = elim m.progress [ none ↦ 0 | some p ↦ p.1 ]

-- The exit code, which is 0 when no result file can be read.
abbrev pub exit_code : Run → ℤ
exit_code run = elim run.result [ none ↦ pos 0 | some r ↦ r.0 ]

abbrev pub logged_output : Option String → String → String
logged_output none logs = logs
logged_output (some output) logs = if str_eq logs "" then output else logs

-- runLogs
abbrev pub run_logs : Run → String
run_logs run = logged_output run.output_log (elim run.result [ none ↦ "" | some r ↦ r.1 ])

abbrev pub checkpoint_content : Option Checkpoint → Option String
checkpoint_content none = none
checkpoint_content (some c) = some c.data_json

-- recoveryMode
abbrev pub recovery_mode : Run → Option String → Bool
recovery_mode run none = false
recovery_mode run (some content) = run.has_completed_steps content

-- PoolManager.Release, whose error is logged.
abbrev pub release_pod : (ℕ → String) → String → ℤ → Manager → Option Pool.PoolError × Manager
release_pod pod_uuid id now m = Pool.release pod_uuid id now m

module _ (env : Environment) (w : Worker) (attempt : Attempt) (run : Run) where
  -- TransitionAttemptState from Executing, whose error is dropped.
  unfoldable pub end_attempt : AttemptState → String → Action Unit
  end_attempt target trigger = do
    _ ←
        statement env
          (λ tid now. transition_attempt_state attempt.id attempt_executing target trigger tid now)
    pure tt

  -- TransitionJobState, whose error is dropped.
  unfoldable pub move_job_of : String → JobState → JobState → String → Action Unit
  move_job_of id from target trigger = do
    _ ← statement env (λ tid now. transition_job_state id from target trigger tid now)
    pure tt

  unfoldable pub release_claimed : Option String → Action Unit
  release_claimed pod = on_option pod (pure tt) λ id. do
    refused ← on_pool env (release_pod w.pod_uuid id)
    on_option refused (pure tt) (λ _. report "Release" id)

  -- WorkerV2.failAndCleanup
  unfoldable pub fail_and_cleanup : Option String → String → Action Unit
  fail_and_cleanup pod trigger = end_attempt attempt_failed trigger >> release_claimed pod

  unfoldable pub save_manifest : String → Manifest → Action Unit
  save_manifest job_id m = do
    _ ← statement env (λ id now. save_checkpoint id attempt.id job_id (step_index m) m.content now)
    pure tt

  unfoldable pub save_progress : String × ℕ → Action Unit
  save_progress p = do
    _ ← statement env (λ _ _. update_attempt_step_progress attempt.id p.0 p.1)
    pure tt

  -- One tick of the heartbeat goroutine.
  unfoldable pub beat : String → Option Manifest → Action Unit
  beat job_id built = do
    beaten ← statement env (λ _ now. update_heartbeat attempt.id now)
    on_result beaten (λ e. report "UpdateHeartbeat" attempt.id) (λ _. pure tt)
        >> on_option built (report "BuildCheckpointManifest" attempt.id)
            (λ m. save_manifest job_id m >> on_option m.progress (pure tt) save_progress)

  unfoldable pub keep_artifact : String → String × Option String → Action Unit
  keep_artifact job_id file = on_option file.1 (report "ReadFile" file.0) λ content. do
    saved ← statement env (λ id now. save_artifact id job_id file.0 content now)
    on_result saved (λ e. report "SaveArtifact" file.0) (λ _. pure tt)

  unfoldable pub keep_log : String → String → Action Unit
  keep_log job_id content = do
    _ ← statement env (λ id now. save_log id job_id attempt.id content now)
    pure tt

  unfoldable pub conclude_run : String → Action Unit
  conclude_run job_id =
      keep_log job_id (run_logs run)
      >> (if eq_ℤ (exit_code run) (pos 0)
          then end_attempt attempt_completed "exit-0"
            >> move_job_of job_id job_running job_completed "exit-0"
          else end_attempt attempt_failed (str_append "exit-" (show_ℤ (exit_code run))))

  -- The states at the end of execute.
  unfoldable pub conclude : String → Action Unit
  conclude job_id = on_option run.sandbox_error (conclude_run job_id) (λ e.
      keep_log job_id (str_append "sandbox error: " e)
      >> end_attempt attempt_failed "sandbox-error")

  -- What execute keeps of a sandbox that ended.
  unfoldable pub finish : String → Option String → Option String → Action Unit
  finish job_id restored pod =
      on_option run.final_manifest (pure tt) (save_manifest job_id)
      >> (on_option (run.checkpoint_json restored) (pure tt)
            (λ content. save_manifest job_id (record { content = content; progress = none }))
          >> (for_each run.artifact_files (keep_artifact job_id)
              >> (release_claimed pod >> conclude job_id)))

  unfoldable pub run_at : String → Option String → Option String → Level → Action Unit
  run_at job_id restored pod level =
      if run.sandbox_started level
      then for_each run.beats (beat job_id) >> finish job_id restored pod
      else fail_and_cleanup pod "sandbox-start-error"

  unfoldable pub run_resolved : String → Option String → Option String → LevelResult → Action Unit
  run_resolved job_id restored pod (resolved level) = run_at job_id restored pod level
  run_resolved job_id restored pod unavailable = fail_and_cleanup pod "isolation-resolve-error"
  run_resolved job_id restored pod not_allowed = fail_and_cleanup pod "isolation-resolve-error"

  unfoldable pub run_sandbox : Job → Option String → Option String → Action Unit
  run_sandbox job restored pod =
      run_resolved job.id restored pod
        (resolve_level run.available (some (map_isolation_level job.spec.isolation.level)) none)

  -- The pool's pod, if there is one, and then the sandbox.
  unfoldable pub claim_and_run : Job → Option String → Action Unit
  claim_and_run job restored = do
    pod ← on_pool env (λ now m. Pool.claim job.id now m)
    on_option pod (run_sandbox job restored none) λ p. do
      _ ←
          statement env
            (λ _ _. update_attempt_pool_info attempt.id w.pool_name run.claim_latency_ms true)
      run_sandbox job restored (some p.id)

  -- The runner, its hook server and its environment.
  unfoldable pub start_runner : Job → Option String → Action Unit
  start_runner job restored =
      if run.runner_made (recovery_mode run restored)
      then if run.hook_started
        then if run.env_prepared
          then claim_and_run job restored
          else end_attempt attempt_failed "env-prepare-error"
        else end_attempt attempt_failed "hook-server-error"
      else end_attempt attempt_failed "runner-init-error"

  unfoldable pub prepare : Job → Action Unit
  prepare job = when run.work_dir_made do
    saved ← statement env (λ _ _. get_latest_checkpoint job.id)
    on_result saved (λ e. start_runner job none) (λ c. start_runner job (checkpoint_content c))

  -- WorkerV2.execute
  unfoldable pub execute : Action Unit
  execute = do
    job ← statement env (λ _ _. get_job attempt.job_id)
    on_result job (λ e. pure tt)
        λ j. do
          moved ← statement env (λ tid now.
              transition_attempt_state attempt.id attempt_new attempt_executing
                (str_append "worker-v2-" w.id) tid now)
          on_result moved (λ e. pure tt)
              (λ _.
                move_job_of j.id job_scheduled job_running (str_append "worker-v2-" w.id)
                >> prepare j)

-- What Run does at each tick; `runs` says how the execution of an attempt goes.
unfoldable pub work_once : Environment → Worker → (Attempt → Run) → Action Unit
work_once env w runs = do
  claimed ← statement env (λ _ _. claim_scheduled_attempt w.id)
  on_result claimed (λ e. report "ClaimScheduledAttempt" w.id)
      (λ found. on_option found (pure tt) (λ a. execute env w a (runs a)))
