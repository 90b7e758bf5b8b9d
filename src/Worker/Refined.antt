-- ===== src/Worker/Refined.antt =====
-- A worker refines the state machine of jobs and attempts, and completes only what did not
-- report a failure (internal/worker/worker.go).
use durarun_operator.Prelude.{
  refl, ℕ, ℤ, pos, eq_ℤ, String, ◌≡◌, true, false, Option, none, some, is_some, Bool-cases, inl,
  inr, if◌then◌else◌, arith,
}
use durarun_operator.Isolation.{Level, LevelResult, resolved, unavailable, not_allowed}
use durarun_operator.Model.{
  Job, Attempt, job_scheduled, job_running, job_completed, attempt_new, attempt_executing,
  attempt_completed, attempt_failed,
}
use durarun_operator.Store.Evolves.{Rights}
use durarun_operator.Store.Inserts.{claim_scheduled_attempt-Evolves, get_job-Evolves}
use durarun_operator.Store.Moves.{transition_attempt_state-Evolves}
use durarun_operator.Store.Saves.{get_latest_checkpoint-Evolves, update_attempt_pool_info-Evolves}
use durarun_operator.Store.Session.{World, Environment}
use durarun_operator.Store.Follows.{
  Follows, Refines, pure-Refines, bind-Refines, then-Refines, if-Refines, when-Refines,
  for_each-Refines, on_result-Refines, on_option-Refines, absent-Refines, report-Refines,
  statement-Refines, on_pool-Refines,
}
use durarun_operator.Worker.{
  Run, Worker, exit_code, run_logs, checkpoint_content, recovery_mode, conclude_run, conclude,
  finish, run_at, run_resolved, run_sandbox, claim_and_run, start_runner, prepare, execute,
  work_once,
}
use durarun_operator.Worker.Steps.{
  has_succeeded, HasWorkerRights, end_attempt-Refines, move_job_of-Refines, release_claimed-Refines,
  fail_and_cleanup-Refines, save_manifest-Refines, beat-Refines, keep_artifact-Refines,
  keep_log-Refines,
}

-- What the code takes for exit code 0 is a success.
exit_zero :
    (error : Option String) (result : Option (ℤ × String))
    → is_some error ≡ false
    → eq_ℤ (elim result [ none ↦ pos 0 | some r ↦ r.0 ]) (pos 0) ≡ true
    → has_succeeded error result ≡ true
exit_zero (some e) result quiet h = ground (arith, quiet)
exit_zero none none quiet h = refl
exit_zero none (some (code, logs)) quiet h = h

module _ (rights : Rights) (env : Environment)
    (others : (n : ℕ) (w : World) → Follows rights w (env.others n w)) (w : Worker)
    (attempt : Attempt) (run : Run) (own : HasWorkerRights run rights) where
  conclude_run-Refines :
      is_some run.sandbox_error ≡ false
      → (job_id : String) → Refines rights (conclude_run env w attempt run job_id)
  unfolding conclude_run
  conclude_run-Refines quiet job_id =
      then-Refines rights
        (keep_log-Refines rights env others w attempt run own job_id (run_logs run))
        (elim (Bool-cases (eq_ℤ (exit_code run) (pos 0))) [
          | inl e ↦
              let ended = exit_zero run.sandbox_error run.result quiet e in
              if-Refines rights (eq_ℤ (exit_code run) (pos 0))
                (then-Refines rights
                  (end_attempt-Refines rights env others w attempt run own attempt_completed
                    "exit-0" (own.completes ended))
                  (move_job_of-Refines rights env others w attempt run own job_id job_running
                    job_completed "exit-0" (own.completes_job ended)))
                (end_attempt-Refines rights env others w attempt run own attempt_failed _ own.fails)
          | inr e ↦
              rw (e, if◌then◌else◌)
                (end_attempt-Refines rights env others w attempt run own attempt_failed _ own.fails)
        ])

  conclude-Refines : (job_id : String) → Refines rights (conclude env w attempt run job_id)
  unfolding conclude
  conclude-Refines job_id =
      absent-Refines rights run.sandbox_error (λ quiet. conclude_run-Refines quiet job_id)
        (λ e. then-Refines rights (keep_log-Refines rights env others w attempt run own job_id _) (
          end_attempt-Refines rights env others w attempt run own attempt_failed "sandbox-error"
            own.fails))

  finish-Refines :
      (job_id : String) (restored pod : Option String)
      → Refines rights (finish env w attempt run job_id restored pod)
  unfolding finish
  finish-Refines job_id restored pod =
      then-Refines rights
        (on_option-Refines rights run.final_manifest (pure-Refines rights tt)
          (save_manifest-Refines rights env others w attempt run own job_id))
        (then-Refines rights
          (on_option-Refines rights (run.checkpoint_json restored) (pure-Refines rights tt)
            (λ content. save_manifest-Refines rights env others w attempt run own job_id _))
          (then-Refines rights
            (for_each-Refines rights run.artifact_files
              (keep_artifact-Refines rights env others w attempt run own job_id))
            (then-Refines rights (release_claimed-Refines rights env others w attempt run own pod)
              (conclude-Refines job_id))))

  run_at-Refines :
      (job_id : String) (restored pod : Option String) (level : Level)
      → Refines rights (run_at env w attempt run job_id restored pod level)
  unfolding run_at
  run_at-Refines job_id restored pod level =
      if-Refines rights (run.sandbox_started level)
        (then-Refines rights
          (for_each-Refines rights run.beats
            (beat-Refines rights env others w attempt run own job_id))
          (finish-Refines job_id restored pod))
        (fail_and_cleanup-Refines rights env others w attempt run own pod _)

  run_resolved-Refines :
      (job_id : String) (restored pod : Option String) (result : LevelResult)
      → Refines rights (run_resolved env w attempt run job_id restored pod result)
  unfolding run_resolved
  run_resolved-Refines job_id restored pod (resolved level) =
      run_at-Refines job_id restored pod level
  run_resolved-Refines job_id restored pod unavailable =
      fail_and_cleanup-Refines rights env others w attempt run own pod _
  run_resolved-Refines job_id restored pod not_allowed =
      fail_and_cleanup-Refines rights env others w attempt run own pod _

  run_sandbox-Refines :
      (job : Job) (restored pod : Option String)
      → Refines rights (run_sandbox env w attempt run job restored pod)
  unfolding run_sandbox
  run_sandbox-Refines job restored pod = run_resolved-Refines job.id restored pod _

  claim_and_run-Refines :
      (job : Job) (restored : Option String)
      → Refines rights (claim_and_run env w attempt run job restored)
  unfolding claim_and_run
  claim_and_run-Refines job restored =
      bind-Refines rights (on_pool-Refines rights env others _) (λ pod.
        on_option-Refines rights pod (run_sandbox-Refines job restored none) (λ p.
          bind-Refines rights
            (statement-Refines rights env others _
              (λ _ _ db. update_attempt_pool_info-Evolves rights attempt.id _ _ _ db))
            (λ _. run_sandbox-Refines job restored (some p.id))))

  start_runner-Refines :
      (job : Job) (restored : Option String)
      → Refines rights (start_runner env w attempt run job restored)
  unfolding start_runner
  start_runner-Refines job restored =
      if-Refines rights (run.runner_made (recovery_mode run restored))
        (if-Refines rights run.hook_started
          (if-Refines rights run.env_prepared (claim_and_run-Refines job restored)
            (end_attempt-Refines rights env others w attempt run own attempt_failed _ own.fails))
          (end_attempt-Refines rights env others w attempt run own attempt_failed _ own.fails))
        (end_attempt-Refines rights env others w attempt run own attempt_failed _ own.fails)

  prepare-Refines : (job : Job) → Refines rights (prepare env w attempt run job)
  unfolding prepare
  prepare-Refines job = when-Refines rights run.work_dir_made (
      bind-Refines rights
        (statement-Refines rights env others _
          (λ _ _ db. get_latest_checkpoint-Evolves rights job.id db))
        (λ saved.
          on_result-Refines rights saved (λ e. start_runner-Refines job none)
            (λ c. start_runner-Refines job (checkpoint_content c))))

  -- While the others make only allowed moves, WorkerV2.execute makes only allowed moves and records
  -- each of them in state_transitions, whichever statement the database refuses; and it needs the
  -- right to complete the attempt or the job only if the sandbox ended without an error and the
  -- result file either reports exit code 0 or cannot be read or parsed.
  pub execute-Refines : Refines rights (execute env w attempt run)
  unfolding execute
  execute-Refines =
      bind-Refines rights
        (statement-Refines rights env others _ (λ _ _ db. get_job-Evolves rights attempt.job_id db))
        (λ job.
          on_result-Refines rights job (λ e. pure-Refines rights tt)
            (λ j.
              bind-Refines rights
                (statement-Refines rights env others _ (λ tid now db.
                  transition_attempt_state-Evolves rights attempt.id attempt_new attempt_executing _
                    tid now db own.starts))
                (λ moved.
                  on_result-Refines rights moved (λ e. pure-Refines rights tt)
                    (λ _.
                      then-Refines rights
                        (move_job_of-Refines rights env others w attempt run own j.id job_scheduled
                          job_running _ own.runs)
                        (prepare-Refines j)))))

module _ (rights : Rights) (env : Environment)
    (others : (n : ℕ) (w : World) → Follows rights w (env.others n w)) (w : Worker)
    (runs : Attempt → Run) (own : (a : Attempt) → HasWorkerRights (runs a) rights) where
  pub work_once-Refines : Refines rights (work_once env w runs)
  unfolding work_once
  work_once-Refines =
      bind-Refines rights
        (statement-Refines rights env others _
          (λ _ _ db. claim_scheduled_attempt-Evolves rights w.id db))
        (λ claimed.
          on_result-Refines rights claimed (λ e. report-Refines rights _ _)
            (λ found.
              on_option-Refines rights found (pure-Refines rights tt)
                (λ a. execute-Refines rights env others w a (runs a) (own a))))
