-- ===== src/Worker/Steps.antt =====
-- The steps of an execution refine the state machine (internal/worker/worker.go).
use durarun_operator.Prelude.{ℕ, ℤ, pos, eq_ℤ, String, ◌≡◌, Bool, true, false, Option, none, some}
use durarun_operator.Model.{
  JobState, Attempt, AttemptState, job_scheduled, job_running, job_completed, attempt_new,
  attempt_executing, attempt_completed, attempt_failed,
}
use durarun_operator.Store.Evolves.{Rights}
use durarun_operator.Store.Moves.{transition_job_state-Evolves, transition_attempt_state-Evolves}
use durarun_operator.Store.Saves.{
  save_checkpoint-Evolves, save_log-Evolves, save_artifact-Evolves, update_heartbeat-Evolves,
  update_attempt_step_progress-Evolves,
}
use durarun_operator.Store.Session.{World, Environment}
use durarun_operator.Store.Follows.{
  Follows, Refines, pure-Refines, bind-Refines, then-Refines, on_result-Refines, on_option-Refines,
  report-Refines, statement-Refines, on_pool-Refines,
}
use durarun_operator.Worker.{
  Manifest, Run, Worker, step_index, end_attempt, move_job_of, release_claimed, fail_and_cleanup,
  save_manifest, save_progress, beat, keep_artifact, keep_log,
}

-- The sandbox ended without an error, and the result file reports 0 if it can be read.
abbrev pub has_succeeded : Option String → Option (ℤ × String) → Bool
has_succeeded (some e) result = false
has_succeeded none none = true
has_succeeded none (some (code, logs)) = eq_ℤ code (pos 0)

-- The moves of a worker are allowed; those to Completed only need to be when it reported no failure.
pub record HasWorkerRights (run : Run) (rights : Rights) : Type 0 where
  pub starts : rights.attempt_may attempt_new attempt_executing ≡ true
  pub runs : rights.job_may job_scheduled job_running ≡ true
  pub fails : rights.attempt_may attempt_executing attempt_failed ≡ true
  pub completes :
      has_succeeded run.sandbox_error run.result ≡ true
      → rights.attempt_may attempt_executing attempt_completed ≡ true
  pub completes_job :
      has_succeeded run.sandbox_error run.result ≡ true
      → rights.job_may job_running job_completed ≡ true

module _ (rights : Rights) (env : Environment)
    (others : (n : ℕ) (w : World) → Follows rights w (env.others n w)) (w : Worker)
    (attempt : Attempt) (run : Run) (own : HasWorkerRights run rights) where
  pub end_attempt-Refines :
      (target : AttemptState) (trigger : String)
      → rights.attempt_may attempt_executing target ≡ true
      → Refines rights (end_attempt env w attempt run target trigger)
  unfolding end_attempt
  end_attempt-Refines target trigger c =
      bind-Refines rights
        (statement-Refines rights env others _ (λ tid now db.
          transition_attempt_state-Evolves rights attempt.id attempt_executing target trigger tid
            now db c))
        (λ _. pure-Refines rights tt)

  pub move_job_of-Refines :
      (id : String) (from target : JobState) (trigger : String)
      → rights.job_may from target ≡ true
      → Refines rights (move_job_of env w attempt run id from target trigger)
  unfolding move_job_of
  move_job_of-Refines id from target trigger c =
      bind-Refines rights
        (statement-Refines rights env others _
          (λ tid now db. transition_job_state-Evolves rights id from target trigger tid now db c))
        (λ _. pure-Refines rights tt)

  pub release_claimed-Refines :
      (pod : Option String) → Refines rights (release_claimed env w attempt run pod)
  unfolding release_claimed
  release_claimed-Refines pod = on_option-Refines rights pod (pure-Refines rights tt) (λ id.
      bind-Refines rights (on_pool-Refines rights env others _) (λ refused.
        on_option-Refines rights refused (pure-Refines rights tt) (λ _. report-Refines rights _ _)))

  pub fail_and_cleanup-Refines :
      (pod : Option String) (trigger : String)
      → Refines rights (fail_and_cleanup env w attempt run pod trigger)
  unfolding fail_and_cleanup
  fail_and_cleanup-Refines pod trigger =
      then-Refines rights (end_attempt-Refines attempt_failed trigger own.fails)
        (release_claimed-Refines pod)

  pub save_manifest-Refines :
      (job_id : String) (m : Manifest) → Refines rights (save_manifest env w attempt run job_id m)
  unfolding save_manifest
  save_manifest-Refines job_id m =
      bind-Refines rights
        (statement-Refines rights env others _ (λ id now db.
          save_checkpoint-Evolves rights id attempt.id job_id (step_index m) m.content now db))
        (λ _. pure-Refines rights tt)

  pub save_progress-Refines : (p : String × ℕ) → Refines rights (save_progress env w attempt run p)
  unfolding save_progress
  save_progress-Refines p =
      bind-Refines rights
        (statement-Refines rights env others _
          (λ _ _ db. update_attempt_step_progress-Evolves rights attempt.id p.0 p.1 db))
        (λ _. pure-Refines rights tt)

  pub beat-Refines :
      (job_id : String) (built : Option Manifest)
      → Refines rights (beat env w attempt run job_id built)
  unfolding beat
  beat-Refines job_id built =
      bind-Refines rights
        (statement-Refines rights env others _
          (λ _ now db. update_heartbeat-Evolves rights attempt.id now db))
        (λ beaten.
          then-Refines rights
            (on_result-Refines rights beaten (λ e. report-Refines rights _ _)
              (λ _. pure-Refines rights tt))
            (on_option-Refines rights built (report-Refines rights _ _) (λ m.
              then-Refines rights (save_manifest-Refines job_id m) (
                on_option-Refines rights m.progress (pure-Refines rights tt)
                  save_progress-Refines))))

  pub keep_artifact-Refines :
      (job_id : String) (file : String × Option String)
      → Refines rights (keep_artifact env w attempt run job_id file)
  unfolding keep_artifact
  keep_artifact-Refines job_id file =
      on_option-Refines rights file.1 (report-Refines rights _ _) (λ content.
        bind-Refines rights
          (statement-Refines rights env others _
            (λ id now db. save_artifact-Evolves rights id job_id file.0 content now db))
          (λ saved.
            on_result-Refines rights saved (λ e. report-Refines rights _ _)
              (λ _. pure-Refines rights tt)))

  pub keep_log-Refines :
      (job_id content : String) → Refines rights (keep_log env w attempt run job_id content)
  unfolding keep_log
  keep_log-Refines job_id content =
      bind-Refines rights
        (statement-Refines rights env others _
          (λ id now db. save_log-Evolves rights id job_id attempt.id content now db))
        (λ _. pure-Refines rights tt)
