-- ===== src/Controller/Job/Passes.antt =====
-- What one reconciliation does, case by case, when the active attempt has ended.
use durarun_operator.Prelude.{◌≡◌, refl, true, false, none, some, List}
use durarun_operator.State.{ConditionApi, is_job_terminal, is_attempt_terminal}
use durarun_operator.Api.{AgentAttempt}
use durarun_operator.Controller.Ownership.{JobSnapshot, active_attempt}
use durarun_operator.Controller.Server.{
  ApiServer, Call, expect, job_update_failed, Reply, answered, not_found, already_exists, refused,
  continue, pure,
}
use durarun_operator.Controller.Attempt.{no_requeue}
use durarun_operator.Controller.Job.{first_violation, with_hash}

module _ ⦃api : ConditionApi⦄ ⦃server : ApiServer⦄ where
  -- The job and its active attempt, when the attempt has ended.
  pub record HasEnded (snap : JobSnapshot) (attempt : AgentAttempt) : Type 0 where
    pub job_open : is_job_terminal snap.job.status.conditions ≡ false
    pub owned : first_violation snap.job snap.attempts ≡ none
    pub active : active_attempt (with_hash snap) ≡ some attempt
    pub ended : is_attempt_terminal attempt.status.conditions ≡ true

  written :
      (r : Reply (Unit {0})) (h : List Call)
      → (continue
          (expect r job_update_failed h).0
          (λ u. pure no_requeue)
          (expect r job_update_failed h).1).1
        ≡ h
  written (answered u) h = refl
  written not_found h = refl
  written already_exists h = refl
  written refused h = refl
