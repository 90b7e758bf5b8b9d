-- ===== src/Controller/Job/Lawful.antt =====
-- The jobs that a reconciliation may write to the API server.
use mathlib.Core.Path.{subst}
use mathlib.Core.Bool.{false≢true}
use durarun_operator.Prelude.{
  ℤ, pos, add_int32, ltb_ℤ, leb_ℤ, String, ◌≡◌, refl, sym, ◌∙◌, ap, ◌⊎◌, inl, inr, Bool, true,
  false, ◌&&◌, some, arith,
}
use durarun_operator.State.{
  ConditionApi, condition_true, condition_false, is_job_terminal, set_job_condition,
  job_condition_complete, job_condition_failed,
}
use durarun_operator.State.Terminal.{
  IsTerminalType, is_complete, is_failed, try_when_open, set_terminal-exclusive,
  is_job_terminal-set_other, not_failed-set_complete, not_terminal-not_failed,
}
use durarun_operator.Api.{AgentJob, AgentAttempt}
use durarun_operator.Controller.Job.{
  finish_job, violated_job, scheduled_job, running_job, succeeded_job, count_success, count_failure,
  retried_job, failed_job,
}

-- A job that is written in a reconciliation of `job`, at the time `now`, when `violation` says
-- whether some attempt is not the job's.
pub record IsLawfulWrite (now : ℤ) (violation : Bool) (job j : AgentJob) : Type 0 where
  pub same_uid : j.uid ≡ job.uid
  pub same_spec : j.spec ≡ job.spec
  pub one_verdict : (is_complete j.status.conditions && is_failed j.status.conditions) ≡ false
  pub completion_dated :
      is_job_terminal j.status.conditions ≡ true → j.status.completion_time ≡ some now
  pub failures_counted :
      (j.status.failed_attempts ≡ job.status.failed_attempts)
      ⊎ (j.status.failed_attempts ≡ add_int32 job.status.failed_attempts (pos 1))
  pub failed_for_a_reason :
      is_failed j.status.conditions ≡ true
      → (violation ≡ true) ⊎ (leb_ℤ job.spec.execution.max_attempts j.status.failed_attempts ≡ true)

module _ ⦃api : ConditionApi⦄ (now : ℤ) where
  finish-conditions :
      (job : AgentJob) (t reason message : String)
      → is_job_terminal job.status.conditions ≡ false
      → (finish_job now job t reason message).status.conditions
        ≡ set_job_condition job.status.conditions t condition_true reason message now
  unfolding finish_job
  finish-conditions job t reason message open_job =
      try_when_open job.status.conditions t condition_true reason message now open_job

  finish-one_verdict :
      (job : AgentJob) (t reason message : String)
      → IsTerminalType t
      → is_job_terminal job.status.conditions ≡ false
      → (is_complete (finish_job now job t reason message).status.conditions
          && is_failed (finish_job now job t reason message).status.conditions)
        ≡ false
  finish-one_verdict job t reason message k open_job =
      subst (λ cs. (is_complete cs && is_failed cs) ≡ false)
        (sym (finish-conditions job t reason message open_job))
        (set_terminal-exclusive job.status.conditions t condition_true reason message now k
          open_job)

  pub violated-IsLawfulWrite :
      (job : AgentJob)
      → is_job_terminal job.status.conditions ≡ false
      → IsLawfulWrite now true job (violated_job now job)
  unfolding violated_job
  violated-IsLawfulWrite job o = record {
    same_uid = unfold finish_job in refl;
    same_spec = unfold finish_job in refl;
    one_verdict = finish-one_verdict job job_condition_failed _ _ (inr refl) o;
    completion_dated = λ _. unfold finish_job in refl;
    failures_counted = unfold finish_job in inl refl;
    failed_for_a_reason = λ _. inl refl;
  }

  pub failed-IsLawfulWrite :
      (v : Bool) (job : AgentJob)
      → is_job_terminal job.status.conditions ≡ false
      → ltb_ℤ (count_failure job).status.failed_attempts job.spec.execution.max_attempts ≡ false
      → IsLawfulWrite now v job (failed_job now (count_failure job))
  unfolding failed_job
  failed-IsLawfulWrite v job o e = record {
    same_uid = unfold finish_job count_failure in refl;
    same_spec = unfold finish_job count_failure in refl;
    one_verdict =
        finish-one_verdict (count_failure job) job_condition_failed _ _ (inr refl)
          (unfold count_failure in o);
    completion_dated = λ _. unfold finish_job in refl;
    failures_counted = unfold finish_job count_failure in inr refl;
    failed_for_a_reason = λ _. inr (unfold finish_job count_failure in ground (arith, e));
  }

  pub succeeded-IsLawfulWrite :
      (v : Bool) (job : AgentJob)
      → is_job_terminal job.status.conditions ≡ false
      → IsLawfulWrite now v job (succeeded_job now (count_success job))
  unfolding succeeded_job
  succeeded-IsLawfulWrite v job o =
      let counted : is_job_terminal (count_success job).status.conditions ≡ false =
        unfold count_success in o in
      record {
        same_uid = unfold finish_job count_success in refl;
        same_spec = unfold finish_job count_success in refl;
        one_verdict =
            finish-one_verdict (count_success job) job_condition_complete _ _ (inl refl) counted;
        completion_dated = λ _. unfold finish_job in refl;
        failures_counted = unfold finish_job count_success in inl refl;
        failed_for_a_reason = λ f. absurd (
            false≢true (
              sym (
                not_failed-set_complete (count_success job).status.conditions "Succeeded"
                  "Job completed successfully" now counted)
              ∙ ap is_failed (
                  sym (
                    finish-conditions (count_success job) job_condition_complete "Succeeded"
                      "Job completed successfully" counted))
              ∙ f));
      }

  -- A write that leaves the job open.
  pub open-IsLawfulWrite :
      (v : Bool) (job j : AgentJob)
      → j.uid ≡ job.uid
      → j.spec ≡ job.spec
      → is_job_terminal j.status.conditions ≡ false
      → (j.status.failed_attempts ≡ job.status.failed_attempts)
        ⊎ (j.status.failed_attempts ≡ add_int32 job.status.failed_attempts (pos 1))
      → IsLawfulWrite now v job j
  open-IsLawfulWrite v job j u s o c =
      let not_failed = not_terminal-not_failed j.status.conditions o in
      record {
        same_uid = u;
        same_spec = s;
        one_verdict = ground (arith, not_failed);
        completion_dated = λ t. absurd (false≢true (sym o ∙ t));
        failures_counted = c;
        failed_for_a_reason = λ f. absurd (false≢true (sym not_failed ∙ f));
      }

  pub scheduled-open :
      (job : AgentJob) (a : AgentAttempt)
      → is_job_terminal job.status.conditions ≡ false
      → is_job_terminal (scheduled_job now job a).status.conditions ≡ false
  unfolding scheduled_job
  scheduled-open job a o =
      is_job_terminal-set_other job.status.conditions _ condition_true _ _ now refl refl ∙ o

  pub running-open :
      (job : AgentJob)
      → is_job_terminal job.status.conditions ≡ false
      → is_job_terminal (running_job now job).status.conditions ≡ false
  unfolding running_job
  running-open job o =
      is_job_terminal-set_other job.status.conditions _ condition_true _ _ now refl refl ∙ o

  pub retried-open :
      (job : AgentJob) (a : AgentAttempt)
      → is_job_terminal job.status.conditions ≡ false
      → is_job_terminal (retried_job now job a).status.conditions ≡ false
  unfolding retried_job
  retried-open job a o =
      is_job_terminal-set_other _ _ condition_true _ _ now refl refl
      ∙ is_job_terminal-set_other job.status.conditions _ condition_false _ _ now refl refl
      ∙ o
