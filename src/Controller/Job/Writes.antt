-- ===== src/Controller/Job/Writes.antt =====
-- What a reconciliation writes to the API server about its job.
use mathlib.Core.Path.{subst}
use durarun_operator.Prelude.{
  ℤ, String, ◌≡◌, refl, sym, inl, inr, Bool, false, Option, none, some, [], All, is_some,
}
use durarun_operator.State.{ConditionApi, is_job_terminal, is_attempt_succeeded}
use durarun_operator.Api.{AgentJob, AgentAttempt}
use durarun_operator.Controller.Ownership.{OwnershipError, JobSnapshot, active_attempt}
use durarun_operator.Controller.Server.{ApiServer, Reply, answered}
use durarun_operator.Controller.Sends.{
  Allowed, Sends, Sends-pure, Sends-fail, Sends-bind, Sends-if, Sends-update_job, Sends-get_attempt,
  Sends-create_attempt,
}
use durarun_operator.Controller.Attempt.{CtrlResult, AttemptOutcome}
use durarun_operator.Controller.Attempt.Quiet.{Sends-reconcile_attempt}
use durarun_operator.Controller.Job.Lawful.{
  IsLawfulWrite, violated-IsLawfulWrite, failed-IsLawfulWrite, succeeded-IsLawfulWrite,
  open-IsLawfulWrite, scheduled-open, running-open, retried-open,
}
use durarun_operator.Controller.Job.{
  first_violation, violated_job, scheduled_job, running_job, count_failure, retried_job,
  get_after_race, after_create, create_owned, create_new, reuse_or_create, create_attempt,
  write_job, schedule, retry_or_fail, by_outcome, with_active, checked, with_hash, reconcile,
}

ruleset job_rules = (
  Sends-pure, Sends-fail, Sends-bind, Sends-if, Sends-update_job, Sends-get_attempt,
  Sends-create_attempt,
)

module _ {P : AgentJob → Type 0} ⦃api : ConditionApi⦄ ⦃server : ApiServer⦄ where
  Sends-get_after_race : (r : Reply AgentAttempt) → Sends P (get_after_race r)
  unfolding get_after_race
  Sends-get_after_race (answered a) = search job_rules
  Sends-get_after_race _ = search job_rules

  Sends-after_create : (name : String) (r : Reply AgentAttempt) → Sends P (after_create name r)
  unfolding after_create
  Sends-after_create name (answered a) = search job_rules
  Sends-after_create name _ = search (job_rules, Sends-get_after_race)

  Sends-create_owned : (name : String) (o : Option AgentAttempt) → Sends P (create_owned name o)
  unfolding create_owned
  Sends-create_owned name none = search job_rules
  Sends-create_owned name (some a) = search (job_rules, Sends-after_create)

  Sends-create_new : (job : AgentJob) → Sends P (create_new job)
  unfolding create_new
  Sends-create_new job = Sends-create_owned _ _

  Sends-reuse_or_create :
      (job : AgentJob) (r : Reply AgentAttempt) → Sends P (reuse_or_create job r)
  unfolding reuse_or_create
  Sends-reuse_or_create job (answered a) = search job_rules
  Sends-reuse_or_create job _ = Sends-create_new job

  Sends-create : (job : AgentJob) → Sends P (create_attempt job)
  unfolding create_attempt
  Sends-create job = search (job_rules, Sends-reuse_or_create)

  Sends-write_job : (j : AgentJob) (result : CtrlResult) → P j → Sends P (write_job j result)
  unfolding write_job
  Sends-write_job j result p = search job_rules

module _ ⦃api : ConditionApi⦄ ⦃server : ApiServer⦄ (now : ℤ) (v : Bool) where
  Sends-schedule :
      (job : AgentJob)
      → is_job_terminal job.status.conditions ≡ false
      → Sends (IsLawfulWrite now v job) (schedule now job)
  unfolding schedule
  Sends-schedule job o = Sends-bind _ _ (Sends-create job) λ a. Sends-write_job _ _ (
      open-IsLawfulWrite now v job (scheduled_job now job a) (unfold scheduled_job in refl)
        (unfold scheduled_job in refl) (scheduled-open now job a o)
        (unfold scheduled_job in inl refl))

  Sends-retry_or_fail :
      (job : AgentJob)
      → is_job_terminal job.status.conditions ≡ false
      → Sends (IsLawfulWrite now v job) (retry_or_fail now (count_failure job))
  unfolding retry_or_fail count_failure
  Sends-retry_or_fail job o =
      Sends-if _ _ _
        (λ e. Sends-bind _ _ (Sends-create (count_failure job)) λ a. Sends-write_job _ _ (
          open-IsLawfulWrite now v job (retried_job now (count_failure job) a)
            (unfold retried_job count_failure in refl) (unfold retried_job count_failure in refl)
            (retried-open now (count_failure job) a (unfold count_failure in o))
            (unfold retried_job count_failure in inr refl)))
        (λ e. Sends-write_job _ _ (failed-IsLawfulWrite now v job o e))

  Sends-by_outcome :
      (job : AgentJob) (outcome : AttemptOutcome)
      → is_job_terminal job.status.conditions ≡ false
      → Sends (IsLawfulWrite now v job) (by_outcome now job outcome)
  unfolding by_outcome
  Sends-by_outcome job (ended, result, a) o =
      Sends-if ended _ _
        (λ _.
          Sends-if (is_attempt_succeeded a.status.conditions) _ _
            (λ _. Sends-write_job _ _ (succeeded-IsLawfulWrite now v job o))
            (λ _. Sends-retry_or_fail job o))
        (λ _.
          Sends-if (is_some a.status.start_time) _ _
            (λ _. Sends-write_job _ _ (
              open-IsLawfulWrite now v job (running_job now job) (unfold running_job in refl)
                (unfold running_job in refl) (running-open now job o)
                (unfold running_job in inl refl)))
            (λ _. Sends-pure _))

  Sends-with_active :
      (snap : JobSnapshot) (active : Option AgentAttempt)
      → is_job_terminal snap.job.status.conditions ≡ false
      → Sends (IsLawfulWrite now v snap.job) (with_active now snap active)
  unfolding with_active
  Sends-with_active snap none o = Sends-schedule snap.job o
  Sends-with_active snap (some a) o =
      Sends-bind _ _ (Sends-reconcile_attempt now snap a)
        λ outcome. Sends-by_outcome snap.job outcome o

  Sends-checked :
      (snap : JobSnapshot) (active : Option OwnershipError)
      → v ≡ is_some active
      → is_job_terminal snap.job.status.conditions ≡ false
      → Sends (IsLawfulWrite now v snap.job) (checked now snap active)
  unfolding checked
  Sends-checked snap (some violation) e o = Sends-write_job _ _ (
      subst (λ b. IsLawfulWrite now b snap.job (violated_job now snap.job)) (sym e)
        (violated-IsLawfulWrite now snap.job o))
  Sends-checked snap none e o = Sends-with_active snap (active_attempt snap) o

module _ ⦃api : ConditionApi⦄ ⦃server : ApiServer⦄ where
  -- Whatever the API server answers, every job that a reconciliation writes has the job's UID and
  -- spec, is not both complete and failed, has the present time as its completion time if it is
  -- terminal, has counted at most one more failure, and is failed only if an attempt in the snapshot
  -- is not the job's or the failures have reached the maximum.
  pub reconcile-writes_lawfully :
      (now : ℤ) (snap : JobSnapshot)
      → All
          (Allowed (
            IsLawfulWrite now
              (is_some (first_violation snap.job snap.attempts))
              (with_hash snap).job))
          (reconcile now snap []).1
  unfolding reconcile
  reconcile-writes_lawfully now snap =
      (Sends-if (is_job_terminal snap.job.status.conditions) _ _ (λ _. Sends-pure _)
          (λ o.
            Sends-checked now (is_some (first_violation snap.job snap.attempts)) (with_hash snap)
              (first_violation snap.job snap.attempts) refl o)).at
        [] tt
