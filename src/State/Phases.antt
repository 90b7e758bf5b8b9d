-- ===== src/State/Phases.antt =====
-- JobPhaseFromConditions and AttemptPhaseFromConditions against the terminal tests.
use durarun_operator.Prelude.{◌≡◌, refl, Bool, true, false, List, [], ◌∷◌, arith}
use durarun_operator.State.{
  Condition, Phase, pending, scheduling, running, succeeded, failed, is_true, is_job_terminal,
  job_phase_from_conditions, job_phase_terminal, job_phase_active, attempt_phase_from_conditions,
  is_attempt_terminal, attempt_condition_pod_created,
}

abbrev pub is_final : Phase → Bool
is_final succeeded = true
is_final failed = true
is_final pending = false
is_final scheduling = false
is_final running = false

job_phase_active-not_final : (cs : List Condition) → is_final (job_phase_active cs) ≡ false
unfolding job_phase_active
job_phase_active-not_final [] = refl
job_phase_active-not_final (c ∷ cs) = ground (arith, job_phase_active-not_final cs)

job_phase_terminal-is_job_terminal :
    (cs : List Condition) (other : Phase)
    → is_final other ≡ false
    → is_final (job_phase_terminal cs other) ≡ is_job_terminal cs
unfolding job_phase_terminal is_job_terminal
job_phase_terminal-is_job_terminal [] other h = h
job_phase_terminal-is_job_terminal (c ∷ cs) other h =
    ground (arith, job_phase_terminal-is_job_terminal cs other h)

-- The phase of a job is Succeeded or Failed exactly when the job is terminal.
pub job_phase-is_job_terminal :
    (cs : List Condition) → is_final (job_phase_from_conditions cs) ≡ is_job_terminal cs
unfolding job_phase_from_conditions
job_phase-is_job_terminal cs =
    job_phase_terminal-is_job_terminal cs (job_phase_active cs) (job_phase_active-not_final cs)

-- When the first condition of an attempt is a true PodCreated, its phase is Pending whatever the
-- other conditions are, and it is terminal exactly when the others make it so.
pub attempt_phase-pod_created_first :
    (c : Condition) (cs : List Condition)
    → is_true c.status ≡ true
    → c.type ≡ attempt_condition_pod_created
    → (attempt_phase_from_conditions (c ∷ cs) ≡ pending)
      × (is_attempt_terminal (c ∷ cs) ≡ is_attempt_terminal cs)
unfolding attempt_phase_from_conditions is_attempt_terminal
attempt_phase-pod_created_first c cs h e = (rw (h, e), rw (h, e))
