-- ===== src/Model/Names.antt =====
-- The strings of the states tell the states apart (internal/model/model.go).
use durarun_operator.Prelude.{
  String, ◌≡◌, refl, sym, ap, ◌∙◌, true, false, str_eq, eq_iff, if◌then◌else◌,
}
use durarun_operator.Model.{
  JobState, AttemptState, job_pending, job_scheduled, job_running, job_completed, job_failed,
  job_terminated, job_claiming, job_activating, job_recovering, attempt_new, attempt_executing,
  attempt_completed, attempt_failed, attempt_timed_out, job_state_name, attempt_state_name,
  job_state_eq, attempt_state_eq, job_can_transition_to,
}

-- The state that a string names.
abbrev job_state_of : String → JobState
job_state_of s =
    if str_eq s "Pending"
    then job_pending
    else if str_eq s "Scheduled"
    then job_scheduled
    else if str_eq s "Running"
    then job_running
    else if str_eq s "Completed"
    then job_completed
    else if str_eq s "Failed"
    then job_failed
    else if str_eq s "Terminated"
    then job_terminated
    else if str_eq s "Claiming"
    then job_claiming
    else if str_eq s "Activating"
    then job_activating
    else job_recovering

job_state_of-name : (s : JobState) → job_state_of (job_state_name s) ≡ s
job_state_of-name job_pending = refl
job_state_of-name job_scheduled = refl
job_state_of-name job_running = refl
job_state_of-name job_completed = refl
job_state_of-name job_failed = refl
job_state_of-name job_terminated = refl
job_state_of-name job_claiming = refl
job_state_of-name job_activating = refl
job_state_of-name job_recovering = refl

pub job_state_eq→≡ : (s t : JobState) → job_state_eq s t ≡ true → s ≡ t
job_state_eq→≡ s t e =
    sym (job_state_of-name s)
    ∙ ap job_state_of ((eq_iff (job_state_name s) (job_state_name t)).0 e)
    ∙ job_state_of-name t

abbrev attempt_state_of : String → AttemptState
attempt_state_of s =
    if str_eq s "New"
    then attempt_new
    else if str_eq s "Executing"
    then attempt_executing
    else if str_eq s "Completed"
    then attempt_completed
    else if str_eq s "Failed"
    then attempt_failed
    else attempt_timed_out

attempt_state_of-name : (s : AttemptState) → attempt_state_of (attempt_state_name s) ≡ s
attempt_state_of-name attempt_new = refl
attempt_state_of-name attempt_executing = refl
attempt_state_of-name attempt_completed = refl
attempt_state_of-name attempt_failed = refl
attempt_state_of-name attempt_timed_out = refl

pub attempt_state_eq→≡ : (s t : AttemptState) → attempt_state_eq s t ≡ true → s ≡ t
attempt_state_eq→≡ s t e =
    sym (attempt_state_of-name s)
    ∙ ap attempt_state_of ((eq_iff (attempt_state_name s) (attempt_state_name t)).0 e)
    ∙ attempt_state_of-name t

-- No transition leads back to the first state.
pub never_pending : (s : JobState) → job_can_transition_to s job_pending ≡ false
never_pending job_pending = refl
never_pending job_scheduled = refl
never_pending job_running = refl
never_pending job_completed = refl
never_pending job_failed = refl
never_pending job_terminated = refl
never_pending job_claiming = refl
never_pending job_activating = refl
never_pending job_recovering = refl
