-- ===== src/State.antt =====
-- internal/state (job.go, attempt.go, terminal.go) and the phase functions of api/v1alpha1:
-- Kubernetes conditions and the terminal state of jobs and attempts.
--
-- `SetStatusCondition` belongs to k8s.io/apimachinery. It is the operation of `ConditionApi`, whose
-- laws are its documented behaviour. A slice that is passed by pointer is a list that is returned,
-- and `time.Now()` is an argument.
pub mod Conditions
pub mod Terminal
pub mod Phases
pub mod Snapshot
pub mod Attempts
pub mod Examples
use durarun_operator.Prelude.{
  ℤ, String, ◌≡◌, ◌≢◌, Bool, true, false, ◌&&◌, ◌||◌, List, [], ◌∷◌, str_eq, any, if◌then◌else◌,
}

-- metav1.ConditionStatus
pub data ConditionStatus : Type 0 where
  condition_true condition_false condition_unknown : ConditionStatus

abbrev pub is_true : ConditionStatus → Bool
is_true condition_true = true
is_true condition_false = false
is_true condition_unknown = false

-- metav1.Condition
pub record Condition : Type 0 where
  pub type : String
  pub status : ConditionStatus
  pub reason : String
  pub message : String
  pub last_transition_time : ℤ

abbrev pub has_true : List Condition → String → Bool
has_true cs t = any (λ c. is_true c.status && str_eq c.type t) cs

-- apimachinery's meta.SetStatusCondition: it writes the condition of the given type, and no other.
pub record ConditionApi : Type 0 where
  pub set_status_condition : List Condition → Condition → List Condition
  pub set_true :
      (cs : List Condition) (c : Condition)
      → is_true c.status ≡ true
      → has_true (set_status_condition cs c) c.type ≡ true
  pub set_other :
      (cs : List Condition) (c : Condition) (t : String)
      → str_eq c.type t ≡ false
      → has_true (set_status_condition cs c) t ≡ has_true cs t

abbrev pub job_condition_scheduled : String
job_condition_scheduled = "Scheduled"

abbrev pub job_condition_running : String
job_condition_running = "Running"

abbrev pub job_condition_complete : String
job_condition_complete = "Complete"

abbrev pub job_condition_failed : String
job_condition_failed = "Failed"

abbrev pub attempt_condition_pod_created : String
attempt_condition_pod_created = "PodCreated"

abbrev pub attempt_condition_running : String
attempt_condition_running = "Running"

abbrev pub attempt_condition_complete : String
attempt_condition_complete = "Complete"

abbrev pub attempt_condition_failed : String
attempt_condition_failed = "Failed"

unfoldable pub is_job_terminal : List Condition → Bool
is_job_terminal [] = false
is_job_terminal (c ∷ cs) =
    let rest = is_job_terminal cs in
    if is_true c.status
    then if str_eq c.type job_condition_complete || str_eq c.type job_condition_failed
      then true
      else rest
    else rest

unfoldable pub is_attempt_terminal : List Condition → Bool
is_attempt_terminal [] = false
is_attempt_terminal (c ∷ cs) =
    let rest = is_attempt_terminal cs in
    if is_true c.status
    then if str_eq c.type attempt_condition_complete || str_eq c.type attempt_condition_failed
      then true
      else rest
    else rest

unfoldable pub is_attempt_succeeded : List Condition → Bool
is_attempt_succeeded [] = false
is_attempt_succeeded (c ∷ cs) =
    if is_true c.status && str_eq c.type attempt_condition_complete
    then true
    else is_attempt_succeeded cs

module _ ⦃api : ConditionApi⦄ where
  unfoldable pub set_job_condition :
      List Condition → String → ConditionStatus → String → String → ℤ → List Condition
  set_job_condition cs type status reason message now = api.set_status_condition cs (record {
    type = type;
    status = status;
    reason = reason;
    message = message;
    last_transition_time = now;
  })

  unfoldable pub set_attempt_condition :
      List Condition → String → ConditionStatus → String → String → ℤ → List Condition
  set_attempt_condition cs type status reason message now = api.set_status_condition cs (record {
    type = type;
    status = status;
    reason = reason;
    message = message;
    last_transition_time = now;
  })

  -- The conditions afterwards, and whether they were written.
  unfoldable pub try_set_job_terminal :
      List Condition → String → ConditionStatus → String → String → ℤ → List Condition × Bool
  try_set_job_terminal cs type status reason message now =
      if is_job_terminal cs
      then (cs, false)
      else (set_job_condition cs type status reason message now, true)

  -- The slice that was passed in, the slice that is returned, and whether the swap was made.
  unfoldable pub try_terminal_cas :
      List Condition
      → String
      → ConditionStatus
      → String
      → String
      → ℤ
      → List Condition × List Condition × Bool
  try_terminal_cas cs type status reason message now =
      let (copied, ok) = try_set_job_terminal cs type status reason message now in
      if ok then (cs, copied, true) else (cs, cs, false)

-- The strings that JobPhaseFromConditions and AttemptPhaseFromConditions return.
pub data Phase : Type 0 where
  pending scheduling running succeeded failed : Phase

-- JobPhaseFromConditions: the first loop looks for a terminal condition, the second for another.
job_phase_terminal : List Condition → Phase → Phase
job_phase_terminal [] other = other
job_phase_terminal (c ∷ cs) other =
    let rest = job_phase_terminal cs other in
    if is_true c.status
    then if str_eq c.type job_condition_complete
      then succeeded
      else if str_eq c.type job_condition_failed
      then failed
      else rest
    else rest

job_phase_active : List Condition → Phase
job_phase_active [] = pending
job_phase_active (c ∷ cs) =
    let rest = job_phase_active cs in
    if is_true c.status
    then if str_eq c.type job_condition_running
      then running
      else if str_eq c.type job_condition_scheduled
      then scheduling
      else rest
    else rest

unfoldable pub job_phase_from_conditions : List Condition → Phase
unfolding job_phase_terminal job_phase_active
job_phase_from_conditions cs = job_phase_terminal cs (job_phase_active cs)

unfoldable pub attempt_phase_from_conditions : List Condition → Phase
attempt_phase_from_conditions [] = pending
attempt_phase_from_conditions (c ∷ cs) =
    let rest = attempt_phase_from_conditions cs in
    if is_true c.status
    then if str_eq c.type attempt_condition_complete
      then succeeded
      else if str_eq c.type attempt_condition_failed
      then failed
      else if str_eq c.type attempt_condition_running
      then running
      else if str_eq c.type attempt_condition_pod_created
      then pending
      else rest
    else rest
