-- ===== src/Model.antt =====
-- internal/model/model.go: the jobs and attempts of the standalone service, their states and the
-- table of transitions.
--
-- A state is a string in the code and a constructor here, with its string as `job_state_name` and
-- `attempt_state_name`; states are compared by their strings, as in the code. A map of strings is a
-- list of pairs, and a time is a number of nanoseconds, which the code formats as RFC 3339.
pub mod Names
pub mod Validation
pub mod Defaults
use durarun_operator.Prelude.{
  ℕ, ℤ, String, Bool, true, false, Option, List, [], ◌∷◌, any, str_eq, ◌||◌,
}

pub data JobState : Type 0 where
  job_pending job_scheduled job_running job_completed job_failed job_terminated : JobState
  job_claiming job_activating job_recovering : JobState

abbrev pub job_state_name : JobState → String
job_state_name job_pending = "Pending"
job_state_name job_scheduled = "Scheduled"
job_state_name job_running = "Running"
job_state_name job_completed = "Completed"
job_state_name job_failed = "Failed"
job_state_name job_terminated = "Terminated"
job_state_name job_claiming = "Claiming"
job_state_name job_activating = "Activating"
job_state_name job_recovering = "Recovering"

abbrev pub valid_job_transitions : JobState → List JobState
valid_job_transitions job_pending = job_scheduled ∷ job_claiming ∷ job_terminated ∷ []
valid_job_transitions job_scheduled = job_running ∷ job_failed ∷ job_terminated ∷ []
valid_job_transitions job_running =
    job_completed ∷ job_failed ∷ job_scheduled ∷ job_recovering ∷ job_terminated ∷ []
valid_job_transitions job_completed = []
valid_job_transitions job_failed = []
valid_job_transitions job_terminated = []
valid_job_transitions job_claiming = job_activating ∷ job_scheduled ∷ job_terminated ∷ []
valid_job_transitions job_activating = job_running ∷ job_failed ∷ job_terminated ∷ []
valid_job_transitions job_recovering = job_running ∷ job_failed ∷ job_terminated ∷ []

-- `==` on JobState
abbrev pub job_state_eq : JobState → JobState → Bool
job_state_eq s t = str_eq (job_state_name s) (job_state_name t)

-- JobState.CanTransitionTo
abbrev pub job_can_transition_to : JobState → JobState → Bool
job_can_transition_to s target = any (λ t. job_state_eq t target) (valid_job_transitions s)

pub data AttemptState : Type 0 where
  attempt_new attempt_executing attempt_completed attempt_failed attempt_timed_out : AttemptState

abbrev pub attempt_state_name : AttemptState → String
attempt_state_name attempt_new = "New"
attempt_state_name attempt_executing = "Executing"
attempt_state_name attempt_completed = "Completed"
attempt_state_name attempt_failed = "Failed"
attempt_state_name attempt_timed_out = "TimedOut"

abbrev pub valid_attempt_transitions : AttemptState → List AttemptState
valid_attempt_transitions attempt_new = attempt_executing ∷ []
valid_attempt_transitions attempt_executing =
    attempt_completed ∷ attempt_failed ∷ attempt_timed_out ∷ []
valid_attempt_transitions attempt_completed = []
valid_attempt_transitions attempt_failed = []
valid_attempt_transitions attempt_timed_out = []

abbrev pub attempt_state_eq : AttemptState → AttemptState → Bool
attempt_state_eq s t = str_eq (attempt_state_name s) (attempt_state_name t)

-- AttemptState.CanTransitionTo
abbrev pub attempt_can_transition_to : AttemptState → AttemptState → Bool
attempt_can_transition_to s target =
    any (λ t. attempt_state_eq t target) (valid_attempt_transitions s)

pub record ResourceSpec : Type 0 where
  pub cpu_limit : String
  pub memory_limit : String

pub record IsolationSpec : Type 0 where
  pub level : String

pub record StepTrackingSpec : Type 0 where
  pub enabled : Bool
  pub protocol : String

pub record JobSpec : Type 0 where
  pub name : String
  pub image : String
  pub prompt : String
  pub timeout : String
  pub resources : ResourceSpec
  pub artifacts : List String
  pub env : List (String × String)
  pub max_retries : ℤ
  pub isolation : IsolationSpec
  pub step_tracking : StepTrackingSpec
  pub pool_ref : String

pub record Job : Type 0 where
  pub id : String
  pub spec : JobSpec
  pub state : JobState
  pub created_at : ℤ
  pub updated_at : ℤ

-- The columns that UpdateAttemptPoolInfo and UpdateAttemptStepProgress write stand beside the
-- fields of the Go struct.
pub record Attempt : Type 0 where
  pub id : String
  pub job_id : String
  pub number : ℕ
  pub worker_id : String
  pub state : AttemptState
  pub started_at : ℤ
  pub finished_at : Option ℤ
  pub last_heartbeat : ℤ
  pub checkpoint_id : Option String
  pub pool_info : Option (String × ℤ × Bool)
  pub step_progress : Option (String × ℕ)

pub record Checkpoint : Type 0 where
  pub id : String
  pub attempt_id : String
  pub job_id : String
  pub step_index : ℕ
  pub data_json : String
  pub created_at : ℤ

pub record StateTransition : Type 0 where
  pub id : String
  pub entity_type : String
  pub entity_id : String
  pub from_state : String
  pub to_state : String
  pub trigger : String
  pub created_at : ℤ
