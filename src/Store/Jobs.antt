-- ===== src/Store/Jobs.antt =====
-- The statements on the table of jobs (internal/store/store.go).
use durarun_operator.Prelude.{
  Option, ℤ, ltb_ℤ, String, Bool, true, none, some, List, [], ◌∷◌, ◌++◌, any, str_eq, if◌then◌else◌,
}
use durarun_operator.Model.{
  JobSpec, JobState, Job, StateTransition, job_pending, job_state_eq, job_state_name,
}
use durarun_operator.Store.{
  Database, Statement, ok, no_rows, state_mismatch, refuse, insert_when, has_job,
}
use durarun_operator.Store.Table.{select_by, update_by, order_by}

abbrev pub new_job : String → JobSpec → ℤ → Job
new_job id spec now = record {
  id = id;
  spec = spec;
  state = job_pending;
  created_at = now;
  updated_at = now;
}

-- Store.CreateJob
unfoldable pub create_job : String → JobSpec → ℤ → Statement Job
create_job id spec now db =
    insert_when (has_job id db) true
      (λ d. (ok (new_job id spec now), record d { jobs = d.jobs ++ new_job id spec now ∷ [] })) db

-- What Scan makes of at most one row.
abbrev pub one_row : {A : Type 0} → Option A → Statement A
one_row none db = refuse no_rows db
one_row (some a) db = (ok a, db)

-- Store.GetJob
abbrev pub get_job : String → Statement Job
get_job id db = one_row (select_by (λ j. j.id) id db.jobs) db

-- Store.ListJobs: ORDER BY created_at DESC
unfoldable pub list_jobs : Statement (List Job)
unfolding order_by
list_jobs db = (ok (order_by (λ j k. ltb_ℤ k.created_at j.created_at) db.jobs), db)

-- A row of state_transitions.
abbrev pub transition_row :
    String → String → String → String → String → String → ℤ → StateTransition
transition_row id entity_type entity_id from_state to_state trigger now = record {
  id = id;
  entity_type = entity_type;
  entity_id = entity_id;
  from_state = from_state;
  to_state = to_state;
  trigger = trigger;
  created_at = now;
}

abbrev pub has_transition : String → Database → Bool
has_transition id db = any (λ t. str_eq t.id id) db.transitions

-- The two writes of TransitionJobState.
abbrev pub write_job_state : String → JobState → JobState → String → String → ℤ → Statement Unit
write_job_state job_id from target trigger tid now db =
    insert_when (has_transition tid db) true
      (λ d. (
        ok tt,
        record d {
          jobs =
              update_by (λ j. j.id) job_id (λ j. record j { state = target; updated_at = now })
                d.jobs;
          transitions =
              d.transitions
              ++ transition_row tid "job" job_id (job_state_name from) (job_state_name target)
                  trigger now
                ∷ [];
        },
      ))
      db

-- TransitionJobState, once the row is read and locked.
unfoldable pub move_job :
    String → JobState → JobState → String → String → ℤ → Option Job → Statement Unit
move_job job_id from target trigger tid now none db = refuse no_rows db
move_job job_id from target trigger tid now (some j) db =
    if job_state_eq j.state from
    then write_job_state job_id from target trigger tid now db
    else refuse (state_mismatch (job_state_name j.state)) db

-- Store.TransitionJobState; `tid` is the id of the row that it adds to state_transitions.
unfoldable pub transition_job_state :
    String → JobState → JobState → String → String → ℤ → Statement Unit
unfolding move_job
transition_job_state job_id from target trigger tid now db =
    move_job job_id from target trigger tid now (select_by (λ j. j.id) job_id db.jobs) db
