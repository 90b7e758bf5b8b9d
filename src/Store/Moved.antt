-- ===== src/Store/Moved.antt =====
-- What TransitionJobState leaves when it returns no error (internal/store/store.go).
use mathlib.Core.Option.{map as map_option}
use durarun_operator.Prelude.{
  ℤ, String, ◌≡◌, refl, sym, ◌∙◌, Option, none, some, eq_refl, if◌then◌else◌, Bool-cases, inl, inr,
}
use durarun_operator.Model.{JobState, Job, job_state_eq}
use durarun_operator.Store.{Database, Result, ok, failed}
use durarun_operator.Store.View.{view-moved}
use durarun_operator.Store.Jobs.{transition_job_state, has_transition, move_job}
use durarun_operator.Store.Evolves.{job_state}

-- What TransitionJobState returned, and the state that the job then has.
abbrev pub IsMoved : String → JobState → Result Unit × Database → Type 0
IsMoved id target (failed e, db) = Unit
IsMoved id target (ok a, db) = job_state id db ≡ some target

move_job-IsMoved :
    (id : String) (from target : JobState) (trigger tid : String) (now : ℤ) (db : Database)
    → (o : Option Job) → map_option (λ r. r.state) o ≡ job_state id db
    → IsMoved id target (move_job id from target trigger tid now o db)
unfolding move_job
move_job-IsMoved id from target trigger tid now db none h = tt
move_job-IsMoved id from target trigger tid now db (some r) h =
    elim (Bool-cases (job_state_eq r.state from)) [
      | inl e ↦ elim (Bool-cases (has_transition tid db)) [
        | inl f ↦ rw (e, f, if◌then◌else◌) tt
        | inr f ↦
            rw (e, f, if◌then◌else◌)
              (view-moved (λ j. j.id) (λ j. j.state) id id
                  (λ j. record j { state = target; updated_at = now }) target r.state (λ j. refl)
                  (λ j. refl) db.jobs (sym h)
                ∙ (rw (eq_refl id, if◌then◌else◌) refl))
      ]
      | inr e ↦ rw (e, if◌then◌else◌) tt
    ]

-- When TransitionJobState returns no error, the job is in the state that was asked for.
pub transition_job_state-IsMoved :
    (id : String) (from target : JobState) (trigger tid : String) (now : ℤ) (db : Database)
    → IsMoved id target (transition_job_state id from target trigger tid now db)
unfolding transition_job_state
transition_job_state-IsMoved id from target trigger tid now db =
    move_job-IsMoved id from target trigger tid now db _ refl
