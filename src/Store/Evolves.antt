-- ===== src/Store/Evolves.antt =====
-- What every statement leaves behind: the states of jobs and attempts move only along the tables of
-- internal/model/model.go, and each move is recorded (internal/store/store.go).
use mathlib.Core.Path.{subst}
use mathlib.Core.List.{append_assoc, append-nil}
use durarun_operator.Prelude.{
  Bool, String, ◌≡◌, refl, sym, ap, ◌∙◌, Option, List, [], ◌++◌, filter_if-append,
}
use durarun_operator.Model.{
  JobState, AttemptState, StateTransition, job_pending, attempt_new, job_state_name,
  attempt_state_name, job_can_transition_to, attempt_can_transition_to,
}
use durarun_operator.Store.{Database}
use durarun_operator.Store.View.{view}
use durarun_operator.Store.Records.{transitions_of}
use durarun_operator.Store.Paths.{IsTraced, IsTraced-refl, IsTraced-append}

abbrev pub job_state : String → Database → Option JobState
job_state id db = view (λ j. j.id) (λ j. j.state) id db.jobs

abbrev pub attempt_state : String → Database → Option AttemptState
attempt_state id db = view (λ a. a.id) (λ a. a.state) id db.attempts

-- Which moves are allowed.
pub record Rights : Type 0 where
  pub job_may : JobState → JobState → Bool
  pub attempt_may : AttemptState → AttemptState → Bool

-- The moves of internal/model/model.go.
abbrev pub model_rights : Rights
model_rights = record { job_may = job_can_transition_to; attempt_may = attempt_can_transition_to }

module _ (rights : Rights) where
  abbrev pub JobTraced : Option JobState → List StateTransition → Option JobState → Type 0
  JobTraced = IsTraced job_state_name rights.job_may job_pending

  abbrev pub AttemptTraced :
      Option AttemptState → List StateTransition → Option AttemptState → Type 0
  AttemptTraced = IsTraced attempt_state_name rights.attempt_may attempt_new

  -- The rows that were added to state_transitions lead every job and every attempt from the state it
  -- had to the state it has.
  pub record Evolves (before after : Database) : Type 0 where
    pub added : List StateTransition
    pub logged : after.transitions ≡ before.transitions ++ added
    pub jobs :
        (id : String)
        → JobTraced (job_state id before) (transitions_of "job" id added) (job_state id after)
    pub attempts :
        (id : String)
        → AttemptTraced
            (attempt_state id before)
            (transitions_of "attempt" id added)
            (attempt_state id after)

  -- No state moves and nothing is recorded.
  pub Evolves-same :
      (before after : Database)
      → after.transitions ≡ before.transitions
      → ((id : String) → job_state id after ≡ job_state id before)
      → ((id : String) → attempt_state id after ≡ attempt_state id before)
      → Evolves before after
  Evolves-same before after t j a = record {
    added = [];
    logged = t ∙ sym (append-nil before.transitions);
    jobs = λ id.
        subst (λ o. JobTraced (job_state id before) [] o) (sym (j id))
          (IsTraced-refl job_state_name rights.job_may job_pending (job_state id before));
    attempts = λ id.
        subst (λ o. AttemptTraced (attempt_state id before) [] o) (sym (a id))
          (IsTraced-refl attempt_state_name rights.attempt_may attempt_new
            (attempt_state id before));
  }

  pub Evolves-refl : (db : Database) → Evolves db db
  Evolves-refl db = Evolves-same db db refl (λ id. refl) (λ id. refl)

  pub Evolves-trans : (a b c : Database) → Evolves a b → Evolves b c → Evolves a c
  Evolves-trans a b c h k = record {
    added = h.added ++ k.added;
    logged =
        k.logged ∙ ap (λ l. l ++ k.added) h.logged ∙ append_assoc a.transitions h.added k.added;
    jobs = λ id.
        subst (λ l. JobTraced (job_state id a) l (job_state id c))
          (sym (filter_if-append _ h.added k.added))
          (IsTraced-append job_state_name rights.job_may job_pending
            (transitions_of "job" id h.added) (transitions_of "job" id k.added) (job_state id a)
            (job_state id b) (job_state id c) (h.jobs id) (k.jobs id));
    attempts = λ id.
        subst (λ l. AttemptTraced (attempt_state id a) l (attempt_state id c))
          (sym (filter_if-append _ h.added k.added))
          (IsTraced-append attempt_state_name rights.attempt_may attempt_new
            (transitions_of "attempt" id h.added) (transitions_of "attempt" id k.added)
            (attempt_state id a) (attempt_state id b) (attempt_state id c) (h.attempts id)
            (k.attempts id));
  }
