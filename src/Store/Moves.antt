-- ===== src/Store/Moves.antt =====
-- The transitions of jobs and attempts move states along their tables (internal/store/store.go).
use mathlib.Core.Path.{subst}
use mathlib.Core.Option.{map as map_option}
use durarun_operator.Prelude.{
  ℤ, String, ◌≡◌, refl, sym, ap, ◌∙◌, Bool, true, false, Option, none, some, [], ◌∷◌, str_eq,
  eq_iff, if◌then◌else◌, Bool-cases, inl, inr,
}
use durarun_operator.Model.{
  JobState, AttemptState, Job, Attempt, StateTransition, job_pending, attempt_new, attempt_state_eq,
  job_state_name, job_state_eq, attempt_state_name,
}
use durarun_operator.Model.Names.{job_state_eq→≡, attempt_state_eq→≡}
use durarun_operator.Store.{Database}
use durarun_operator.Store.View.{view-moved}
use durarun_operator.Store.Jobs.{
  transition_job_state, write_job_state, transition_row, has_transition, move_job,
}
use durarun_operator.Store.Attempts.{
  transition_attempt_state, write_attempt_state, moved_attempt, move_attempt,
}
use durarun_operator.Store.Paths.{IsTraced, IsTraced-refl}
use durarun_operator.Store.Evolves.{Rights, Evolves, Evolves-refl, job_state, attempt_state}

-- One row moves from s to t, and one row of the log says so; `b` tells whether it is this one.
module _ {S : Type 0} (name : S → String) (can : S → S → Bool) (first : S) where
  one_moved :
      (b : Bool) (s t : S) (o o' : Option S) (row : StateTransition)
      → can s t ≡ true
      → row.from_state ≡ name s
      → row.to_state ≡ name t
      → (b ≡ true → o ≡ some s)
      → o' ≡ (if b then some t else o)
      → IsTraced name can first o (if b then row ∷ [] else []) o'
  one_moved true s t o o' row c f g before after =
      subst (λ z. IsTraced name can first z (row ∷ []) o') (sym (before refl))
        (subst (λ z. IsTraced name can first (some s) (row ∷ []) z) (sym after) (t, f, g, c, refl))
  one_moved false s t o o' row c f g before after =
      subst (λ z. IsTraced name can first o [] z) (sym after) (IsTraced-refl name can first o)

module _ (rights : Rights) where
  pub write_job_state-Evolves :
      (id : String) (from target : JobState) (trigger tid : String) (now : ℤ) (db : Database)
      → rights.job_may from target ≡ true
      → job_state id db ≡ some from
      → Evolves rights db (write_job_state id from target trigger tid now db).1
  write_job_state-Evolves id from target trigger tid now db c held =
      elim (Bool-cases (has_transition tid db)) [
        | inl e ↦ rw (e, if◌then◌else◌) (Evolves-refl rights db)
        | inr e ↦
            let row =
              transition_row tid "job" id (job_state_name from) (job_state_name target) trigger
                now in
            rw (e, if◌then◌else◌)
              (record {
                added = row ∷ [];
                logged = refl;
                jobs = λ x.
                    one_moved job_state_name rights.job_may job_pending (str_eq id x) from target
                      (job_state x db) _ row c refl refl
                      (λ same. subst (λ y. job_state y db ≡ some from) ((eq_iff id x).0 same) held)
                      (view-moved (λ j. j.id) (λ j. j.state) id x
                        (λ j. record j { state = target; updated_at = now }) target from (λ j. refl)
                        (λ j. refl) db.jobs held);
                attempts = λ x.
                    IsTraced-refl attempt_state_name rights.attempt_may attempt_new
                      (attempt_state x db);
              })
      ]

  pub write_attempt_state-Evolves :
      (id : String) (from target : AttemptState) (trigger tid : String) (now : ℤ) (db : Database)
      → rights.attempt_may from target ≡ true
      → attempt_state id db ≡ some from
      → Evolves rights db (write_attempt_state id from target trigger tid now db).1
  write_attempt_state-Evolves id from target trigger tid now db c held =
      elim (Bool-cases (has_transition tid db)) [
        | inl e ↦ rw (e, if◌then◌else◌) (Evolves-refl rights db)
        | inr e ↦
            let row =
              transition_row tid "attempt" id (attempt_state_name from) (attempt_state_name target)
                trigger now in
            rw (e, if◌then◌else◌)
              (record {
                added = row ∷ [];
                logged = refl;
                jobs =
                    λ x. IsTraced-refl job_state_name rights.job_may job_pending (job_state x db);
                attempts = λ x.
                    one_moved attempt_state_name rights.attempt_may attempt_new (str_eq id x) from
                      target (attempt_state x db) _ row c refl refl
                      (λ same.
                        subst (λ y. attempt_state y db ≡ some from) ((eq_iff id x).0 same) held)
                      (view-moved (λ a. a.id) (λ a. a.state) id x (moved_attempt target now) target
                        from (λ a. refl) (λ a. refl) db.attempts held);
              })
      ]

  move_job-Evolves :
      (id : String) (from target : JobState) (trigger tid : String) (now : ℤ) (db : Database)
      → rights.job_may from target ≡ true
      → (o : Option Job) → map_option (λ r. r.state) o ≡ job_state id db
      → Evolves rights db (move_job id from target trigger tid now o db).1
  unfolding move_job
  move_job-Evolves id from target trigger tid now db c none h = Evolves-refl rights db
  move_job-Evolves id from target trigger tid now db c (some r) h =
      elim (Bool-cases (job_state_eq r.state from)) [
        | inl e ↦
            rw (e, if◌then◌else◌)
              (write_job_state-Evolves id from target trigger tid now db c
                (sym h ∙ ap some (job_state_eq→≡ r.state from e)))
        | inr e ↦ rw (e, if◌then◌else◌) (Evolves-refl rights db)
      ]

  pub transition_job_state-Evolves :
      (id : String) (from target : JobState) (trigger tid : String) (now : ℤ) (db : Database)
      → rights.job_may from target ≡ true
      → Evolves rights db (transition_job_state id from target trigger tid now db).1
  unfolding transition_job_state
  transition_job_state-Evolves id from target trigger tid now db c =
      move_job-Evolves id from target trigger tid now db c _ refl

  move_attempt-Evolves :
      (id : String) (from target : AttemptState) (trigger tid : String) (now : ℤ) (db : Database)
      → rights.attempt_may from target ≡ true
      → (o : Option Attempt) → map_option (λ r. r.state) o ≡ attempt_state id db
      → Evolves rights db (move_attempt id from target trigger tid now o db).1
  unfolding move_attempt
  move_attempt-Evolves id from target trigger tid now db c none h = Evolves-refl rights db
  move_attempt-Evolves id from target trigger tid now db c (some r) h =
      elim (Bool-cases (attempt_state_eq r.state from)) [
        | inl e ↦
            rw (e, if◌then◌else◌)
              (write_attempt_state-Evolves id from target trigger tid now db c
                (sym h ∙ ap some (attempt_state_eq→≡ r.state from e)))
        | inr e ↦ rw (e, if◌then◌else◌) (Evolves-refl rights db)
      ]

  pub transition_attempt_state-Evolves :
      (id : String) (from target : AttemptState) (trigger tid : String) (now : ℤ) (db : Database)
      → rights.attempt_may from target ≡ true
      → Evolves rights db (transition_attempt_state id from target trigger tid now db).1
  unfolding transition_attempt_state
  transition_attempt_state-Evolves id from target trigger tid now db c =
      move_attempt-Evolves id from target trigger tid now db c _ refl
