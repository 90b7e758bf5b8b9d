-- ===== src/Store/Inserts.antt =====
-- The other statements on jobs and attempts, which record no move (internal/store/store.go).
use mathlib.Core.Path.{subst}
use mathlib.Core.List.{append-nil}
use durarun_operator.Prelude.{
  ℕ, ℤ, String, ◌≡◌, refl, sym, Bool, true, false, Option, none, some, [], str_eq, eq_iff,
  if◌then◌else◌, Bool-cases, inl, inr,
}
use durarun_operator.Model.{
  JobSpec, Attempt, job_pending, attempt_new, job_state_name, attempt_state_name,
}
use durarun_operator.Store.{Database, has_job, has_attempt}
use durarun_operator.Store.View.{view-kept, view-added, view-none}
use durarun_operator.Store.Jobs.{create_job, new_job, one_row, get_job, list_jobs}
use durarun_operator.Store.Attempts.{
  insert_attempt, new_attempt, update_attempt, get_attempts, claim_scheduled_attempt, claim_row,
  oldest_new,
}
use durarun_operator.Store.Paths.{IsTraced, IsTraced-refl}
use durarun_operator.Store.Evolves.{
  Rights, Evolves, Evolves-refl, Evolves-same, job_state, attempt_state,
}

module _ {S : Type 0} (name : S → String) (can : S → S → Bool) (first : S) where
  -- One row is made in the first state.
  one_made :
      (b : Bool) (o o' : Option S)
      → (b ≡ true → o ≡ none)
      → o' ≡ (if b then some first else o)
      → IsTraced name can first o [] o'
  one_made true o o' before after =
      subst (λ z. IsTraced name can first z [] o') (sym (before refl))
        (subst (λ z. IsTraced name can first none [] z) (sym after) refl)
  one_made false o o' before after =
      subst (λ z. IsTraced name can first o [] z) (sym after) (IsTraced-refl name can first o)

module _ (rights : Rights) where
  pub create_job-Evolves :
      (id : String) (spec : JobSpec) (now : ℤ) (db : Database)
      → Evolves rights db (create_job id spec now db).1
  unfolding create_job
  create_job-Evolves id spec now db = elim (Bool-cases (has_job id db)) [
    | inl e ↦ rw (e, if◌then◌else◌) (Evolves-refl rights db)
    | inr e ↦
        rw (e, if◌then◌else◌)
          (record {
            added = [];
            logged = sym (append-nil db.transitions);
            jobs = λ x.
                one_made job_state_name rights.job_may job_pending (str_eq id x) (job_state x db) _
                  (λ same.
                    subst (λ y. job_state y db ≡ none) ((eq_iff id x).0 same)
                      (view-none (λ j. j.id) (λ j. j.state) id db.jobs e))
                  (view-added (λ j. j.id) (λ j. j.state) x (new_job id spec now) db.jobs e);
            attempts = λ x.
                IsTraced-refl attempt_state_name rights.attempt_may attempt_new
                  (attempt_state x db);
          })
  ]

  pub insert_attempt-Evolves :
      (id job_id : String) (number : ℕ) (worker_id : String) (now : ℤ) (db : Database)
      → Evolves rights db (insert_attempt id job_id number worker_id now db).1
  unfolding insert_attempt
  insert_attempt-Evolves id job_id number worker_id now db = elim (Bool-cases (has_attempt id db)) [
    | inl e ↦ rw (e, if◌then◌else◌) (Evolves-refl rights db)
    | inr e ↦ elim (Bool-cases (has_job job_id db)) [
      | inl f ↦
          rw (e, f, if◌then◌else◌)
            (record {
              added = [];
              logged = sym (append-nil db.transitions);
              jobs = λ x. IsTraced-refl job_state_name rights.job_may job_pending (job_state x db);
              attempts = λ x.
                  one_made attempt_state_name rights.attempt_may attempt_new (str_eq id x)
                    (attempt_state x db) _
                    (λ same.
                      subst (λ y. attempt_state y db ≡ none) ((eq_iff id x).0 same)
                        (view-none (λ a. a.id) (λ a. a.state) id db.attempts e))
                    (view-added (λ a. a.id) (λ a. a.state) x
                      (new_attempt id job_id number worker_id now) db.attempts e);
            })
      | inr f ↦ rw (e, f, if◌then◌else◌) (Evolves-refl rights db)
    ]
  ]

  -- An UPDATE of attempts that writes neither the id nor the state.
  pub update_attempt-Evolves :
      (id : String) (f : Attempt → Attempt) (db : Database)
      → ((a : Attempt) → (f a).id ≡ a.id)
      → ((a : Attempt) → (f a).state ≡ a.state)
      → Evolves rights db (update_attempt id f db)
  update_attempt-Evolves id f db same kept =
      Evolves-same rights db (update_attempt id f db) refl (λ x. refl)
        (λ x. view-kept (λ a. a.id) (λ a. a.state) id x f same kept db.attempts)

  claim_row-Evolves :
      (worker_id : String) (o : Option Attempt) (db : Database)
      → Evolves rights db (claim_row worker_id o db).1
  unfolding claim_row
  claim_row-Evolves worker_id none db = Evolves-refl rights db
  claim_row-Evolves worker_id (some a) db =
      update_attempt-Evolves a.id (λ r. record r { worker_id = worker_id }) db (λ r. refl)
        (λ r. refl)

  pub claim_scheduled_attempt-Evolves :
      (worker_id : String) (db : Database)
      → Evolves rights db (claim_scheduled_attempt worker_id db).1
  unfolding claim_scheduled_attempt
  claim_scheduled_attempt-Evolves worker_id db = claim_row-Evolves worker_id (oldest_new db) db

  one_row-Evolves : {A : Type 0} (o : Option A) (db : Database) → Evolves rights db (one_row o db).1
  one_row-Evolves none db = Evolves-refl rights db
  one_row-Evolves (some a) db = Evolves-refl rights db

  pub get_job-Evolves : (id : String) (db : Database) → Evolves rights db (get_job id db).1
  get_job-Evolves id db = one_row-Evolves _ db

  pub list_jobs-Evolves : (db : Database) → Evolves rights db (list_jobs db).1
  unfolding list_jobs
  list_jobs-Evolves db = Evolves-refl rights db

  pub get_attempts-Evolves :
      (job_id : String) (db : Database) → Evolves rights db (get_attempts job_id db).1
  unfolding get_attempts
  get_attempts-Evolves job_id db = Evolves-refl rights db
