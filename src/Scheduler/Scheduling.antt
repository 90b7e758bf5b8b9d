-- ===== src/Scheduler/Scheduling.antt =====
-- No pending job is passed over in silence (internal/scheduler/reconciler.go).
use mathlib.Core.Path.{subst}
use mathlib.Core.Option.{some_inj}
use durarun_operator.Prelude.{
  ℕ, String, ◌≡◌, refl, sym, ap, ◌∙◌, Bool, true, false, ◌&&◌, not, ◌||◌, Option, none, some, List,
  [], ◌∷◌, any, str_eq, eq_iff, eq_refl, if◌then◌else◌, arith, Bool-cases, inl, inr,
}
use durarun_operator.Model.{Job, JobState, job_pending, job_scheduled, job_state_eq}
use durarun_operator.Model.Names.{job_state_eq→≡}
use durarun_operator.Store.{Database, Result, ok, failed}
use durarun_operator.Store.Table.{order_by-any}
use durarun_operator.Store.Jobs.{list_jobs, transition_job_state}
use durarun_operator.Store.Evolves.{model_rights, job_state}
use durarun_operator.Store.View.{view, view-head, view-tail}
use durarun_operator.Store.Inserts.{list_jobs-Evolves}
use durarun_operator.Store.Moved.{IsMoved, transition_job_state-IsMoved}
use durarun_operator.Store.Session.{
  World, Environment, ◌>>=◌, ◌>>◌, for_each, report, when, on_result, statement, at_next,
}
use durarun_operator.Store.Follows.{Follows, for_each-Refines, statement-Refines}
use durarun_operator.Scheduler.{
  Reconciler, move_job_or_report, schedule_attempt, schedule_job, schedule_pending_jobs,
}
use durarun_operator.Scheduler.Refined.{scheduler_rights, schedule_job-Refines}
use durarun_operator.Scheduler.Handled.{
  concerns, is_pending, Handled, Present, Present-kept, Handled-kept, Handles, bind-Handles,
  report-Handles, report_unless, on_result-Handles,
}

module _ (env : Environment)
    (others : (n : ℕ) (w : World) → Follows model_rights w (env.others n w)) (r : Reconciler) where
  statement-IsMoved :
      (id : String) (from target : JobState) (trigger : String) (w : World)
      → let after =
          statement env (λ tid now. transition_job_state id from target trigger tid now) w in
        IsMoved id target (after.0, after.1.db)
  unfolding statement
  statement-IsMoved id from target trigger w = elim (Bool-cases (env.fails w.tick)) [
    | inl e ↦ rw (e, if◌then◌else◌) tt
    | inr e ↦
        rw (e, if◌then◌else◌)
          (transition_job_state-IsMoved id from target trigger (env.uuid w.tick) (env.now w.tick)
            (at_next env w).db)
  ]

  move_job_or_report-Handles :
      (id : String) (from target : JobState) (trigger : String)
      → job_state_eq target job_pending ≡ false
      → Handles id (move_job_or_report env r id from target trigger)
  unfolding move_job_or_report ◌>>=◌
  move_job_or_report-Handles id from target trigger d = record {
    handles = λ w. report_unless id target d _ _ (statement-IsMoved id from target trigger w);
  }

  schedule_attempt-Handles :
      (id : String) (from : JobState) (trigger : String)
      → Handles id (schedule_attempt env r id from trigger)
  unfolding schedule_attempt
  schedule_attempt-Handles id from trigger = bind-Handles _ (λ made.
      on_result-Handles made (λ e. report-Handles "CreateAttempt" id refl)
        (λ _. move_job_or_report-Handles id from job_scheduled trigger refl))

  schedule_job-Handles :
      (job : Job)
      → job_state_eq job.state job_pending ≡ true
      → Handles job.id (schedule_job env r job)
  unfolding schedule_job when
  schedule_job-Handles job e =
      rw (e, when) (bind-Handles _ (λ warm. schedule_attempt-Handles job.id job_pending _))

  -- The rows of the snapshot that are to be scheduled.
  abbrev is_pending_row : String → Job → Bool
  is_pending_row id j = str_eq j.id id && job_state_eq j.state job_pending

  for_each-Handled :
      (id : String) (js : List Job) (w : World)
      → Present id w
      → any (is_pending_row id) js ≡ true
      → Handled id (for_each js (schedule_job env r) w).1
  unfolding for_each ◌>>◌ ◌>>=◌
  for_each-Handled id [] w p h = absurd (ground (arith, h))
  for_each-Handled id (j ∷ js) w p h =
      let first = schedule_job-Refines model_rights scheduler_rights env others r j in
      let v = (schedule_job env r j w).1 in
      let there = Present-kept id w v (first.follows w) p in
      elim (Bool-cases (is_pending_row id j)) [
        | inl e ↦
            let same = (eq_iff j.id id).0 (ground (arith, e)) in
            let now =
              subst (λ x. Handled x v) same
                ((schedule_job-Handles j (ground (arith, e))).handles w) in
            Handled-kept id v _
              ((for_each-Refines model_rights js
                  (schedule_job-Refines model_rights scheduler_rights env others r)).follows
                v)
              there now
        | inr e ↦ for_each-Handled id js v there (ground (arith, h, e))
      ]

  pending_row_there :
      (id : String) (jobs : List Job)
      → view (λ j. j.id) (λ j. j.state) id jobs ≡ some job_pending
      → any (is_pending_row id) jobs ≡ true
  pending_row_there id [] h = absurd (ground (arith, h))
  pending_row_there id (j ∷ jobs) h = elim (Bool-cases (str_eq j.id id)) [
    | inl e ↦
        let held : some j.state ≡ some job_pending =
          sym (view-head (λ q. q.id) (λ q. q.state) id j jobs e) ∙ h in
        ground (arith, e, ap (λ s. job_state_eq s job_pending) (some_inj.0 held))
    | inr e ↦ ground (
      arith,
      e,
      pending_row_there id jobs (sym (view-tail (λ q. q.id) (λ q. q.state) id j jobs e) ∙ h),
    )
  ]

  -- What ListJobs returned, and the table.
  abbrev IsListed : String → Result (List Job) → Database → Type 0
  IsListed id (failed e) db = Unit
  IsListed id (ok js) db = job_state id db ≡ some job_pending → any (is_pending_row id) js ≡ true

  statement-IsListed :
      (id : String) (w : World)
      → let after = statement env (λ _ _. list_jobs) w in IsListed id after.0 after.1.db
  unfolding statement list_jobs
  statement-IsListed id w = elim (Bool-cases (env.fails w.tick)) [
    | inl e ↦ rw (e, if◌then◌else◌) tt
    | inr e ↦
        rw (e, if◌then◌else◌)
          (λ h.
            order_by-any (is_pending_row id) _ (at_next env w).db.jobs ∙ pending_row_there id _ h)
  ]

  schedule_listed :
      (id : String) (listed : Result (List Job)) (v : World)
      → Present id v
      → IsListed id listed v.db
      → Handled id
          (on_result listed
            (λ e. report "ListJobs" "")
            (λ js. for_each js (schedule_job env r))
            v).1
  unfolding on_result report
  schedule_listed id (failed e) v p h pending = ground (arith, eq_refl "ListJobs")
  schedule_listed id (ok js) v p h pending = elim (Bool-cases (job_state_eq p.0 job_pending)) [
    | inl e ↦
        for_each-Handled id js v p (h (p.1 ∙ ap some (job_state_eq→≡ p.0 job_pending e))) pending
    | inr e ↦
        Handled-kept id v _
          ((for_each-Refines model_rights js
              (schedule_job-Refines model_rights scheduler_rights env others r)).follows
            v)
          p
          (λ still. absurd (
            ground (arith, e, ap (λ s. job_state_eq s job_pending) (some_inj.0 (sym p.1 ∙ still)))))
          pending
  ]

  cleared_or_said :
      (id : String) (o : Option JobState) (v : World)
      → job_state id v.db ≡ o
      → Handled id v
      → (not (is_pending o) || any (concerns id) v.lines) ≡ true
  cleared_or_said id none v e h = refl
  cleared_or_said id (some s) v e h = elim (Bool-cases (job_state_eq s job_pending)) [
    | inl p ↦ ground (arith, h (e ∙ ap some (job_state_eq→≡ s job_pending p)), p)
    | inr p ↦ ground (arith, p)
  ]

  schedule_pending_jobs-Handled :
      (id : String) (s : JobState) (w : World)
      → job_state id w.db ≡ some s
      → Handled id (schedule_pending_jobs env r (record w { lines = [] })).1
  unfolding schedule_pending_jobs ◌>>=◌
  schedule_pending_jobs-Handled id s w h =
      let u : World = record w { lines = [] } in
      let listing =
        statement-Refines model_rights env others (λ _ _. list_jobs)
          (λ _ _ db. list_jobs-Evolves model_rights db) in
      schedule_listed id _ _ (Present-kept id u _ (listing.follows u) (s, h))
        (statement-IsListed id u)

  -- While the others make only allowed moves, and whichever statements the database refuses, a job
  -- that is in the table when schedulePendingJobs starts either is not Pending when it ends or is
  -- one that a line of the log written meanwhile reports an error for: of CreateAttempt or of
  -- TransitionJobState on this job, or of ListJobs.
  pub schedule_pending_jobs_lem :
      (id : String) (s : JobState) (w : World)
      → job_state id w.db ≡ some s
      → let v = (schedule_pending_jobs env r (record w { lines = [] })).1 in
        (not (is_pending (job_state id v.db)) || any (concerns id) v.lines) ≡ true
  schedule_pending_jobs_lem id s w h =
      cleared_or_said id _ (schedule_pending_jobs env r (record w { lines = [] })).1 refl
        (schedule_pending_jobs-Handled id s w h)
