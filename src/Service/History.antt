-- ===== src/Service/History.antt =====
-- The histories of jobs and attempts in the standalone service (internal/model/model.go,
-- internal/store/store.go).
use mathlib.Core.Path.{subst}
use durarun_operator.Prelude.{
  ℕ, String, ◌≡◌, refl, sym, ap, Bool, true, false, Option, none, some, List, [], ◌∷◌, arith,
}
use durarun_operator.Model.{
  JobState, AttemptState, StateTransition, job_pending, job_scheduled, job_running, job_completed,
  job_failed, job_terminated, job_claiming, job_activating, job_recovering, attempt_new,
  attempt_executing, attempt_completed, attempt_failed, attempt_timed_out, job_state_name,
  attempt_state_name, job_can_transition_to, attempt_can_transition_to,
}
use durarun_operator.Store.{empty_database}
use durarun_operator.Store.Attempts.{is_terminal}
use durarun_operator.Store.Records.{transitions_of}
use durarun_operator.Store.Paths.{IsPath, IsTraced}
use durarun_operator.Store.Evolves.{
  model_rights, job_state, attempt_state, JobTraced, AttemptTraced,
}
use durarun_operator.Store.Session.{World, Environment}
use durarun_operator.Store.Follows.{Follows, Refines, pure-Refines, bind-Refines, for_each-Refines}
use durarun_operator.Scheduler.Refined.{scheduler_rights, reconcile-Refines}
use durarun_operator.Worker.{Run}
use durarun_operator.Worker.Steps.{HasWorkerRights}
use durarun_operator.Worker.Refined.{work_once-Refines}
use durarun_operator.Server.{is_over}
use durarun_operator.Server.Refined.{
  handle_create_job-Refines, handle_create_job_v2-Refines, handle_terminate_job-Refines,
}
use durarun_operator.Service.{
  Turn, reconciles, works, submits, submits_v2, terminates, take_turn, serve,
}

worker_rights : (run : Run) → HasWorkerRights run model_rights
worker_rights run = record {
  starts = refl;
  runs = refl;
  fails = refl;
  completes = λ _. refl;
  completes_job = λ _. refl;
}

may_terminate : (s : JobState) → is_over s ≡ false → job_can_transition_to s job_terminated ≡ true
may_terminate job_pending h = refl
may_terminate job_scheduled h = refl
may_terminate job_running h = refl
may_terminate job_completed h = absurd (ground (arith, h))
may_terminate job_failed h = absurd (ground (arith, h))
may_terminate job_terminated h = absurd (ground (arith, h))
may_terminate job_claiming h = refl
may_terminate job_activating h = refl
may_terminate job_recovering h = refl

stays_over : (s t : JobState) → is_over s ≡ true → job_can_transition_to s t ≡ false
stays_over job_pending t h = absurd (ground (arith, h))
stays_over job_scheduled t h = absurd (ground (arith, h))
stays_over job_running t h = absurd (ground (arith, h))
stays_over job_completed t h = refl
stays_over job_failed t h = refl
stays_over job_terminated t h = refl
stays_over job_claiming t h = absurd (ground (arith, h))
stays_over job_activating t h = absurd (ground (arith, h))
stays_over job_recovering t h = absurd (ground (arith, h))

stays_terminal : (s t : AttemptState) → is_terminal s ≡ true → attempt_can_transition_to s t ≡ false
stays_terminal attempt_new t h = absurd (ground (arith, h))
stays_terminal attempt_executing t h = absurd (ground (arith, h))
stays_terminal attempt_completed t h = refl
stays_terminal attempt_failed t h = refl
stays_terminal attempt_timed_out t h = refl

-- A path from a state that nothing leaves.
module _ {S : Type 0} (name : S → String) (can : S → S → Bool) where
  IsPath-stuck :
      (s t : S) (rows : List StateTransition)
      → ((m : S) → can s m ≡ false)
      → IsPath name can s rows t
      → s ≡ t
  IsPath-stuck s t [] stuck p = p
  IsPath-stuck s t (r ∷ rows) stuck p = absurd (ground (arith, stuck p.0, p.3))

  IsTraced-stuck :
      (first s : S) (rows : List StateTransition) (p : Option S)
      → ((m : S) → can s m ≡ false)
      → IsTraced name can first (some s) rows p
      → p ≡ some s
  IsTraced-stuck first s rows none stuck t = absurd t
  IsTraced-stuck first s rows (some x) stuck t = sym (ap some (IsPath-stuck s x rows stuck t))

module _ (env : Environment)
    (others : (n : ℕ) (w : World) → Follows model_rights w (env.others n w)) where
  take_turn-Refines : (t : Turn) → Refines model_rights (take_turn env t)
  unfolding take_turn
  take_turn-Refines (reconciles r) = reconcile-Refines model_rights scheduler_rights env others r
  take_turn-Refines (works w runs) =
      work_once-Refines model_rights env others w runs (λ a. worker_rights (runs a))
  take_turn-Refines (submits request) =
      bind-Refines model_rights (handle_create_job-Refines model_rights env others request)
        (λ _. pure-Refines model_rights tt)
  take_turn-Refines (submits_v2 checks_level request) =
      bind-Refines model_rights
        (handle_create_job_v2-Refines model_rights env others checks_level request)
        (λ _. pure-Refines model_rights tt)
  take_turn-Refines (terminates id) =
      bind-Refines model_rights
        (handle_terminate_job-Refines model_rights env others
          (record { terminates = may_terminate }) id)
        (λ _. pure-Refines model_rights tt)

  serve-Refines : (turns : List Turn) → Refines model_rights (serve env turns)
  unfolding serve
  serve-Refines turns = for_each-Refines model_rights turns take_turn-Refines

  -- The world of a service that starts with an empty database.
  abbrev pub fresh : World → World
  fresh w = record w { db = empty_database }

  -- While the others make only allowed moves, and whichever statements the database refuses, after
  -- any sequence of reconciliations, executions, submissions and terminations from an empty
  -- database, the rows of state_transitions for each job in the table are a path of the table of job
  -- states from Pending to the state of the job, those for each attempt in the table are a path of
  -- the table of attempt states from New to the state of the attempt, and for any other id there is
  -- no row.
  pub serve-IsTraced :
      (turns : List Turn) (w : World) (id : String)
      → let db = (serve env turns (fresh w)).1.db in
        JobTraced model_rights none (transitions_of "job" id db.transitions) (job_state id db)
        × AttemptTraced model_rights none
            (transitions_of "attempt" id db.transitions)
            (attempt_state id db)
  serve-IsTraced turns w id =
      let db = (serve env turns (fresh w)).1.db in
      let h = ((serve-Refines turns).follows (fresh w)).store in
      (
        subst (λ rows. JobTraced model_rights none (transitions_of "job" id rows) (job_state id db))
            (sym h.logged) (h.jobs id),
        subst
            (λ rows.
              AttemptTraced model_rights none (transitions_of "attempt" id rows)
                (attempt_state id db))
            (sym h.logged) (h.attempts id),
      )

  -- While the others make only allowed moves, and whichever statements the database refuses, a job
  -- that is Completed, Failed or Terminated keeps its state through any sequence of
  -- reconciliations, executions, submissions and terminations.
  pub serve_keeps_job :
      (turns : List Turn) (w : World) (id : String) (s : JobState)
      → is_over s ≡ true
      → job_state id w.db ≡ some s
      → job_state id (serve env turns w).1.db ≡ some s
  serve_keeps_job turns w id s over e =
      let v = (serve env turns w).1 in
      let h = ((serve-Refines turns).follows w).store in
      let rows = transitions_of "job" id h.added in
      IsTraced-stuck job_state_name job_can_transition_to job_pending s rows (job_state id v.db)
        (λ m. stays_over s m over)
        (subst (λ o. JobTraced model_rights o rows (job_state id v.db)) e (h.jobs id))

  -- The same for an attempt that is Completed, Failed or TimedOut.
  pub serve_keeps_attempt :
      (turns : List Turn) (w : World) (id : String) (s : AttemptState)
      → is_terminal s ≡ true
      → attempt_state id w.db ≡ some s
      → attempt_state id (serve env turns w).1.db ≡ some s
  serve_keeps_attempt turns w id s over e =
      let v = (serve env turns w).1 in
      let h = ((serve-Refines turns).follows w).store in
      let rows = transitions_of "attempt" id h.added in
      IsTraced-stuck attempt_state_name attempt_can_transition_to attempt_new s rows
        (attempt_state id v.db) (λ m. stays_terminal s m over)
        (subst (λ o. AttemptTraced model_rights o rows (attempt_state id v.db)) e (h.attempts id))
