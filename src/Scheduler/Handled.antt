-- ===== src/Scheduler/Handled.antt =====
-- Jobs that left Pending or have an error in the log (internal/scheduler/reconciler.go).
use mathlib.Core.Path.{subst}
use mathlib.Core.Option.{some_inj}
use durarun_operator.Prelude.{
  String, ◌≡◌, refl, sym, ap, ◌∙◌, Bool, true, false, ◌||◌, ◌&&◌, Option, none, some, List, [], ◌∷◌,
  any, any-append, str_eq, eq_refl, arith,
}
use durarun_operator.Model.{
  JobState, StateTransition, job_pending, job_state_eq, job_state_name, job_can_transition_to,
}
use durarun_operator.Model.Names.{never_pending}
use durarun_operator.Store.{StoreError, Result, ok, failed}
use durarun_operator.Store.Records.{transitions_of}
use durarun_operator.Store.Paths.{IsPath}
use durarun_operator.Store.Evolves.{model_rights, job_state, JobTraced}
use durarun_operator.Store.Moved.{IsMoved}
use durarun_operator.Store.Session.{World, Action, Line, pure, ◌>>=◌, report, on_result}
use durarun_operator.Store.Follows.{Follows}

-- A pass reports two errors of one job, and one of all jobs.
abbrev pub concerns : String → Line → Bool
concerns id l =
    (str_eq l.subject id
      && (str_eq l.operation "CreateAttempt" || str_eq l.operation "TransitionJobState"))
    || str_eq l.operation "ListJobs"

-- The job is in the table, in state Pending.
abbrev pub is_pending : Option JobState → Bool
is_pending none = false
is_pending (some s) = job_state_eq s job_pending

-- A job that is still pending is one that an error was logged for.
abbrev pub Handled : String → World → Type 0
Handled id w = job_state id w.db ≡ some job_pending → any (concerns id) w.lines ≡ true

-- The job is in the table.
abbrev pub Present : String → World → Type 0
Present id w = (s : JobState) × (job_state id w.db ≡ some s)

-- A path that ends in Pending has not moved.
pub IsPath-pending :
    (s t : JobState) (rows : List StateTransition)
    → t ≡ job_pending
    → IsPath job_state_name job_can_transition_to s rows t
    → s ≡ job_pending
IsPath-pending s t [] e p = p ∙ e
IsPath-pending s t (r ∷ rows) e p =
    let m = IsPath-pending p.0 t rows e p.4 in
    absurd (ground (arith, never_pending s, ap (job_can_transition_to s) m, p.3))

pub some_stays :
    (s : JobState) (rows : List StateTransition) (o : Option JobState)
    → JobTraced model_rights (some s) rows o
    → (t : JobState) × (o ≡ some t) × IsPath job_state_name job_can_transition_to s rows t
some_stays s rows none h = absurd h
some_stays s rows (some t) h = (t, refl, h)

pub traced_on :
    (id : String) (w v : World)
    → Follows model_rights w v
    → (p : Present id w)
    → (t : JobState) × (job_state id v.db ≡ some t) × ((t ≡ job_pending) → p.0 ≡ job_pending)
traced_on id w v f p =
    let rows = transitions_of "job" id f.store.added in
    let on =
      some_stays p.0 rows (job_state id v.db)
        (subst (λ o. JobTraced model_rights o rows (job_state id v.db)) p.1 (f.store.jobs id)) in
    (on.0, on.1, λ e. IsPath-pending p.0 on.0 rows e on.2)

pub or_true : (b : Bool) → (b || true) ≡ true
or_true true = refl
or_true false = refl

pub Present-kept :
    (id : String) (w v : World) → Follows model_rights w v → Present id w → Present id v
Present-kept id w v f p = let on = traced_on id w v f p in (on.0, on.1)

pub Handled-kept :
    (id : String) (w v : World)
    → Follows model_rights w v
    → Present id w
    → Handled id w
    → Handled id v
Handled-kept id w v f p h pending =
    let on = traced_on id w v f p in
    let before = h (p.1 ∙ ap some (on.2 (some_inj.0 (sym on.1 ∙ pending)))) in
    ap (any (concerns id)) f.lines
    ∙ any-append (concerns id) f.said w.lines
    ∙ ap (λ b. any (concerns id) f.said || b) before
    ∙ or_true (any (concerns id) f.said)

-- Whatever the action starts from, it leaves the job handled.
pub record Handles {A : Type 0} (id : String) (m : Action A) : Type 0 where
  pub handles : (w : World) → Handled id (m w).1

pub bind-Handles :
    {A B : Type 0} {id : String} (m : Action A) {f : A → Action B}
    → ((a : A) → Handles id (f a))
    → Handles id (m >>= f)
unfolding ◌>>=◌
bind-Handles m h = record { handles = λ w. (h (m w).0).handles (m w).1 }

pub report-Handles :
    (operation id : String)
    → (str_eq operation "CreateAttempt" || str_eq operation "TransitionJobState") ≡ true
    → Handles id (report operation id)
unfolding report
report-Handles operation id e = record { handles = λ w pending. ground (arith, eq_refl id, e) }

pub report_unless :
    (id : String) (target : JobState)
    → job_state_eq target job_pending ≡ false
    → (moved : Result Unit) (v : World) → IsMoved id target (moved, v.db)
    → Handled id (on_result moved (λ e. report "TransitionJobState" id) (λ _. pure tt) v).1
unfolding on_result pure
report_unless id target d (failed e) v h pending =
    (report-Handles "TransitionJobState" id refl).handles v pending
report_unless id target d (ok a) v h pending =
    absurd (ground (arith, d, ap (λ s. job_state_eq s job_pending) (some_inj.0 (sym h ∙ pending))))

pub on_result-Handles :
    {A B : Type 0} {id : String} (r : Result A) {bad : StoreError → Action B} {good : A → Action B}
    → ((e : StoreError) → Handles id (bad e))
    → ((a : A) → Handles id (good a))
    → Handles id (on_result r bad good)
unfolding on_result
on_result-Handles (failed e) h k = h e
on_result-Handles (ok a) h k = k a
