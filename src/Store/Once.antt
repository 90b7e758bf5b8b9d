-- ===== src/Store/Once.antt =====
-- An attempt is taken from New once (TransitionAttemptState of internal/store/store.go).
use mathlib.Core.Option.{map as map_option, some_inj}
use mathlib.Core.Path.{subst}
use durarun_operator.Prelude.{
  ℤ, String, ◌≡◌, refl, sym, ap, ◌∙◌, true, false, Option, none, some, List, [], ◌∷◌, eq_refl,
  if◌then◌else◌, Bool-cases, inl, inr, arith,
}
use durarun_operator.Model.{
  AttemptState, Attempt, StateTransition, attempt_new, attempt_executing, attempt_completed,
  attempt_failed, attempt_timed_out, attempt_state_eq, attempt_state_name,
  attempt_can_transition_to,
}
use durarun_operator.Store.{Database, StoreError, Result, ok, failed}
use durarun_operator.Store.View.{view-moved}
use durarun_operator.Store.Paths.{IsPath}
use durarun_operator.Store.Records.{transitions_of}
use durarun_operator.Store.Jobs.{has_transition}
use durarun_operator.Store.Attempts.{transition_attempt_state, move_attempt, moved_attempt}
use durarun_operator.Store.Evolves.{attempt_state, model_rights, AttemptTraced, Evolves}

-- What TransitionAttemptState returned, and the state that the attempt then has.
abbrev IsMoved : String → AttemptState → Result Unit × Database → Type 0
IsMoved id target (failed e, db) = Unit
IsMoved id target (ok a, db) = attempt_state id db ≡ some target

move_attempt-IsMoved :
    (id : String) (from target : AttemptState) (trigger tid : String) (now : ℤ) (db : Database)
    → (o : Option Attempt) → map_option (λ r. r.state) o ≡ attempt_state id db
    → IsMoved id target (move_attempt id from target trigger tid now o db)
unfolding move_attempt
move_attempt-IsMoved id from target trigger tid now db none h = tt
move_attempt-IsMoved id from target trigger tid now db (some r) h =
    elim (Bool-cases (attempt_state_eq r.state from)) [
      | inl e ↦ elim (Bool-cases (has_transition tid db)) [
        | inl f ↦ rw (e, f, if◌then◌else◌) tt
        | inr f ↦
            rw (e, f, if◌then◌else◌)
              (view-moved (λ a. a.id) (λ a. a.state) id id (moved_attempt target now) target r.state
                  (λ a. refl) (λ a. refl) db.attempts (sym h)
                ∙ (rw (eq_refl id, if◌then◌else◌) refl))
      ]
      | inr e ↦ rw (e, if◌then◌else◌) tt
    ]

moved_to :
    (id : String) (target : AttemptState) (p : Result Unit × Database)
    → IsMoved id target p
    → p.0 ≡ ok tt
    → attempt_state id p.1 ≡ some target
moved_to id target (failed e, db) h k = absurd (ground (arith, k))
moved_to id target (ok a, db) h k = h

-- No transition leads back to the first state.
never_new : (s : AttemptState) → attempt_can_transition_to s attempt_new ≡ false
never_new attempt_new = refl
never_new attempt_executing = refl
never_new attempt_completed = refl
never_new attempt_failed = refl
never_new attempt_timed_out = refl

IsPath-new :
    (s t : AttemptState) (rows : List StateTransition)
    → t ≡ attempt_new
    → IsPath attempt_state_name attempt_can_transition_to s rows t
    → s ≡ attempt_new
IsPath-new s t [] e p = p ∙ e
IsPath-new s t (r ∷ rows) e p =
    let m = IsPath-new p.0 t rows e p.4 in
    absurd (ground (arith, never_new s, ap (attempt_can_transition_to s) m, p.3))

-- An attempt that has left New is not in New.
left_new :
    (s : AttemptState) (rows : List StateTransition) (o : Option AttemptState)
    → attempt_state_eq s attempt_new ≡ false
    → AttemptTraced model_rights (some s) rows o
    → o ≡ some attempt_new
    → ⊥
left_new s rows none d h e = h
left_new s rows (some t) d h e =
    let back = IsPath-new s t rows (some_inj.0 e) h in
    absurd (ground (arith, d, ap (λ x. attempt_state_eq x attempt_new) back))

attempt_state_new : (s : AttemptState) → attempt_state_eq s attempt_new ≡ true → s ≡ attempt_new
attempt_state_new attempt_new h = refl
attempt_state_new attempt_executing h = absurd (ground (arith, h))
attempt_state_new attempt_completed h = absurd (ground (arith, h))
attempt_state_new attempt_failed h = absurd (ground (arith, h))
attempt_state_new attempt_timed_out h = absurd (ground (arith, h))

-- Only an attempt that is New is moved from New.
move_attempt-refused :
    (id : String) (target : AttemptState) (trigger tid : String) (now : ℤ) (db : Database)
    → (o : Option Attempt) → (map_option (λ r. r.state) o ≡ some attempt_new → ⊥)
    → (e : StoreError) × (move_attempt id attempt_new target trigger tid now o db ≡ (failed e, db))
unfolding move_attempt
move_attempt-refused id target trigger tid now db none h = (_, refl)
move_attempt-refused id target trigger tid now db (some r) h =
    elim (Bool-cases (attempt_state_eq r.state attempt_new)) [
      | inl e ↦ absurd (h (ap some (attempt_state_new r.state e)))
      | inr e ↦ rw (e, if◌then◌else◌) (_, refl)
    ]

-- When TransitionAttemptState has moved an attempt out of New without an error, and what happens to
-- the database afterwards makes only the transitions of the table, then every later call that would
-- move the same attempt out of New returns an error and changes nothing.
pub taken_once :
    (id : String) (first second : AttemptState) (trigger again tid tid2 : String) (now later : ℤ)
    (db after : Database)
    → attempt_state_eq first attempt_new ≡ false
    → (transition_attempt_state id attempt_new first trigger tid now db).0 ≡ ok tt
    → Evolves model_rights
        (transition_attempt_state id attempt_new first trigger tid now db).1
        after
    → (e : StoreError) × (transition_attempt_state id attempt_new second again tid2 later after
        ≡ (failed e, after))
unfolding transition_attempt_state
taken_once id first second trigger again tid tid2 now later db after d done evolved =
    let now_first =
      moved_to id first _ (move_attempt-IsMoved id attempt_new first trigger tid now db _ refl)
        done in
    let traced =
      subst
        (λ o.
          AttemptTraced model_rights o (transitions_of "attempt" id evolved.added)
            (attempt_state id after))
        now_first (evolved.attempts id) in
    move_attempt-refused id second again tid2 later after _ (left_new first _ _ d traced)
