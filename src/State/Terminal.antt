-- ===== src/State/Terminal.antt =====
-- internal/state/job.go and terminal.go: a terminal condition is written once and stays.
use durarun_operator.Prelude.{
  ℤ, String, ◌≡◌, refl, ◌⊎◌, inl, inr, Bool, true, false, not, ◌&&◌, List, [], ◌∷◌, arith, ap,
  str_eq, All, Bool-cases, ◌∙◌, sym, if◌then◌else◌,
}
use mathlib.Core.Path.{subst}
use durarun_operator.State.{
  ConditionStatus, condition_true, Condition, ConditionApi, has_true, is_job_terminal,
  set_job_condition, try_set_job_terminal, try_terminal_cas, job_condition_complete,
  job_condition_failed,
}
use durarun_operator.State.Conditions.{
  is_job_terminal-has_true, has_true-set_job_condition, has_true-set_job_condition_other,
}

-- What the controllers do to the conditions of a job.
pub data ConditionEvent : Type 0 where
  set_condition : String → ConditionStatus → String → String → ℤ → ConditionEvent
  try_terminal : String → ConditionStatus → String → String → ℤ → ConditionEvent

abbrev pub IsTerminalType : String → Type 0
IsTerminalType t = (t ≡ job_condition_complete) ⊎ (t ≡ job_condition_failed)

-- The terminal conditions are written by `try_set_job_terminal` and by nothing else.
abbrev pub IsDisciplined : ConditionEvent → Type 0
IsDisciplined (set_condition t status reason message now) =
    (str_eq t job_condition_complete ≡ false) × (str_eq t job_condition_failed ≡ false)
IsDisciplined (try_terminal t status reason message now) = IsTerminalType t

abbrev pub is_complete : List Condition → Bool
is_complete cs = has_true cs job_condition_complete

abbrev pub is_failed : List Condition → Bool
is_failed cs = has_true cs job_condition_failed

module _ ⦃api : ConditionApi⦄ where
  unfoldable pub apply_event : List Condition → ConditionEvent → List Condition
  apply_event cs (set_condition t status reason message now) =
      set_job_condition cs t status reason message now
  apply_event cs (try_terminal t status reason message now) =
      (try_set_job_terminal cs t status reason message now).0

  unfoldable pub apply_events : List Condition → List ConditionEvent → List Condition
  apply_events cs [] = cs
  apply_events cs (e ∷ es) = apply_events (apply_event cs e) es

  apply_event-final :
      (cs : List Condition) (e : ConditionEvent)
      → IsDisciplined e
      → is_job_terminal cs ≡ true
      → (is_complete (apply_event cs e) ≡ is_complete cs)
        × (is_failed (apply_event cs e) ≡ is_failed cs)
  unfolding apply_event
  apply_event-final cs (set_condition t status reason message now) d h = (
    has_true-set_job_condition_other cs t status reason message now job_condition_complete d.0,
    has_true-set_job_condition_other cs t status reason message now job_condition_failed d.1,
  )
  apply_event-final cs (try_terminal t status reason message now) d h =
      unfold try_set_job_terminal in ground arith

  -- Once a job has a true Complete or Failed condition, no sequence of condition updates changes
  -- whether it is complete and whether it is failed, when the two terminal conditions are written
  -- by TrySetJobTerminal only.
  pub terminal_is_final :
      (cs : List Condition) (es : List ConditionEvent)
      → All IsDisciplined es
      → is_job_terminal cs ≡ true
      → (is_complete (apply_events cs es) ≡ is_complete cs)
        × (is_failed (apply_events cs es) ≡ is_failed cs)
  unfolding apply_events
  terminal_is_final cs [] d h = (refl, refl)
  terminal_is_final cs (e ∷ es) d h =
      let one = apply_event-final cs e d.0 h in
      let later = terminal_is_final (apply_event cs e) es d.1 (
        is_job_terminal-has_true (apply_event cs e)
        ∙ ground (arith, one.0, one.1, is_job_terminal-has_true cs)) in
      (later.0 ∙ one.0, later.1 ∙ one.1)

  try_when_terminal :
      (cs : List Condition) (t : String) (status : ConditionStatus) (reason message : String)
      (now : ℤ)
      → is_job_terminal cs ≡ true
      → (try_set_job_terminal cs t status reason message now).0 ≡ cs
  unfolding try_set_job_terminal
  try_when_terminal cs t status reason message now e = rw (e, if◌then◌else◌)

  pub try_when_open :
      (cs : List Condition) (t : String) (status : ConditionStatus) (reason message : String)
      (now : ℤ)
      → is_job_terminal cs ≡ false
      → (try_set_job_terminal cs t status reason message now).0
        ≡ set_job_condition cs t status reason message now
  unfolding try_set_job_terminal
  try_when_open cs t status reason message now e = rw (e, if◌then◌else◌)

  pub set_terminal-exclusive :
      (cs : List Condition) (t : String) (status : ConditionStatus) (reason message : String)
      (now : ℤ)
      → IsTerminalType t
      → is_job_terminal cs ≡ false
      → (is_complete (set_job_condition cs t status reason message now)
          && is_failed (set_job_condition cs t status reason message now))
        ≡ false
  set_terminal-exclusive cs t status reason message now (inl d) h = ground (
    arith,
    is_job_terminal-has_true cs,
    has_true-set_job_condition_other cs t status reason message now job_condition_failed
        (ap (λ x. str_eq x job_condition_failed) d),
  )
  set_terminal-exclusive cs t status reason message now (inr d) h = ground (
    arith,
    is_job_terminal-has_true cs,
    has_true-set_job_condition_other cs t status reason message now job_condition_complete
        (ap (λ x. str_eq x job_condition_complete) d),
  )

  apply_event-exclusive :
      (cs : List Condition) (e : ConditionEvent)
      → IsDisciplined e
      → (is_complete cs && is_failed cs) ≡ false
      → (is_complete (apply_event cs e) && is_failed (apply_event cs e)) ≡ false
  unfolding apply_event
  apply_event-exclusive cs (set_condition t status reason message now) d h = ground (
    arith,
    has_true-set_job_condition_other cs t status reason message now job_condition_complete d.0,
    has_true-set_job_condition_other cs t status reason message now job_condition_failed d.1,
  )
  apply_event-exclusive cs (try_terminal t status reason message now) d h =
      elim (Bool-cases (is_job_terminal cs)) [
        | inl e ↦
            subst (λ x. (is_complete x && is_failed x) ≡ false)
              (sym (try_when_terminal cs t status reason message now e)) h
        | inr e ↦
            subst (λ x. (is_complete x && is_failed x) ≡ false)
              (sym (try_when_open cs t status reason message now e))
              (set_terminal-exclusive cs t status reason message now d e)
      ]

  -- From conditions that are not both complete and failed, no sequence of condition updates makes a
  -- job both complete and failed, when the two terminal conditions are written by
  -- TrySetJobTerminal only.
  pub terminal_is_exclusive :
      (cs : List Condition) (es : List ConditionEvent)
      → All IsDisciplined es
      → (is_complete cs && is_failed cs) ≡ false
      → (is_complete (apply_events cs es) && is_failed (apply_events cs es)) ≡ false
  unfolding apply_events
  terminal_is_exclusive cs [] d h = h
  terminal_is_exclusive cs (e ∷ es) d h =
      terminal_is_exclusive (apply_event cs e) es d.1 (apply_event-exclusive cs e d.0 h)

  pub is_job_terminal-set_job_condition :
      (cs : List Condition) (t reason message : String) (now : ℤ)
      → IsTerminalType t
      → is_job_terminal (set_job_condition cs t condition_true reason message now) ≡ true
  is_job_terminal-set_job_condition cs t reason message now (inl d) = ground (
    arith,
    is_job_terminal-has_true (set_job_condition cs t condition_true reason message now),
    has_true-set_job_condition cs t reason message now,
  )
  is_job_terminal-set_job_condition cs t reason message now (inr d) = ground (
    arith,
    is_job_terminal-has_true (set_job_condition cs t condition_true reason message now),
    has_true-set_job_condition cs t reason message now,
  )

  -- A condition of another type leaves the job as terminal as it was.
  pub is_job_terminal-set_other :
      (cs : List Condition) (t : String) (status : ConditionStatus) (reason message : String)
      (now : ℤ)
      → str_eq t job_condition_complete ≡ false
      → str_eq t job_condition_failed ≡ false
      → is_job_terminal (set_job_condition cs t status reason message now) ≡ is_job_terminal cs
  is_job_terminal-set_other cs t status reason message now c f = ground (
    arith,
    is_job_terminal-has_true (set_job_condition cs t status reason message now),
    is_job_terminal-has_true cs,
    has_true-set_job_condition_other cs t status reason message now job_condition_complete c,
    has_true-set_job_condition_other cs t status reason message now job_condition_failed f,
  )

  -- Completing an open job does not make it failed.
  pub not_failed-set_complete :
      (cs : List Condition) (reason message : String) (now : ℤ)
      → is_job_terminal cs ≡ false
      → is_failed (set_job_condition cs job_condition_complete condition_true reason message now)
        ≡ false
  not_failed-set_complete cs reason message now h = ground (
    arith,
    is_job_terminal-has_true cs,
    has_true-set_job_condition_other cs job_condition_complete condition_true reason message now
        job_condition_failed refl,
  )

  pub not_terminal-not_failed :
      (cs : List Condition) → is_job_terminal cs ≡ false → is_failed cs ≡ false
  not_terminal-not_failed cs h = ground (arith, is_job_terminal-has_true cs)

  -- Of two attempts to set a true terminal condition one after the other, the second is rejected
  -- and changes nothing, whatever the first one found; afterwards the job is terminal.
  pub second_terminal_loses :
      (cs : List Condition) (t u reason reason' message message' : String) (now now' : ℤ)
      → IsTerminalType t
      → let first = (try_set_job_terminal cs t condition_true reason message now).0 in
        (is_job_terminal first ≡ true)
        × (try_set_job_terminal first u condition_true reason' message' now' ≡ (first, false))
  unfolding try_set_job_terminal
  second_terminal_loses cs t u reason reason' message message' now now' d =
      let terminal = is_job_terminal-set_job_condition cs t reason message now d in
      (ground arith, ground arith)

  -- TryTerminalCAS returns what TrySetJobTerminal would leave behind, with the same verdict, the
  -- verdict is that the job was not terminal, and the slice that was passed in is unchanged.
  pub cas-eq-try :
      (cs : List Condition) (t : String) (status : ConditionStatus) (reason message : String)
      (now : ℤ)
      → let (after, ok) = try_set_job_terminal cs t status reason message now in
        (try_terminal_cas cs t status reason message now ≡ (cs, after, ok))
        × (ok ≡ not (is_job_terminal cs))
  unfolding try_terminal_cas try_set_job_terminal
  cas-eq-try cs t status reason message now = (ground arith, ground arith)
