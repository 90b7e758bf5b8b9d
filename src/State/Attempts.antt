-- ===== src/State/Attempts.antt =====
-- internal/state/attempt.go: what a write of one condition does to the terminal tests of an attempt.
use durarun_operator.Prelude.{ℤ, String, ◌≡◌, ◌∙◌, refl, true, false, ◌||◌, List, arith, str_eq}
use durarun_operator.State.{
  ConditionStatus, condition_true, Condition, ConditionApi, has_true, is_attempt_terminal,
  is_attempt_succeeded, set_attempt_condition, set_job_condition, attempt_condition_complete,
  attempt_condition_failed,
}
use durarun_operator.State.Conditions.{
  is_job_terminal-has_true, is_attempt_terminal-eq-job, is_attempt_succeeded-has_true,
  has_true-set_job_condition, has_true-set_job_condition_other,
}

pub is_attempt_terminal-has_true :
    (cs : List Condition)
    → is_attempt_terminal cs
      ≡ (has_true cs attempt_condition_complete || has_true cs attempt_condition_failed)
is_attempt_terminal-has_true cs = is_attempt_terminal-eq-job cs ∙ is_job_terminal-has_true cs

module _ ⦃api : ConditionApi⦄ (cs : List Condition) (reason message : String) (now : ℤ) where
  abbrev with_condition : String → ConditionStatus → List Condition
  with_condition type status = set_attempt_condition cs type status reason message now

  -- A true Complete condition makes the attempt terminal and succeeded.
  pub attempt-set_complete :
      (is_attempt_terminal (with_condition attempt_condition_complete condition_true) ≡ true)
      × (is_attempt_succeeded (with_condition attempt_condition_complete condition_true) ≡ true)
  unfolding set_attempt_condition set_job_condition
  attempt-set_complete =
      let written = with_condition attempt_condition_complete condition_true in
      let complete = has_true-set_job_condition cs attempt_condition_complete reason message now in
      (
        ground (arith, is_attempt_terminal-has_true written, complete),
        is_attempt_succeeded-has_true written ∙ complete,
      )

  -- A true Failed condition makes it terminal, and succeeded only if it was before.
  pub attempt-set_failed :
      (is_attempt_terminal (with_condition attempt_condition_failed condition_true) ≡ true)
      × (is_attempt_succeeded (with_condition attempt_condition_failed condition_true)
          ≡ is_attempt_succeeded cs)
  unfolding set_attempt_condition set_job_condition
  attempt-set_failed =
      let written = with_condition attempt_condition_failed condition_true in
      let failed = has_true-set_job_condition cs attempt_condition_failed reason message now in
      let same =
        has_true-set_job_condition_other cs attempt_condition_failed condition_true reason message
          now attempt_condition_complete refl in
      (
        ground (arith, is_attempt_terminal-has_true written, failed),
        ground
            (arith, is_attempt_succeeded-has_true written, is_attempt_succeeded-has_true cs, same),
      )

  -- A condition of another type changes neither.
  pub attempt-set_other :
      (type : String) (status : ConditionStatus)
      → str_eq type attempt_condition_complete ≡ false
      → str_eq type attempt_condition_failed ≡ false
      → (is_attempt_terminal (with_condition type status) ≡ is_attempt_terminal cs)
        × (is_attempt_succeeded (with_condition type status) ≡ is_attempt_succeeded cs)
  unfolding set_attempt_condition set_job_condition
  attempt-set_other type status c f =
      let written = with_condition type status in
      let complete =
        has_true-set_job_condition_other cs type status reason message now
          attempt_condition_complete c in
      let failed =
        has_true-set_job_condition_other cs type status reason message now attempt_condition_failed
          f in
      (
        ground (
          arith,
          is_attempt_terminal-has_true written,
          is_attempt_terminal-has_true cs,
          complete,
          failed,
        ),
        ground (
          arith,
          is_attempt_succeeded-has_true written,
          is_attempt_succeeded-has_true cs,
          complete,
        ),
      )
