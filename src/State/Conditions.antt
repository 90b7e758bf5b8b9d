-- ===== src/State/Conditions.antt =====
-- How the terminal tests read the conditions.
use durarun_operator.Prelude.{ℤ, String, ◌≡◌, refl, true, false, ◌||◌, List, [], ◌∷◌, arith, str_eq}
use durarun_operator.State.{
  ConditionStatus, condition_true, Condition, ConditionApi, has_true, is_job_terminal,
  is_attempt_terminal, is_attempt_succeeded, set_job_condition, set_attempt_condition,
  job_condition_complete, job_condition_failed,
}

pub is_job_terminal-has_true :
    (cs : List Condition)
    → is_job_terminal cs ≡ (has_true cs job_condition_complete || has_true cs job_condition_failed)
unfolding is_job_terminal
is_job_terminal-has_true [] = refl
is_job_terminal-has_true (c ∷ cs) = ground (arith, is_job_terminal-has_true cs)

pub is_attempt_terminal-eq-job : (cs : List Condition) → is_attempt_terminal cs ≡ is_job_terminal cs
unfolding is_attempt_terminal is_job_terminal
is_attempt_terminal-eq-job [] = refl
is_attempt_terminal-eq-job (c ∷ cs) = ground (arith, is_attempt_terminal-eq-job cs)

pub is_attempt_succeeded-has_true :
    (cs : List Condition) → is_attempt_succeeded cs ≡ has_true cs job_condition_complete
unfolding is_attempt_succeeded
is_attempt_succeeded-has_true [] = refl
is_attempt_succeeded-has_true (c ∷ cs) = ground (arith, is_attempt_succeeded-has_true cs)

module _ ⦃api : ConditionApi⦄ (cs : List Condition) (type : String) where
  pub has_true-set_job_condition :
      (reason message : String) (now : ℤ)
      → has_true (set_job_condition cs type condition_true reason message now) type ≡ true
  unfolding set_job_condition
  has_true-set_job_condition reason message now =
      api.set_true cs
        (record {
          type = type;
          status = condition_true;
          reason = reason;
          message = message;
          last_transition_time = now;
        })
        refl

  pub has_true-set_job_condition_other :
      (status : ConditionStatus) (reason message : String) (now : ℤ) (t : String)
      → str_eq type t ≡ false
      → has_true (set_job_condition cs type status reason message now) t ≡ has_true cs t
  unfolding set_job_condition
  has_true-set_job_condition_other status reason message now t h =
      api.set_other cs
        (record {
          type = type;
          status = status;
          reason = reason;
          message = message;
          last_transition_time = now;
        })
        t h

  pub set_attempt_condition-eq-job :
      (status : ConditionStatus) (reason message : String) (now : ℤ)
      → set_attempt_condition cs type status reason message now
        ≡ set_job_condition cs type status reason message now
  unfolding set_attempt_condition set_job_condition
  set_attempt_condition-eq-job status reason message now = refl
