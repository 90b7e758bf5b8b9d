-- ===== src/State/Examples.antt =====
-- The theorems on internal/state at concrete conditions and snapshots.
use durarun_operator.Prelude.{
  pos, String, ◌≡◌, refl, ◌↔◌, inl, inr, true, false, ◌&&◌, List, [], ◌∷◌, arith, str_eq, eq_iff,
  none, if◌then◌else◌,
}
use durarun_operator.State.{
  condition_true, condition_false, Condition, is_true, has_true, ConditionApi, is_job_terminal,
  try_set_job_terminal,
}
use durarun_operator.State.Terminal.{
  ConditionEvent, set_condition, try_terminal, is_complete, is_failed, apply_events,
  terminal_is_final, terminal_is_exclusive, second_terminal_loses,
}
use durarun_operator.State.Snapshot.{
  JobSnapshot, IsConsistent, validate_snapshot, validate_snapshot_iff,
}

-- The condition of the same type is replaced where it stands, and a new one is added at the end.
unfoldable put_condition : List Condition → Condition → List Condition
put_condition [] c = c ∷ []
put_condition (x ∷ xs) c =
    let rest = put_condition xs c in if str_eq x.type c.type then c ∷ xs else x ∷ rest

put_condition-same :
    (cs : List Condition) (c : Condition)
    → is_true c.status ≡ true
    → has_true (put_condition cs c) c.type ≡ true
unfolding put_condition
put_condition-same [] c h = ground (arith, eq_iff c.type c.type)
put_condition-same (x ∷ xs) c h = ground (arith, put_condition-same xs c h, eq_iff c.type c.type)

put_condition-other :
    (cs : List Condition) (c : Condition) (t : String)
    → str_eq c.type t ≡ false
    → has_true (put_condition cs c) t ≡ has_true cs t
unfolding put_condition
put_condition-other [] c t h = ground arith
put_condition-other (x ∷ xs) c t h =
    ground
      (arith, put_condition-other xs c t h, eq_iff x.type c.type, eq_iff x.type t, eq_iff c.type t)

instance pub listed_conditions : ConditionApi
listed_conditions = record {
  set_status_condition = put_condition;
  set_true = put_condition-same;
  set_other = put_condition-other;
}

abbrev pub true_condition : String → Condition
true_condition t = record {
  type = t;
  status = condition_true;
  reason = "";
  message = "";
  last_transition_time = pos 0;
}

abbrev completed : List Condition
completed = true_condition "Running" ∷ true_condition "Complete" ∷ []

abbrev running_only : List Condition
running_only = true_condition "Running" ∷ []

-- Two controllers try to finish the job, and a third one writes Running in between.
abbrev race : List ConditionEvent
race =
    try_terminal "Failed" condition_true "Cancelled" "" (pos 7)
    ∷ set_condition "Running" condition_false "Retrying" "" (pos 8)
    ∷ try_terminal "Complete" condition_true "Succeeded" "" (pos 9)
    ∷ []

terminal_is_final_example :
    (is_complete (apply_events completed race) ≡ is_complete completed)
    × (is_failed (apply_events completed race) ≡ is_failed completed)
terminal_is_final_example =
    terminal_is_final completed race (inr refl, ((refl, refl), (inl refl, tt)))
      (unfold is_job_terminal in refl)

terminal_is_exclusive_example :
    (is_complete (apply_events running_only race) && is_failed (apply_events running_only race))
    ≡ false
terminal_is_exclusive_example =
    terminal_is_exclusive running_only race (inr refl, ((refl, refl), (inl refl, tt))) refl

second_terminal_loses_example :
    let first =
      (try_set_job_terminal running_only "Failed" condition_true "Cancelled" "" (pos 7)).0 in
    (is_job_terminal first ≡ true)
    × (try_set_job_terminal first "Complete" condition_true "Succeeded" "" (pos 9) ≡ (first, false))
second_terminal_loses_example =
    second_terminal_loses running_only "Failed" "Complete" "Cancelled" "Succeeded" "" "" (pos 7)
      (pos 9) (inr refl)

abbrev two_attempts : JobSnapshot
two_attempts = record {
  job_uid = "j";
  attempts =
      record { uid = "a"; ordinal = pos 1; job_ref_uid = "j"; terminal = true }
      ∷ record { uid = "b"; ordinal = pos 2; job_ref_uid = "j"; terminal = false }
      ∷ [];
}

validate_snapshot_iff_example : (validate_snapshot two_attempts ≡ none) ↔ IsConsistent two_attempts
validate_snapshot_iff_example = validate_snapshot_iff two_attempts

validate_two_attempts : validate_snapshot two_attempts ≡ none
unfolding validate_snapshot
validate_two_attempts = refl
