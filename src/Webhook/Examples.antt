-- ===== src/Webhook/Examples.antt =====
-- The theorems on internal/webhook at concrete jobs.
use durarun_operator.Prelude.{
  ℕ, ◌^◌, ℤ, pos, ltb_ℤ, ◌≤ℤ◌, ◌≡◌, refl, none, some, List, [], ◌∷◌, All, arith,
}
use durarun_operator.Api.{AgentJob}
use durarun_operator.Webhook.{
  CapacityAdmission, admit, validate_immutable_fields, deep_equal, same_strings,
}
use durarun_operator.Webhook.Updates.{Keeps, Accepted, validate_immutable_fields-Keeps}
use durarun_operator.Webhook.Capacity.{
  admit_call, release_call, after_calls, InRange, after_calls-InRange,
}

abbrev job_with : ℤ → AgentJob
job_with n = record {
  name = "train";
  namespace = "default";
  uid = "job-1";
  annotations = [];
  spec = record {
    runtime = record { image = "agent:1"; command = some ("run" ∷ []); args = [] };
    execution = record {
      timeout = none;
      max_attempts = n;
      backoff_limit = none;
      active_deadline_seconds = none;
      ttl_seconds_after_finished = none;
    };
    checkpoint = record {
      enabled = durarun_operator.Prelude.false;
      interval_seconds = pos 0;
      storage_ref = "";
    };
  };
  status = record {
    conditions = [];
    active_attempt = none;
    completed_attempts = pos 0;
    failed_attempts = pos 0;
    start_time = none;
    completion_time = none;
    spec_hash = "";
  };
}

raised : Accepted (job_with (pos 1)) (job_with (pos 2) ∷ job_with (pos 5) ∷ [])
unfolding validate_immutable_fields deep_equal same_strings
raised = (refl, (refl, tt))

validate_immutable_fields-Keeps_example :
    All (Keeps (job_with (pos 1))) (job_with (pos 2) ∷ job_with (pos 5) ∷ [])
validate_immutable_fields-Keeps_example =
    validate_immutable_fields-Keeps (job_with (pos 1)) (job_with (pos 2) ∷ job_with (pos 5) ∷ [])
      raised

abbrev room_for_two : CapacityAdmission
room_for_two = record { max_active_jobs = pos 2; active_count = pos 1 }

after_calls-InRange_example :
    InRange 2 (after_calls room_for_two (admit_call ∷ admit_call ∷ release_call ∷ []))
    × ((admit (after_calls room_for_two (admit_call ∷ admit_call ∷ release_call ∷ []))).0
        ≡ ltb_ℤ
            (after_calls room_for_two (admit_call ∷ admit_call ∷ release_call ∷ [])).active_count
            (pos 2))
after_calls-InRange_example =
    after_calls-InRange 2 room_for_two (admit_call ∷ admit_call ∷ release_call ∷ []) (omega arith)
      (refl, omega arith, omega arith)
