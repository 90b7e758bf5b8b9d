-- ===== src/Model/Validation.antt =====
-- ValidateJobSpec, ValidateIsolationLevel and DefaultJobSpec (internal/model/model.go).
use durarun_operator.Prelude.{pos, ltb_ℤ, String, Bool, true, [], str_eq, if◌then◌else◌, ◌||◌}
use durarun_operator.Model.{JobSpec, StepTrackingSpec}

abbrev pub or_default : String → String → String
or_default fallback s = if str_eq s "" then fallback else s

-- `spec.StepTracking`, after its defaults.
abbrev pub step_tracking_defaults : StepTrackingSpec → StepTrackingSpec
step_tracking_defaults t =
    if str_eq t.protocol "" then record { enabled = true; protocol = "env" } else t

-- The assignments of ValidateJobSpec, once its checks have passed.
abbrev pub job_spec_defaults : JobSpec → JobSpec
job_spec_defaults spec = record spec {
  max_retries = if ltb_ℤ spec.max_retries (pos 0) then pos 0 else spec.max_retries;
  timeout = or_default "5m" spec.timeout;
  resources = record {
    cpu_limit = or_default "1" spec.resources.cpu_limit;
    memory_limit = or_default "512m" spec.resources.memory_limit;
  };
  isolation = record { level = or_default "L1GVisor" spec.isolation.level };
  step_tracking = step_tracking_defaults spec.step_tracking;
  pool_ref = or_default "default" spec.pool_ref;
}

pub data SpecError : Type 0 where
  name_required image_required prompt_required : SpecError

pub data Validated : Type 0 where
  invalid : SpecError → Validated
  valid : JobSpec → Validated

abbrev pub validate_job_spec : JobSpec → Validated
validate_job_spec spec =
    if str_eq spec.name ""
    then invalid name_required
    else if str_eq spec.image ""
    then invalid image_required
    else if str_eq spec.prompt ""
    then invalid prompt_required
    else valid (job_spec_defaults spec)

-- ValidateIsolationLevel; the error is `false`.
abbrev pub validate_isolation_level : String → Bool
validate_isolation_level level =
    str_eq level "L0Process"
    || str_eq level "L1GVisor"
    || str_eq level "L2Firecracker"
    || str_eq level "L3Docker"

abbrev pub default_job_spec : JobSpec
default_job_spec = record {
  name = "";
  image = "";
  prompt = "";
  timeout = "5m";
  resources = record { cpu_limit = "1"; memory_limit = "512m" };
  artifacts = [];
  env = [];
  max_retries = pos 0;
  isolation = record { level = "L1GVisor" };
  step_tracking = record { enabled = true; protocol = "env" };
  pool_ref = "default";
}
