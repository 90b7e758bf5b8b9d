-- ===== src/Api.antt =====
-- api/v1alpha1: the resources AgentJob and AgentAttempt, their defaults and their validation.
-- `nil` pointers are `none`; time stamps and durations are integers of nanoseconds. Fields that
-- no modelled operation reads (labels, environment, resource quantities) are left out.
use durarun_operator.Prelude.{
  ℤ, pos, ltb_ℤ, eq_ℤ, ◌*◌, String, Bool, Option, none, some, List, str_eq, ◌&&◌, if◌then◌else◌,
}
use durarun_operator.State.{Condition}

pub record RuntimeSpec : Type 0 where
  pub image : String
  pub command : Option (List String)
  pub args : List String

pub record ExecutionSpec : Type 0 where
  pub timeout : Option ℤ
  pub max_attempts : ℤ  -- int32
  pub backoff_limit : Option ℤ
  pub active_deadline_seconds : Option ℤ  -- int64
  pub ttl_seconds_after_finished : Option ℤ  -- int32

pub record CheckpointPolicy : Type 0 where
  pub enabled : Bool
  pub interval_seconds : ℤ  -- int32
  pub storage_ref : String

pub record AgentJobSpec : Type 0 where
  pub runtime : RuntimeSpec
  pub execution : ExecutionSpec
  pub checkpoint : CheckpointPolicy

pub record AttemptReference : Type 0 where
  pub name : String
  pub ordinal : ℤ  -- int32
  pub uid : String

pub record AgentJobStatus : Type 0 where
  pub conditions : List Condition
  pub active_attempt : Option AttemptReference
  pub completed_attempts : ℤ  -- int32
  pub failed_attempts : ℤ  -- int32
  pub start_time : Option ℤ
  pub completion_time : Option ℤ
  pub spec_hash : String

pub record OwnerReference : Type 0 where
  pub name : String
  pub uid : String

pub record AgentJob : Type 0 where
  pub name : String
  pub namespace : String
  pub uid : String
  pub annotations : List (String × String)
  pub spec : AgentJobSpec
  pub status : AgentJobStatus

pub record ObjectRef : Type 0 where
  pub name : String
  pub namespace : String
  pub uid : String

pub record AgentAttemptSpec : Type 0 where
  pub job_ref : ObjectRef
  pub ordinal : ℤ  -- int32
  pub deadline : Option ℤ

-- The error categories; `no_category` is the empty string, `other_category` any other.
pub data ErrorCategory : Type 0 where
  infra user timeout oom unknown no_category : ErrorCategory
  other_category : String → ErrorCategory

pub record AgentAttemptStatus : Type 0 where
  pub conditions : List Condition
  pub pod_name : String
  pub pod_uid : String
  pub start_time : Option ℤ
  pub completion_time : Option ℤ
  pub exit_code : Option ℤ  -- int32
  pub signal : Option ℤ  -- int32
  pub error_category : ErrorCategory

pub record AgentAttempt : Type 0 where
  pub name : String
  pub namespace : String
  pub uid : String
  pub owner_references : List OwnerReference
  pub spec : AgentAttemptSpec
  pub status : AgentAttemptStatus

abbrev pub default_max_attempts : ℤ
default_max_attempts = pos 3

-- 30 minutes
abbrev pub default_timeout : ℤ
default_timeout = pos (30 * 60 * 1000000000)

abbrev pub default_checkpoint_interval_secs : ℤ
default_checkpoint_interval_secs = pos 60

abbrev default_to : Option ℤ → ℤ → Option ℤ
default_to none d = some d
default_to (some t) d = some t

unfoldable pub default_agent_job_spec : AgentJobSpec → AgentJobSpec
default_agent_job_spec spec = record {
  runtime = spec.runtime;
  execution = record spec.execution {
    max_attempts =
        if eq_ℤ spec.execution.max_attempts (pos 0)
        then default_max_attempts
        else spec.execution.max_attempts;
    timeout = default_to spec.execution.timeout default_timeout;
  };
  checkpoint = record spec.checkpoint {
    interval_seconds =
        if spec.checkpoint.enabled && eq_ℤ spec.checkpoint.interval_seconds (pos 0)
        then default_checkpoint_interval_secs
        else spec.checkpoint.interval_seconds;
  };
}

pub data SpecError : Type 0 where
  image_required : SpecError
  max_attempts_too_small : ℤ → SpecError
  ordinal_negative : ℤ → SpecError
  job_ref_uid_required : SpecError

unfoldable pub validate_agent_job_spec : AgentJobSpec → Option SpecError
validate_agent_job_spec spec =
    if str_eq spec.runtime.image ""
    then some image_required
    else if ltb_ℤ spec.execution.max_attempts (pos 1)
    then some (max_attempts_too_small spec.execution.max_attempts)
    else none

unfoldable pub validate_agent_attempt_spec : AgentAttemptSpec → Option SpecError
validate_agent_attempt_spec spec =
    if ltb_ℤ spec.ordinal (pos 0)
    then some (ordinal_negative spec.ordinal)
    else if str_eq spec.job_ref.uid ""
    then some job_ref_uid_required
    else none
