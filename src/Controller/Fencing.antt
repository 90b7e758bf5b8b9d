-- ===== src/Controller/Fencing.antt =====
-- internal/controller/fencing.go, with the envelope of internal/protocol/manifest.go.
use durarun_operator.Prelude.{
  ℤ, eq_ℤ, eq_ℤ_iff, String, ◌≡◌, ◌↔◌, false, not, Option, none, some, List, arith, str_eq, eq_iff,
  if◌then◌else◌,
}
use durarun_operator.State.{is_job_terminal}
use durarun_operator.Api.{AgentJob, AgentAttempt}

pub record ArtifactEntry : Type 0 where
  pub key : String
  pub content_hash : String
  pub size_bytes : ℤ

pub record ResultManifest : Type 0 where
  pub exit_code : ℤ
  pub signal : ℤ
  pub error_category : String
  pub artifacts : List ArtifactEntry
  pub checkpoint_key : String
  pub content_hash : String

pub record ManifestEnvelope : Type 0 where
  pub job_uid : String
  pub attempt_uid : String
  pub ordinal : ℤ  -- int32
  pub spec_hash : String
  pub result : ResultManifest

-- The reason of a rejection, with what the message prints.
pub data FencingReason : Type 0 where
  job_uid_mismatch attempt_uid_mismatch spec_hash_mismatch : String → String → FencingReason
  ordinal_mismatch : ℤ → ℤ → FencingReason
  already_terminal : FencingReason

-- FencingResult; `none` is accepted.
unfoldable pub validate_fencing : AgentJob → AgentAttempt → ManifestEnvelope → Option FencingReason
validate_fencing job attempt envelope =
    if not (str_eq envelope.job_uid job.uid)
    then some (job_uid_mismatch envelope.job_uid job.uid)
    else if not (str_eq envelope.attempt_uid attempt.uid)
    then some (attempt_uid_mismatch envelope.attempt_uid attempt.uid)
    else if not (eq_ℤ envelope.ordinal attempt.spec.ordinal)
    then some (ordinal_mismatch envelope.ordinal attempt.spec.ordinal)
    else if not (str_eq envelope.spec_hash job.status.spec_hash)
    then some (spec_hash_mismatch envelope.spec_hash job.status.spec_hash)
    else if is_job_terminal job.status.conditions
    then some already_terminal
    else none

-- The five layers of docs/architecture.md.
pub record IsCurrent (job : AgentJob) (attempt : AgentAttempt) (envelope : ManifestEnvelope)
    : Type 0 where
  pub job_uid : envelope.job_uid ≡ job.uid
  pub attempt_uid : envelope.attempt_uid ≡ attempt.uid
  pub ordinal : envelope.ordinal ≡ attempt.spec.ordinal
  pub spec_hash : envelope.spec_hash ≡ job.status.spec_hash
  pub open_job : is_job_terminal job.status.conditions ≡ false

-- An envelope is accepted exactly when its job UID, attempt UID, ordinal and spec hash are those of
-- the job and the attempt, and the job is not terminal.
pub validate_fencing_iff :
    (job : AgentJob) (attempt : AgentAttempt) (envelope : ManifestEnvelope)
    → (validate_fencing job attempt envelope ≡ none) ↔ IsCurrent job attempt envelope
unfolding validate_fencing
validate_fencing_iff job attempt envelope = (
  λ h. record {
    job_uid = ground (arith, eq_iff envelope.job_uid job.uid);
    attempt_uid = ground (arith, eq_iff envelope.attempt_uid attempt.uid);
    ordinal = ground arith;
    spec_hash = ground (arith, eq_iff envelope.spec_hash job.status.spec_hash);
    open_job = ground arith;
  },
  λ h. ground (
    arith,
    eq_iff envelope.job_uid job.uid,
    eq_iff envelope.attempt_uid attempt.uid,
    (eq_ℤ_iff envelope.ordinal attempt.spec.ordinal).1 h.ordinal,
    eq_iff envelope.spec_hash job.status.spec_hash,
  ),
)
