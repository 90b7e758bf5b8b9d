-- ===== src/Controller/Ownership.antt =====
-- internal/controller/ownership.go and cancel.go, and the queries of job_snapshot.go.
use durarun_operator.Prelude.{
  ℤ, pos, add_int32, String, ◌≡◌, ◌↔◌, ◌⊎◌, inr, refl, Bool, true, false, not, ◌&&◌, Option, none,
  some, List, [], ◌∷◌, arith, str_eq, eq_iff, if◌then◌else◌, find_if, is_some,
}
use durarun_operator.State.{
  ConditionApi, condition_true, has_true, is_job_terminal, try_set_job_terminal,
  job_condition_failed,
}
use durarun_operator.State.Terminal.{is_job_terminal-set_job_condition}
use durarun_operator.State.Conditions.{has_true-set_job_condition}
use durarun_operator.Api.{AgentJob, AgentAttempt, OwnerReference, AttemptReference}
use durarun_operator.Controller.Pods.{Pod}

pub data OwnershipError : Type 0 where
  owner_uid_mismatch : String → String → OwnershipError
  job_ref_uid_mismatch : String → String → OwnershipError

-- VerifyOwnership over the owner references of the child: the first one with the job's name decides.
unfoldable pub verify_ownership : AgentJob → List OwnerReference → Option OwnershipError
verify_ownership job [] = none
verify_ownership job (ref ∷ refs) =
    let rest = verify_ownership job refs in
    if str_eq ref.name job.name
    then if not (str_eq ref.uid job.uid) then some (owner_uid_mismatch ref.uid job.uid) else none
    else rest

unfoldable pub verify_attempt_ownership : AgentJob → AgentAttempt → Option OwnershipError
verify_attempt_ownership job attempt =
    let owner = verify_ownership job attempt.owner_references in
    if is_some owner
    then owner
    else if not (str_eq attempt.spec.job_ref.uid "")
        && not (str_eq attempt.spec.job_ref.uid job.uid)
    then some (job_ref_uid_mismatch attempt.spec.job_ref.uid job.uid)
    else none

-- The first owner reference that carries the job's name, if there is one, carries its UID.
abbrev pub is_owned : AgentJob → Option OwnerReference → Bool
is_owned job none = true
is_owned job (some ref) = str_eq ref.uid job.uid

verify_ownership-find :
    (job : AgentJob) (refs : List OwnerReference)
    → not (is_some (verify_ownership job refs))
      ≡ is_owned job (find_if (λ r. str_eq r.name job.name) refs)
unfolding verify_ownership
verify_ownership-find job [] = refl
verify_ownership-find job (ref ∷ refs) = ground (arith, verify_ownership-find job refs)

-- An attempt is accepted as the job's exactly when the first owner reference with the job's name, if
-- any, has the job's UID, and the UID of its job reference is empty or the job's.
pub verify_attempt_ownership_iff :
    (job : AgentJob) (attempt : AgentAttempt)
    → (verify_attempt_ownership job attempt ≡ none) ↔ (
        (is_owned job (find_if (λ r. str_eq r.name job.name) attempt.owner_references) ≡ true)
        × ((attempt.spec.job_ref.uid ≡ "") ⊎ (attempt.spec.job_ref.uid ≡ job.uid)))
unfolding verify_attempt_ownership
verify_attempt_ownership_iff job attempt = (
  λ h. (
    ground (arith, verify_ownership-find job attempt.owner_references),
    ground (arith, eq_iff attempt.spec.job_ref.uid "", eq_iff attempt.spec.job_ref.uid job.uid),
  ),
  λ h. ground (
    arith,
    h.0,
    h.1,
    verify_ownership-find job attempt.owner_references,
    eq_iff attempt.spec.job_ref.uid "",
    eq_iff attempt.spec.job_ref.uid job.uid,
  ),
)

pub record JobSnapshot : Type 0 where
  pub job : AgentJob
  pub attempts : List AgentAttempt
  pub pods : List Pod

attempt_named : Option AttemptReference → List AgentAttempt → Option AgentAttempt
attempt_named none attempts = none
attempt_named (some ref) attempts = find_if (λ a. str_eq a.name ref.name) attempts

unfoldable pub active_attempt : JobSnapshot → Option AgentAttempt
unfolding attempt_named
active_attempt s = attempt_named s.job.status.active_attempt s.attempts

-- A label that is missing reads as the empty string, as in Go.
unfoldable pub pod_for_attempt : JobSnapshot → String → Option Pod
pod_for_attempt s name = find_if (λ p. str_eq p.attempt_label name) s.pods

next_ordinal_of : ℤ → List AgentAttempt → ℤ
next_ordinal_of last [] = add_int32 last (pos 1)
next_ordinal_of last (a ∷ rest) = next_ordinal_of a.spec.ordinal rest

unfoldable pub next_ordinal : JobSnapshot → ℤ
unfolding next_ordinal_of
next_ordinal s = elim s.attempts [ [] ↦ pos 1 | a ∷ rest ↦ next_ordinal_of a.spec.ordinal rest ]

abbrev pub cancel_annotation : String
cancel_annotation = "durarun.io/cancel"

abbrev value_is_true : Option (String × String) → Bool
value_is_true none = false
value_is_true (some kv) = str_eq kv.1 "true"

unfoldable pub is_cancelled : AgentJob → Bool
is_cancelled job = value_is_true (find_if (λ kv. str_eq kv.0 cancel_annotation) job.annotations)

module _ ⦃api : ConditionApi⦄ where
  -- HandleCancel: the job afterwards, and whether it was cancelled now.
  unfoldable pub handle_cancel : ℤ → AgentJob → AgentJob × Bool
  handle_cancel now job =
      let (conditions, set) =
        try_set_job_terminal job.status.conditions job_condition_failed condition_true "Cancelled"
          "Job was cancelled via annotation" now in
      if is_cancelled job
      then if set
        then (
          record job {
            status = record job.status { conditions = conditions; completion_time = some now };
          },
          true,
        )
        else (job, false)
      else (job, false)

  -- Cancelling takes effect exactly on a job that asks for it and is not terminal. Then the job is
  -- completed now, its condition Failed is true, and it is terminal; otherwise it is unchanged.
  pub handle_cancel_exact :
      (now : ℤ) (job : AgentJob)
      → ((handle_cancel now job).1
          ≡ (is_cancelled job && not (is_job_terminal job.status.conditions)))
        × ((handle_cancel now job).1 ≡ true
            → (is_job_terminal (handle_cancel now job).0.status.conditions ≡ true)
              × (has_true (handle_cancel now job).0.status.conditions job_condition_failed ≡ true)
              × ((handle_cancel now job).0.status.completion_time ≡ some now))
        × ((handle_cancel now job).1 ≡ false → (handle_cancel now job).0 ≡ job)
  unfolding handle_cancel try_set_job_terminal
  handle_cancel_exact now job =
      let terminal =
        is_job_terminal-set_job_condition job.status.conditions job_condition_failed "Cancelled"
          "Job was cancelled via annotation" now (inr refl) in
      let failed =
        has_true-set_job_condition job.status.conditions job_condition_failed "Cancelled"
          "Job was cancelled via annotation" now in
      (ground arith, λ h. (ground arith, ground arith, ground arith), λ h. ground arith)
