-- ===== src/Controller/Attempt/Success.antt =====
-- When an attempt becomes succeeded.
use durarun_operator.Prelude.{
  ℤ, ◌≡◌, ◌∙◌, inl, inr, Bool, true, false, not, ◌&&◌, none, some, List, arith, str_eq, is_some,
  Bool-cases, if◌then◌else◌, inl, inr,
}
use durarun_operator.State.{ConditionApi, is_attempt_terminal, is_attempt_succeeded}
use durarun_operator.State.Attempts.{is_attempt_terminal-has_true}
use durarun_operator.State.Conditions.{is_attempt_succeeded-has_true}
use durarun_operator.Api.{AgentAttempt}
use durarun_operator.Controller.Pods.{
  Pod, PodPhase, pod_pending, pod_running, pod_succeeded, pod_failed, pod_unknown,
}
use durarun_operator.Controller.Ownership.{JobSnapshot, pod_for_attempt}
use durarun_operator.Controller.Server.{ApiServer, Call}
use durarun_operator.Controller.Attempt.{
  AttemptOutcome, started, by_phase, is_replaced, observe_recorded, observe_pod, with_pod,
  reconcile_attempt,
}
use durarun_operator.Controller.Attempt.Outcome.{
  Returned, Returned-write, Returned-if, failed-succeeded, succeeded-both, running-both,
  associate-both,
}

abbrev pub is_pod_succeeded : PodPhase → Bool
is_pod_succeeded pod_succeeded = true
is_pod_succeeded pod_pending = false
is_pod_succeeded pod_running = false
is_pod_succeeded pod_failed = false
is_pod_succeeded pod_unknown = false

-- A pod was recorded before, no other UID was recorded, and the pod has succeeded.
abbrev pub recorded_success : AgentAttempt → Pod → Bool
recorded_success attempt pod =
    not (str_eq attempt.status.pod_name "")
    && not (is_replaced attempt pod)
    && is_pod_succeeded pod.status.phase

abbrev pub SucceededIs : Bool → AttemptOutcome → Type 0
SucceededIs b o = is_attempt_succeeded o.2.status.conditions ≡ b

not_terminal-not_succeeded :
    (attempt : AgentAttempt)
    → is_attempt_terminal attempt.status.conditions ≡ false
    → is_attempt_succeeded attempt.status.conditions ≡ false
not_terminal-not_succeeded attempt h = ground (
  arith,
  is_attempt_terminal-has_true attempt.status.conditions,
  is_attempt_succeeded-has_true attempt.status.conditions,
)

module _ ⦃api : ConditionApi⦄ ⦃server : ApiServer⦄ where
  by_phase-success :
      (now : ℤ) (attempt : AgentAttempt) (pod : Pod) (phase : PodPhase) (h : List Call)
      → is_attempt_succeeded attempt.status.conditions ≡ false
      → Returned (SucceededIs (is_pod_succeeded phase)) (by_phase now attempt pod phase h).0
  unfolding by_phase
  by_phase-success now attempt pod pod_running h n =
      Returned-if (SucceededIs false) (is_some attempt.status.start_time) _ _ h (λ e. n)
        (λ e. Returned-write (SucceededIs false) _ _ _ h ((running-both now attempt).1 ∙ n))
  by_phase-success now attempt pod pod_succeeded h n =
      Returned-write (SucceededIs true) _ _ _ h (succeeded-both now attempt).1
  by_phase-success now attempt pod pod_failed h n =
      Returned-write (SucceededIs false) _ _ _ h
        (failed-succeeded now (started now attempt) _ ∙ unfold started in n)
  by_phase-success now attempt pod pod_pending h n = n
  by_phase-success now attempt pod pod_unknown h n = n

  observe_recorded-success :
      (now : ℤ) (attempt : AgentAttempt) (pod : Pod) (h : List Call)
      → is_attempt_succeeded attempt.status.conditions ≡ false
      → Returned
          (SucceededIs (not (is_replaced attempt pod) && is_pod_succeeded pod.status.phase))
          (observe_recorded now attempt pod h).0
  unfolding observe_recorded
  observe_recorded-success now attempt pod h n = elim (Bool-cases (is_replaced attempt pod)) [
    | inl e ↦
        rw (e, if◌then◌else◌)
          (Returned-write (SucceededIs false) _ _ _ h (failed-succeeded now attempt none ∙ n))
    | inr e ↦ rw (e, if◌then◌else◌) (by_phase-success now attempt pod pod.status.phase h n)
  ]

  observe_pod-success :
      (now : ℤ) (attempt : AgentAttempt) (pod : Pod) (h : List Call)
      → is_attempt_succeeded attempt.status.conditions ≡ false
      → Returned (SucceededIs (recorded_success attempt pod)) (observe_pod now attempt pod h).0
  unfolding observe_pod
  observe_pod-success now attempt pod h n = elim (Bool-cases (str_eq attempt.status.pod_name "")) [
    | inl e ↦
        rw (e, if◌then◌else◌)
          (Returned-write (SucceededIs false) _ _ _ h ((associate-both now attempt pod).1 ∙ n))
    | inr e ↦ rw (e, if◌then◌else◌) (observe_recorded-success now attempt pod h n)
  ]

  -- An attempt that has not ended, and whose pod is found by its label, is succeeded after a
  -- reconciliation that does not fail exactly when a pod was recorded in the attempt before, the
  -- recorded UID is empty or that pod's, and the pod is in the phase Succeeded.
  pub reconcile_attempt-success :
      (now : ℤ) (snap : JobSnapshot) (attempt : AgentAttempt) (pod : Pod) (h : List Call)
      → is_attempt_terminal attempt.status.conditions ≡ false
      → pod_for_attempt snap attempt.name ≡ some pod
      → Returned
          (SucceededIs (recorded_success attempt pod))
          (reconcile_attempt now snap attempt h).0
  unfolding reconcile_attempt with_pod
  reconcile_attempt-success now snap attempt pod h n found =
      rw (n, found, if◌then◌else◌)
        (observe_pod-success now attempt pod h (not_terminal-not_succeeded attempt n))
