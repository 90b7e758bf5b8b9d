-- ===== src/Controller/Attempt/Outcome.antt =====
-- What ReconcileAttempt promises of the attempt that it returns.
use durarun_operator.Prelude.{
  ℤ, ◌≡◌, refl, ◌∙◌, inl, inr, Bool, true, false, not, Option, none, some, List, str_eq, is_some,
  Bool-cases, if◌then◌else◌,
}
use durarun_operator.State.{ConditionApi, is_attempt_terminal, is_attempt_succeeded}
use durarun_operator.State.Attempts.{attempt-set_complete, attempt-set_failed, attempt-set_other}
use durarun_operator.Api.{AgentJob, AgentAttempt}
use durarun_operator.Controller.Pods.{
  Pod, PodPhase, pod_pending, pod_running, pod_succeeded, pod_failed, pod_unknown,
}
use durarun_operator.Controller.Ownership.{JobSnapshot}
use durarun_operator.Controller.Server.{
  ApiServer, Reply, answered, not_found, already_exists, refused, Result, ok, err, Exec, pure,
  ◌>>=◌, Call, update_attempt, get_pod, continue,
}
use durarun_operator.Controller.Attempt.{
  CtrlResult, AttemptOutcome, mark_attempt_failed, mark_attempt_succeeded, mark_attempt_running,
  associate_pod, started, write_attempt, by_phase, observe_recorded, is_replaced, observe_pod,
  ensure_pod, after_fetch, with_pod, reconcile_attempt,
}

-- A successful action has a result with the property.
abbrev pub Returned {ℓ κ} : {A : Type ℓ} → (A → Type κ) → Result A → Type κ
Returned P (ok a) = P a
Returned P (err e) = Unit

module _ {ℓ κ μ} {A : Type ℓ} {B : Type κ} (P : B → Type μ) where
  Returned-continue :
      (r : Result A) (f : A → Exec B) (h : List Call)
      → ((a : A) → Returned P (f a h).0)
      → Returned P (continue r f h).0
  Returned-continue (ok a) f h k = k a
  Returned-continue (err e) f h k = tt

  -- Whatever the first action returns, the second has a result with the property.
  pub Returned-bind :
      (m : Exec A) (f : A → Exec B) (h : List Call)
      → ((a : A) (h' : List Call) → Returned P (f a h').0)
      → Returned P ((m >>= f) h).0
  Returned-bind m f h k = let (r, h') = m h in Returned-continue r f h' (λ a. k a h')

-- The flag says whether the attempt's conditions are terminal.
abbrev pub Honest : AttemptOutcome → Type 0
Honest o = is_attempt_terminal o.2.status.conditions ≡ o.0

module _ ⦃api : ConditionApi⦄ (now : ℤ) (attempt : AgentAttempt) where
  failed-terminal :
      (code : Option ℤ)
      → is_attempt_terminal (mark_attempt_failed now attempt code).status.conditions ≡ true
  unfolding mark_attempt_failed
  failed-terminal code =
      (attempt-set_failed attempt.status.conditions "Failed" "Attempt failed" now).0

  pub failed-succeeded :
      (code : Option ℤ)
      → is_attempt_succeeded (mark_attempt_failed now attempt code).status.conditions
        ≡ is_attempt_succeeded attempt.status.conditions
  unfolding mark_attempt_failed
  failed-succeeded code =
      (attempt-set_failed attempt.status.conditions "Failed" "Attempt failed" now).1

  pub succeeded-both :
      (is_attempt_terminal (mark_attempt_succeeded now attempt).status.conditions ≡ true)
      × (is_attempt_succeeded (mark_attempt_succeeded now attempt).status.conditions ≡ true)
  unfolding mark_attempt_succeeded
  succeeded-both = attempt-set_complete _ "PodSucceeded" "Pod completed successfully" now

  pub running-both :
      (is_attempt_terminal (mark_attempt_running now attempt).status.conditions
        ≡ is_attempt_terminal attempt.status.conditions)
      × (is_attempt_succeeded (mark_attempt_running now attempt).status.conditions
          ≡ is_attempt_succeeded attempt.status.conditions)
  unfolding mark_attempt_running
  running-both =
      attempt-set_other attempt.status.conditions "PodRunning" "Pod is running" now _ _ refl refl

  pub associate-both :
      (pod : Pod)
      → (is_attempt_terminal (associate_pod now attempt pod).status.conditions
          ≡ is_attempt_terminal attempt.status.conditions)
        × (is_attempt_succeeded (associate_pod now attempt pod).status.conditions
            ≡ is_attempt_succeeded attempt.status.conditions)
  unfolding associate_pod
  associate-both pod =
      attempt-set_other attempt.status.conditions "PodCreated" "Pod created" now _ _ refl refl

module _ ⦃api : ConditionApi⦄ ⦃server : ApiServer⦄ where
  pub Returned-write :
      (P : AttemptOutcome → Type 0) (a : AgentAttempt) (ended : Bool) (result : CtrlResult)
      (h : List Call)
      → P (ended, result, a)
      → Returned P (write_attempt a ended result h).0
  unfolding write_attempt
  Returned-write P a ended result h p =
      Returned-bind P (update_attempt a) (λ _. pure (ended, result, a)) h (λ _ h'. p)

  by_phase-Honest :
      (now : ℤ) (attempt : AgentAttempt) (pod : Pod) (phase : PodPhase) (h : List Call)
      → is_attempt_terminal attempt.status.conditions ≡ false
      → Returned Honest (by_phase now attempt pod phase h).0
  unfolding by_phase
  by_phase-Honest now attempt pod pod_running h n =
      elim (Bool-cases (is_some attempt.status.start_time)) [
        | inl e ↦ rw (e, if◌then◌else◌) n
        | inr e ↦
            rw (e, if◌then◌else◌) (Returned-write Honest _ _ _ h ((running-both now attempt).0 ∙ n))
      ]
  by_phase-Honest now attempt pod pod_succeeded h n =
      Returned-write Honest _ _ _ h (succeeded-both now attempt).0
  by_phase-Honest now attempt pod pod_failed h n =
      Returned-write Honest _ _ _ h (failed-terminal now (started now attempt) _)
  by_phase-Honest now attempt pod pod_pending h n = n
  by_phase-Honest now attempt pod pod_unknown h n = n

  pub Returned-if :
      {A : Type 0} (P : A → Type 0) (b : Bool) (m n : Exec A) (h : List Call)
      → (b ≡ true → Returned P (m h).0)
      → (b ≡ false → Returned P (n h).0)
      → Returned P ((if b then m else n) h).0
  Returned-if P true m n h t f = t refl
  Returned-if P false m n h t f = f refl

  observe_recorded-Honest :
      (now : ℤ) (attempt : AgentAttempt) (pod : Pod) (h : List Call)
      → is_attempt_terminal attempt.status.conditions ≡ false
      → Returned Honest (observe_recorded now attempt pod h).0
  unfolding observe_recorded
  observe_recorded-Honest now attempt pod h n =
      Returned-if Honest (is_replaced attempt pod) _ _ h
        (λ m. Returned-write Honest _ _ _ h (failed-terminal now attempt none))
        (λ m. by_phase-Honest now attempt pod pod.status.phase h n)

  observe_pod-Honest :
      (now : ℤ) (attempt : AgentAttempt) (pod : Pod) (h : List Call)
      → is_attempt_terminal attempt.status.conditions ≡ false
      → Returned Honest (observe_pod now attempt pod h).0
  unfolding observe_pod
  observe_pod-Honest now attempt pod h n =
      Returned-if Honest (str_eq attempt.status.pod_name "") _ _ h
        (λ e. Returned-write Honest _ _ _ h ((associate-both now attempt pod).0 ∙ n))
        (λ e. observe_recorded-Honest now attempt pod h n)

  after_fetch-Honest :
      (now : ℤ) (attempt : AgentAttempt) (reply : Reply Pod) (h : List Call)
      → is_attempt_terminal attempt.status.conditions ≡ false
      → Returned Honest (after_fetch now attempt reply h).0
  unfolding after_fetch
  after_fetch-Honest now attempt (answered pod) h n = observe_pod-Honest now attempt pod h n
  after_fetch-Honest now attempt not_found h n =
      Returned-write Honest _ _ _ h (failed-terminal now attempt none)
  after_fetch-Honest now attempt already_exists h n = tt
  after_fetch-Honest now attempt refused h n = tt

  with_pod-Honest :
      (now : ℤ) (job : AgentJob) (attempt : AgentAttempt) (pod : Option Pod) (h : List Call)
      → is_attempt_terminal attempt.status.conditions ≡ false
      → Returned Honest (with_pod now job attempt pod h).0
  unfolding with_pod
  with_pod-Honest now job attempt (some pod) h n = observe_pod-Honest now attempt pod h n
  with_pod-Honest now job attempt none h n =
      Returned-if Honest (not (str_eq attempt.status.pod_name "")) _ _ h
        (λ e.
          Returned-bind Honest (get_pod attempt.status.pod_name) (after_fetch now attempt) h
            (λ reply h'. after_fetch-Honest now attempt reply h' n))
        (λ e.
          Returned-bind Honest (ensure_pod job attempt) (observe_pod now attempt) h
            (λ pod h'. observe_pod-Honest now attempt pod h' n))

  -- Whatever the API server answers, a reconciliation of an attempt that does not fail reports the
  -- attempt as ended exactly when the conditions of the attempt that it returns are terminal.
  pub reconcile_attempt-Honest :
      (now : ℤ) (snap : JobSnapshot) (attempt : AgentAttempt) (h : List Call)
      → Returned Honest (reconcile_attempt now snap attempt h).0
  unfolding reconcile_attempt
  reconcile_attempt-Honest now snap attempt h =
      Returned-if Honest (is_attempt_terminal attempt.status.conditions) _ _ h (λ e. e)
        (λ e. with_pod-Honest now snap.job attempt _ h e)
