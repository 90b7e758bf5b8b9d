-- ===== src/Controller/Attempt/Quiet.antt =====
-- A reconciliation of an attempt writes no job.
use durarun_operator.Prelude.{ℤ, Option, none, some, String}
use durarun_operator.State.{ConditionApi}
use durarun_operator.Api.{AgentJob, AgentAttempt}
use durarun_operator.Controller.Pods.{Pod, PodPhase, pod_running}
use durarun_operator.Controller.Ownership.{JobSnapshot}
use durarun_operator.Controller.Server.{ApiServer, Reply, answered}
use durarun_operator.Controller.Sends.{
  Sends, Sends-pure, Sends-fail, Sends-bind, Sends-if, Sends-update_attempt, Sends-get_pod,
  Sends-create_pod,
}
use durarun_operator.Controller.Attempt.{
  CtrlResult, write_attempt, by_phase, observe_recorded, observe_pod, after_race, after_create,
  after_check, own_and_create, ensure_pod, after_fetch, with_pod, reconcile_attempt,
}
use mathlib.Core.Bool.{Bool}

ruleset sends_rules = (
  Sends-pure, Sends-fail, Sends-bind, Sends-if, Sends-update_attempt, Sends-get_pod,
  Sends-create_pod,
)

module _ {P : AgentJob → Type 0} ⦃api : ConditionApi⦄ ⦃server : ApiServer⦄ where
  Sends-write :
      (a : AgentAttempt) (ended : Bool) (result : CtrlResult)
      → Sends P (write_attempt a ended result)
  unfolding write_attempt
  Sends-write a ended result = search sends_rules

  Sends-by_phase :
      (now : ℤ) (a : AgentAttempt) (pod : Pod) (phase : PodPhase)
      → Sends P (by_phase now a pod phase)
  unfolding by_phase
  Sends-by_phase now a pod pod_running = search (sends_rules, Sends-write)
  Sends-by_phase now a pod _ = search (sends_rules, Sends-write)

  Sends-observe_recorded :
      (now : ℤ) (a : AgentAttempt) (pod : Pod) → Sends P (observe_recorded now a pod)
  unfolding observe_recorded
  Sends-observe_recorded now a pod = search (sends_rules, Sends-write, Sends-by_phase)

  Sends-observe_pod : (now : ℤ) (a : AgentAttempt) (pod : Pod) → Sends P (observe_pod now a pod)
  unfolding observe_pod
  Sends-observe_pod now a pod = search (sends_rules, Sends-write, Sends-observe_recorded)

  Sends-after_race : (r : Reply Pod) → Sends P (after_race r)
  unfolding after_race
  Sends-after_race (answered pod) = search sends_rules
  Sends-after_race _ = search sends_rules

  Sends-after_create : (name : String) (r : Reply Pod) → Sends P (after_create name r)
  unfolding after_create
  Sends-after_create name (answered pod) = search sends_rules
  Sends-after_create name _ = search (sends_rules, Sends-after_race)

  Sends-after_check : (pod : Pod) (r : Reply Pod) → Sends P (after_check pod r)
  unfolding after_check
  Sends-after_check pod (answered q) = search sends_rules
  Sends-after_check pod _ = search (sends_rules, Sends-after_create)

  Sends-own_and_create : (o : Option Pod) → Sends P (own_and_create o)
  unfolding own_and_create
  Sends-own_and_create none = search sends_rules
  Sends-own_and_create (some pod) = search (sends_rules, Sends-after_check)

  Sends-ensure_pod : (job : AgentJob) (a : AgentAttempt) → Sends P (ensure_pod job a)
  unfolding ensure_pod
  Sends-ensure_pod job a = Sends-own_and_create _

  Sends-after_fetch : (now : ℤ) (a : AgentAttempt) (r : Reply Pod) → Sends P (after_fetch now a r)
  unfolding after_fetch
  Sends-after_fetch now a (answered pod) = Sends-observe_pod now a pod
  Sends-after_fetch now a _ = search (sends_rules, Sends-write)

  Sends-with_pod :
      (now : ℤ) (job : AgentJob) (a : AgentAttempt) (o : Option Pod)
      → Sends P (with_pod now job a o)
  unfolding with_pod
  Sends-with_pod now job a (some pod) = Sends-observe_pod now a pod
  Sends-with_pod now job a none =
      search (sends_rules, Sends-after_fetch, Sends-ensure_pod, Sends-observe_pod)

  pub Sends-reconcile_attempt :
      (now : ℤ) (snap : JobSnapshot) (a : AgentAttempt) → Sends P (reconcile_attempt now snap a)
  unfolding reconcile_attempt
  Sends-reconcile_attempt now snap a = search (sends_rules, Sends-with_pod)
