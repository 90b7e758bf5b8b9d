-- ===== src/Controller/Pods.antt =====
-- internal/controller/loss_detector.go, and the part of corev1.Pod that the controllers read.
use durarun_operator.Prelude.{
  ℤ, String, ◌≡◌, refl, ◌↔◌, Bool, true, false, ◌&&◌, ◌||◌, Option, none, some, List, [], ◌∷◌,
  arith, str_eq, any, if◌then◌else◌,
}
use durarun_operator.State.{
  ConditionStatus, condition_true, condition_false, condition_unknown, is_true,
}

pub record Terminated : Type 0 where
  pub exit_code : ℤ
  pub reason : String

pub record ContainerStatus : Type 0 where
  pub terminated : Option Terminated
  pub last_terminated : Option Terminated

pub record PodCondition : Type 0 where
  pub type : String
  pub status : ConditionStatus
  pub reason : String

pub data PodPhase : Type 0 where
  pod_pending pod_running pod_succeeded pod_failed pod_unknown : PodPhase

pub record PodStatus : Type 0 where
  pub phase : PodPhase
  pub reason : String
  pub conditions : List PodCondition
  pub container_statuses : List ContainerStatus

pub record Pod : Type 0 where
  pub name : String
  pub uid : String
  pub attempt_label : String  -- the label durarun.io/attempt, "" if there is none
  pub status : PodStatus

pub data PodLossReason : Type 0 where
  loss_not_found loss_node_lost loss_evicted loss_preempted loss_oom_killed loss_unknown :
      PodLossReason

abbrev pub is_false : ConditionStatus → Bool
is_false condition_true = false
is_false condition_false = true
is_false condition_unknown = false

abbrev pub killed_by_oom : Option Terminated → Bool
killed_by_oom none = false
killed_by_oom (some t) = str_eq t.reason "OOMKilled"

unfoldable pub is_node_lost : List PodCondition → Bool
is_node_lost [] = false
is_node_lost (c ∷ cs) =
    let rest = is_node_lost cs in
    if str_eq c.type "DisruptionTarget" && is_true c.status
    then true
    else if (str_eq c.type "Ready" && is_false c.status) && str_eq c.reason "NodeLost"
    then true
    else rest

unfoldable pub has_oom_killed_container : List ContainerStatus → Bool
has_oom_killed_container [] = false
has_oom_killed_container (cs ∷ rest) =
    let later = has_oom_killed_container rest in
    if killed_by_oom cs.terminated
    then true
    else if killed_by_oom cs.last_terminated
    then true
    else later

abbrev pub is_pod_failed : PodPhase → Bool
is_pod_failed pod_failed = true
is_pod_failed pod_pending = false
is_pod_failed pod_running = false
is_pod_failed pod_succeeded = false
is_pod_failed pod_unknown = false

-- DetectPodLoss; `none` is "not lost".
unfoldable pub detect_pod_loss : Option Pod → Option PodLossReason
unfolding is_node_lost has_oom_killed_container
detect_pod_loss none = some loss_not_found
detect_pod_loss (some pod) =
    if str_eq pod.status.reason "Evicted"
    then some loss_evicted
    else if str_eq pod.status.reason "Preempted"
    then some loss_preempted
    else if is_node_lost pod.status.conditions
    then some loss_node_lost
    else if has_oom_killed_container pod.status.container_statuses
    then some loss_oom_killed
    else if is_pod_failed pod.status.phase
    then some loss_unknown
    else none

-- What counts as evidence that a pod is lost.
abbrev pub loss_evidence : Pod → Bool
loss_evidence pod =
    str_eq pod.status.reason "Evicted"
    || str_eq pod.status.reason "Preempted"
    || any
        (λ c.
          (str_eq c.type "DisruptionTarget" && is_true c.status)
          || (str_eq c.type "Ready" && is_false c.status && str_eq c.reason "NodeLost"))
        pod.status.conditions
    || any (λ c. killed_by_oom c.terminated || killed_by_oom c.last_terminated)
        pod.status.container_statuses
    || is_pod_failed pod.status.phase

is_node_lost-any :
    (cs : List PodCondition)
    → is_node_lost cs
      ≡ any
          (λ c.
            (str_eq c.type "DisruptionTarget" && is_true c.status)
            || (str_eq c.type "Ready" && is_false c.status && str_eq c.reason "NodeLost"))
          cs
unfolding is_node_lost
is_node_lost-any [] = refl
is_node_lost-any (c ∷ cs) = ground (arith, is_node_lost-any cs)

pub has_oom_killed_container-any :
    (cs : List ContainerStatus)
    → has_oom_killed_container cs
      ≡ any (λ c. killed_by_oom c.terminated || killed_by_oom c.last_terminated) cs
unfolding has_oom_killed_container
has_oom_killed_container-any [] = refl
has_oom_killed_container-any (c ∷ cs) = ground (arith, has_oom_killed_container-any cs)

-- A pod that was fetched is reported lost exactly when there is evidence of it: it was evicted or
-- preempted, a condition says that its node is lost, some container was killed for lack of memory,
-- or its phase is Failed.
pub detect_pod_loss_iff :
    (pod : Pod) → (detect_pod_loss (some pod) ≡ none) ↔ (loss_evidence pod ≡ false)
unfolding detect_pod_loss
detect_pod_loss_iff pod = (
  λ h. ground (
    arith,
    is_node_lost-any pod.status.conditions,
    has_oom_killed_container-any pod.status.container_statuses,
  ),
  λ h. ground (
    arith,
    is_node_lost-any pod.status.conditions,
    has_oom_killed_container-any pod.status.container_statuses,
  ),
)
