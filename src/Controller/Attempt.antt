-- ===== src/Controller/Attempt.antt =====
-- internal/controller/attempt_reconciler.go. The clock is read once for a reconciliation. Of the
-- pod that executor.BuildPod makes, the model has the name and the attempt label.
pub mod Outcome
pub mod Success
pub mod Quiet
use durarun_operator.Prelude.{
  ℕ, ◌*◌, ℤ, pos, String, Bool, true, false, not, ◌&&◌, Option, none, some, List, [], ◌∷◌, str_eq,
  str_append, show_ℤ, is_some, if◌then◌else◌,
}
use durarun_operator.State.{
  ConditionApi, condition_true, is_attempt_terminal, set_attempt_condition,
  attempt_condition_pod_created, attempt_condition_running, attempt_condition_complete,
  attempt_condition_failed,
}
use durarun_operator.Api.{AgentJob, AgentAttempt}
use durarun_operator.Controller.Pods.{
  Pod, PodStatus, PodPhase, pod_pending, pod_running, pod_succeeded, pod_failed, pod_unknown,
  ContainerStatus, Terminated,
}
use durarun_operator.Controller.Ownership.{JobSnapshot, pod_for_attempt}
use durarun_operator.Controller.Server.{
  ApiServer, Reply, answered, not_found, already_exists, refused, Exec, pure, fail, expect,
  continue, ◌>>=◌, ◌>>◌, update_attempt, get_pod, create_pod_object, pod_get_failed,
  pod_create_failed, owner_reference_failed,
}

-- ctrl.Result, the delay in nanoseconds
pub record CtrlResult : Type 0 where
  pub requeue : Bool
  pub requeue_after : ℕ

abbrev pub no_requeue : CtrlResult
no_requeue = record { requeue = false; requeue_after = 0 }

-- requeueDelay
abbrev pub after_delay : CtrlResult
after_delay = record { requeue = false; requeue_after = 5 * 1000000000 }

-- Whether the attempt has ended, when to come back, and the attempt as it is now.
abbrev pub AttemptOutcome : Type 0
AttemptOutcome = Bool × CtrlResult × AgentAttempt

-- The name that BuildPod and createAttempt print: "%s-%d".
unfoldable pub numbered_name : String → ℤ → String
numbered_name name n = str_append (str_append name "-") (show_ℤ n)

build_pod : AgentJob → AgentAttempt → Pod
unfolding numbered_name
build_pod job attempt = record {
  name = numbered_name job.name attempt.spec.ordinal;
  uid = "";
  attempt_label = attempt.name;
  status = record { phase = pod_pending; reason = ""; conditions = []; container_statuses = [] };
}

exit_code_of : Option Terminated → Option ℤ → Option ℤ
exit_code_of none rest = rest
exit_code_of (some t) rest = some t.exit_code

unfoldable pub extract_exit_code : List ContainerStatus → Option ℤ
unfolding exit_code_of
extract_exit_code [] = none
extract_exit_code (cs ∷ rest) =
    let later = extract_exit_code rest in exit_code_of cs.terminated later

-- The attempt has recorded another pod's UID.
abbrev pub is_replaced : AgentAttempt → Pod → Bool
is_replaced attempt pod =
    not (str_eq attempt.status.pod_uid "") && not (str_eq pod.uid attempt.status.pod_uid)

abbrev pub or_now : Option ℤ → ℤ → Option ℤ
or_now none now = some now
or_now (some t) now = some t

abbrev pub or_old : Option ℤ → Option ℤ → Option ℤ
or_old none old = old
or_old (some c) old = some c

module _ ⦃api : ConditionApi⦄ where
  unfoldable pub mark_attempt_failed : ℤ → AgentAttempt → Option ℤ → AgentAttempt
  mark_attempt_failed now attempt exit_code = record attempt {
    status = record attempt.status {
      completion_time = some now;
      exit_code = or_old exit_code attempt.status.exit_code;
      conditions =
          set_attempt_condition attempt.status.conditions attempt_condition_failed condition_true
            "Failed" "Attempt failed" now;
    };
  }

  -- The case PodSucceeded, before the update.
  unfoldable pub mark_attempt_succeeded : ℤ → AgentAttempt → AgentAttempt
  mark_attempt_succeeded now attempt = record attempt {
    status = record attempt.status {
      exit_code = some (pos 0);
      completion_time = some now;
      start_time = or_now attempt.status.start_time now;
      conditions =
          set_attempt_condition
            (set_attempt_condition attempt.status.conditions attempt_condition_running
              condition_true "PodRunning" "Pod ran (fast path)" now)
            attempt_condition_complete condition_true "PodSucceeded" "Pod completed successfully"
            now;
    };
  }

  unfoldable pub mark_attempt_running : ℤ → AgentAttempt → AgentAttempt
  mark_attempt_running now attempt = record attempt {
    status = record attempt.status {
      start_time = some now;
      conditions =
          set_attempt_condition attempt.status.conditions attempt_condition_running condition_true
            "PodRunning" "Pod is running" now;
    };
  }

  unfoldable pub associate_pod : ℤ → AgentAttempt → Pod → AgentAttempt
  associate_pod now attempt pod = record attempt {
    status = record attempt.status {
      pod_name = pod.name;
      pod_uid = pod.uid;
      conditions =
          set_attempt_condition attempt.status.conditions attempt_condition_pod_created
            condition_true "PodCreated" "Pod created" now;
    };
  }

  unfoldable pub started : ℤ → AgentAttempt → AgentAttempt
  started now attempt = record attempt {
    status = record attempt.status { start_time = or_now attempt.status.start_time now };
  }

module _ ⦃api : ConditionApi⦄ ⦃server : ApiServer⦄ where
  -- Writes the attempt and reports whether it has ended.
  unfoldable pub write_attempt : AgentAttempt → Bool → CtrlResult → Exec AttemptOutcome
  write_attempt attempt ended result = do update_attempt attempt; pure (ended, result, attempt)

  -- The switch on the phase of the pod.
  unfoldable pub by_phase : ℤ → AgentAttempt → Pod → PodPhase → Exec AttemptOutcome
  unfolding write_attempt
  by_phase now attempt pod pod_running =
      if is_some attempt.status.start_time
      then pure (false, after_delay, attempt)
      else write_attempt (mark_attempt_running now attempt) false after_delay
  by_phase now attempt pod pod_succeeded =
      write_attempt (mark_attempt_succeeded now attempt) true no_requeue
  by_phase now attempt pod pod_failed =
      write_attempt
        (mark_attempt_failed now (started now attempt)
          (extract_exit_code pod.status.container_statuses))
        true no_requeue
  by_phase now attempt pod pod_pending = pure (false, after_delay, attempt)
  by_phase now attempt pod pod_unknown = pure (false, after_delay, attempt)

  observe_recorded : ℤ → AgentAttempt → Pod → Exec AttemptOutcome
  unfolding by_phase
  observe_recorded now attempt pod =
      if is_replaced attempt pod
      then write_attempt (mark_attempt_failed now attempt none) true no_requeue
      else by_phase now attempt pod pod.status.phase

  -- From the association of the pod on.
  unfoldable pub observe_pod : ℤ → AgentAttempt → Pod → Exec AttemptOutcome
  unfolding observe_recorded
  observe_pod now attempt pod =
      if str_eq attempt.status.pod_name ""
      then write_attempt (associate_pod now attempt pod) false after_delay
      else observe_recorded now attempt pod

  after_race : Reply Pod → Exec Pod
  after_race (answered pod) = pure pod
  after_race not_found = fail pod_get_failed
  after_race already_exists = fail pod_get_failed
  after_race refused = fail pod_get_failed

  after_create : String → Reply Pod → Exec Pod
  unfolding after_race
  after_create name (answered pod) = pure pod
  after_create name already_exists = do reply ← get_pod name; after_race reply
  after_create name not_found = fail pod_create_failed
  after_create name refused = fail pod_create_failed

  after_check : Pod → Reply Pod → Exec Pod
  unfolding after_create
  after_check new_pod (answered pod) = pure pod
  after_check new_pod not_found = do
    reply ← create_pod_object new_pod
    after_create new_pod.name reply
  after_check new_pod already_exists = fail pod_get_failed
  after_check new_pod refused = fail pod_get_failed

  own_and_create : Option Pod → Exec Pod
  unfolding after_check
  own_and_create none = fail owner_reference_failed
  own_and_create (some new_pod) = do reply ← get_pod new_pod.name; after_check new_pod reply

  -- Gets or creates the pod of an attempt that has none.
  unfoldable pub ensure_pod : AgentJob → AgentAttempt → Exec Pod
  unfolding own_and_create build_pod
  ensure_pod job attempt = own_and_create (server.own_pod attempt (build_pod job attempt))

  after_fetch : ℤ → AgentAttempt → Reply Pod → Exec AttemptOutcome
  unfolding observe_pod
  after_fetch now attempt (answered pod) = observe_pod now attempt pod
  after_fetch now attempt not_found =
      write_attempt (mark_attempt_failed now attempt none) true no_requeue
  after_fetch now attempt already_exists = fail pod_get_failed
  after_fetch now attempt refused = fail pod_get_failed

  with_pod : ℤ → AgentJob → AgentAttempt → Option Pod → Exec AttemptOutcome
  unfolding after_fetch ensure_pod
  with_pod now job attempt (some pod) = observe_pod now attempt pod
  with_pod now job attempt none =
      if not (str_eq attempt.status.pod_name "")
      then (do reply ← get_pod attempt.status.pod_name; after_fetch now attempt reply)
      else do pod ← ensure_pod job attempt; observe_pod now attempt pod

  -- ReconcileAttempt
  unfoldable pub reconcile_attempt : ℤ → JobSnapshot → AgentAttempt → Exec AttemptOutcome
  unfolding with_pod
  reconcile_attempt now snap attempt =
      if is_attempt_terminal attempt.status.conditions
      then pure (true, no_requeue, attempt)
      else with_pod now snap.job attempt (pod_for_attempt snap attempt.name)
