-- ===== src/Controller/Classify.antt =====
-- internal/controller/error_classifier.go and result_reconciler.go, internal/runner/result.go, and
-- the ProcessResult of internal/protocol/process.go.
use durarun_operator.Prelude.{
  ℕ, ℤ, pos, negsuc, eq_ℤ, leb_ℤ, String, ◌≡◌, ◌↔◌, refl, Bool, true, false, ◌&&◌, not, Option,
  none, some, arith, str_eq, if◌then◌else◌,
}
use durarun_operator.Api.{ErrorCategory, infra, user, timeout, oom, unknown, no_category}
use durarun_operator.Controller.Pods.{PodStatus, has_oom_killed_container}

pub record ProcessResult : Type 0 where
  pub exit_code : ℤ
  pub signal : ℤ
  pub oom_killed : Bool
  pub error : String

-- isOOMKilledFromPod tests what hasOOMKilledContainer does.
abbrev pub oom_in_pod : Option PodStatus → Bool
oom_in_pod none = false
oom_in_pod (some p) = has_oom_killed_container p.container_statuses

unfoldable pub classify_error : Option ProcessResult → Option PodStatus → ErrorCategory
classify_error none pod_status = unknown
classify_error (some result) pod_status =
    if eq_ℤ result.exit_code (pos 0) && not result.oom_killed
    then no_category
    else if result.oom_killed
    then oom
    else if oom_in_pod pod_status
    then oom
    else if str_eq result.error "timeout"
    then timeout
    else if eq_ℤ result.exit_code (pos 137)
    then infra
    else if leb_ℤ (pos 1) result.exit_code && leb_ℤ result.exit_code (pos 127)
    then user
    else if leb_ℤ (pos 128) result.exit_code
    then infra
    else unknown

-- What `cmd.Wait` returns: an exec.ExitError with its exit code and, on Unix, the signal that ended
-- the process, or another error.
pub data WaitError : Type 0 where
  exit_error : ℤ → Option ℕ → WaitError
  other_error : String → WaitError

abbrev signal_of : Option ℕ → ℤ
signal_of none = pos 0
signal_of (some s) = pos s

unfoldable pub exit_to_result : Option WaitError → ProcessResult
exit_to_result none = record { exit_code = pos 0; signal = pos 0; oom_killed = false; error = "" }
exit_to_result (some (exit_error code signal)) = record {
  exit_code = code;
  signal = signal_of signal;
  oom_killed = false;
  error = "";
}
exit_to_result (some (other_error msg)) = record {
  exit_code = negsuc 0;
  signal = pos 0;
  oom_killed = false;
  error = msg;
}

-- What os/exec documents of ExitError: the exit code of a process that a signal ended is -1, and
-- the code of one that exited is not negative, and not 0, since then `Wait` returns nil.
abbrev pub IsWaitError : WaitError → Type 0
IsWaitError (exit_error code none) = leb_ℤ (pos 1) code ≡ true
IsWaitError (exit_error code (some s)) = code ≡ negsuc 0
IsWaitError (other_error msg) = str_eq msg "timeout" ≡ false

-- No error is reported exactly for a result with exit code 0 that was not killed for lack of memory,
-- whatever the pod says.
pub classify_error-no_category :
    (r : Option ProcessResult) (p : Option PodStatus)
    → (classify_error r p ≡ no_category) ↔ (
        (result : ProcessResult) × (r ≡ some result)
        × (result.exit_code ≡ pos 0)
        × (result.oom_killed ≡ false))
unfolding classify_error
classify_error-no_category none p = (λ h. ground arith, λ h. ground arith)
classify_error-no_category (some result) p =
    (λ h. (result, refl, ground arith, ground arith), λ h. ground (arith, h.1, h.2, h.3))
