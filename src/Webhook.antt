-- ===== src/Webhook.antt =====
-- internal/webhook: the admission of AgentJobs (agentjob_webhook.go, immutability.go, capacity.go).
-- An object of another type, which the API server does not send, is left out.
pub mod Updates
pub mod Capacity
mod Examples
use durarun_operator.Prelude.{
  ℤ, pos, negsuc, add_int32, ltb_ℤ, leb_ℤ, String, Bool, true, false, not, ◌&&◌, Option, none, some,
  List, [], ◌∷◌, ◌++◌, str_eq, if◌then◌else◌,
}
use durarun_operator.Api.{AgentJob}

pub data CreateError : Type 0 where
  image_empty max_attempts_negative : CreateError

-- ValidateCreate
unfoldable pub validate_create : AgentJob → Option CreateError
validate_create job =
    if str_eq job.spec.runtime.image ""
    then some image_empty
    else if ltb_ℤ job.spec.execution.max_attempts (pos 0)
    then some max_attempts_negative
    else none

pub data ForbiddenField : Type 0 where
  image_field command_field max_attempts_field : ForbiddenField

unfoldable pub same_strings : List String → List String → Bool
same_strings [] [] = true
same_strings [] (y ∷ ys) = false
same_strings (x ∷ xs) [] = false
same_strings (x ∷ xs) (y ∷ ys) = let rest = same_strings xs ys in str_eq x y && rest

-- reflect.DeepEqual on slices of strings, which tells nil from an empty slice
unfoldable pub deep_equal : Option (List String) → Option (List String) → Bool
unfolding same_strings
deep_equal none none = true
deep_equal none (some ys) = false
deep_equal (some xs) none = false
deep_equal (some xs) (some ys) = same_strings xs ys

-- ValidateImmutableFields, and ValidateUpdate, which fails when the list is not empty
unfoldable pub validate_immutable_fields : AgentJob → AgentJob → List ForbiddenField
unfolding deep_equal
validate_immutable_fields old new =
    let image : List ForbiddenField =
      if not (str_eq old.spec.runtime.image new.spec.runtime.image) then image_field ∷ [] else [] in
    let command : List ForbiddenField =
      if not (deep_equal old.spec.runtime.command new.spec.runtime.command)
      then command_field ∷ []
      else [] in
    let max_attempts : List ForbiddenField =
      if ltb_ℤ new.spec.execution.max_attempts old.spec.execution.max_attempts
      then max_attempts_field ∷ []
      else [] in
    image ++ command ++ max_attempts

pub record CapacityAdmission : Type 0 where
  pub max_active_jobs : ℤ  -- int32
  pub active_count : ℤ  -- int32

-- Whether the job is admitted, and the controller afterwards.
unfoldable pub admit : CapacityAdmission → Bool × CapacityAdmission
admit c =
    if leb_ℤ c.max_active_jobs c.active_count
    then (false, c)
    else (true, record c { active_count = add_int32 c.active_count (pos 1) })

unfoldable pub release : CapacityAdmission → CapacityAdmission
release c =
    if ltb_ℤ (pos 0) c.active_count
    then record c { active_count = add_int32 c.active_count (negsuc 0) }
    else c
