-- ===== src/Controller/Server.antt =====
-- The API server as the controllers use it (sigs.k8s.io/controller-runtime's client), and actions
-- that call it. A call is answered from the calls made before, so any behaviour of the server,
-- with faults and races at any moment, is an `ApiServer`. An update that is answered leaves the
-- caller's object as it was sent: what the server fills in there, such as a new resource version, is
-- left out.
use durarun_operator.Prelude.{String, Bool, true, false, Option, List, [], ◌∷◌, ◌++◌}
use durarun_operator.Api.{AgentJob, AgentJobSpec, AgentAttempt}
use durarun_operator.Controller.Pods.{Pod}

pub data Reply {ℓ} (A : Type ℓ) : Type ℓ where
  answered : A → Reply A
  not_found already_exists refused : Reply A

pub data Call : Type 0 where
  get_attempt_call get_pod_call : String → Call
  create_attempt_call update_attempt_call : AgentAttempt → Call
  create_pod_call : Pod → Call
  update_job_call : AgentJob → Call

pub record ApiServer : Type 0 where
  pub get_attempt : List Call → String → Reply AgentAttempt
  pub get_pod : List Call → String → Reply Pod
  -- `Create` fills in the object, with its UID.
  pub create_attempt : List Call → AgentAttempt → Reply AgentAttempt
  pub create_pod : List Call → Pod → Reply Pod
  -- the status subresource
  pub update_attempt : List Call → AgentAttempt → Reply (Unit {0})
  pub update_job : List Call → AgentJob → Reply (Unit {0})
  -- controllerutil.SetControllerReference, which fails on an object of another owner
  pub own_attempt : AgentJob → AgentAttempt → Option AgentAttempt
  pub own_pod : AgentAttempt → Pod → Option Pod
  -- encoding/json and crypto/sha256 over the spec
  pub compute_spec_hash : AgentJobSpec → String

-- What a failed reconciliation was doing.
pub data ReconcileError : Type 0 where
  job_update_failed attempt_update_failed attempt_create_failed attempt_get_failed : ReconcileError
  pod_get_failed pod_create_failed owner_reference_failed : ReconcileError

pub data Result {ℓ} (A : Type ℓ) : Type ℓ where
  ok : A → Result A
  err : ReconcileError → Result A

abbrev pub Exec {ℓ} : Type ℓ → Type ℓ
Exec A = List Call → Result A × List Call

abbrev pub is_job_update : Call → Bool
is_job_update (update_job_call job) = true
is_job_update (get_attempt_call name) = false
is_job_update (get_pod_call name) = false
is_job_update (create_attempt_call a) = false
is_job_update (update_attempt_call a) = false
is_job_update (create_pod_call p) = false

abbrev pub pure {ℓ} : {A : Type ℓ} → A → Exec A
pure a h = (ok a, h)

abbrev pub fail {ℓ} : {A : Type ℓ} → ReconcileError → Exec A
fail e h = (err e, h)

abbrev pub continue {ℓ κ} : {A : Type ℓ} {B : Type κ} → Result A → (A → Exec B) → Exec B
continue (ok a) f h = f a h
continue (err e) f h = (err e, h)

infixl 10 ◌>>=◌ ◌>>◌
abbrev pub ◌>>=◌ {ℓ κ} : {A : Type ℓ} {B : Type κ} → Exec A → (A → Exec B) → Exec B
◌>>=◌ m f h = let (r, h') = m h in continue r f h'

abbrev pub ◌>>◌ {ℓ} : {B : Type ℓ} → Exec (Unit {0}) → Exec B → Exec B
m >> k = m >>= λ _. k

-- An update that is answered succeeds, and any other reply is an error.
abbrev pub expect {ℓ} : {A : Type ℓ} → Reply A → ReconcileError → List Call → Result A × List Call
expect (answered a) e h = (ok a, h)
expect not_found e h = (err e, h)
expect already_exists e h = (err e, h)
expect refused e h = (err e, h)

module _ ⦃server : ApiServer⦄ where
  unfoldable pub update_job : AgentJob → Exec (Unit {0})
  update_job job h =
      expect (server.update_job h job) job_update_failed (h ++ update_job_call job ∷ [])

  unfoldable pub update_attempt : AgentAttempt → Exec (Unit {0})
  update_attempt a h =
      expect (server.update_attempt h a) attempt_update_failed (h ++ update_attempt_call a ∷ [])

  unfoldable pub get_attempt : String → Exec (Reply AgentAttempt)
  get_attempt name h = (ok (server.get_attempt h name), h ++ get_attempt_call name ∷ [])

  unfoldable pub get_pod : String → Exec (Reply Pod)
  get_pod name h = (ok (server.get_pod h name), h ++ get_pod_call name ∷ [])

  unfoldable pub create_attempt_object : AgentAttempt → Exec (Reply AgentAttempt)
  create_attempt_object a h = (ok (server.create_attempt h a), h ++ create_attempt_call a ∷ [])

  unfoldable pub create_pod_object : Pod → Exec (Reply Pod)
  create_pod_object p h = (ok (server.create_pod h p), h ++ create_pod_call p ∷ [])
