-- ===== src/Controller/Sends.antt =====
-- A property of every job that an action writes to the API server.
use durarun_operator.Prelude.{
  String, ◌≡◌, refl, Bool, true, false, List, [], ◌∷◌, All, All-append, if◌then◌else◌,
}
use durarun_operator.Api.{AgentJob, AgentAttempt}
use durarun_operator.Controller.Pods.{Pod}
use durarun_operator.Controller.Server.{
  ApiServer, Reply, answered, not_found, already_exists, refused, Call, update_job_call,
  get_attempt_call, get_pod_call, create_attempt_call, update_attempt_call, create_pod_call, Result,
  ok, err, ReconcileError, Exec, pure, fail, continue, ◌>>=◌, expect, update_job, update_attempt,
  get_attempt, get_pod, create_attempt_object, create_pod_object,
}

-- The call writes no job, or one with the property.
abbrev pub Allowed : (AgentJob → Type 0) → Call → Type 0
Allowed P (update_job_call job) = P job
Allowed P (get_attempt_call name) = Unit
Allowed P (get_pod_call name) = Unit
Allowed P (create_attempt_call a) = Unit
Allowed P (update_attempt_call a) = Unit
Allowed P (create_pod_call p) = Unit

-- Every job that the action writes has the property, whether the action fails or not.
pub record Sends {A : Type 0} (P : AgentJob → Type 0) (m : Exec A) : Type 0 where
  pub at : (h : List Call) → All (Allowed P) h → All (Allowed P) (m h).1

expect-at :
    {A : Type 0} (P : AgentJob → Type 0) (r : Reply A) (e : ReconcileError) (h : List Call)
    → All (Allowed P) h
    → All (Allowed P) (expect r e h).1
expect-at P (answered a) e h p = p
expect-at P not_found e h p = p
expect-at P already_exists e h p = p
expect-at P refused e h p = p

module _ {P : AgentJob → Type 0} where
  pub Sends-pure : {A : Type 0} (a : A) → Sends P (pure a)
  Sends-pure a = record { at = λ h p. p }

  pub Sends-fail : {A : Type 0} (e : ReconcileError) → Sends {A = A} P (fail e)
  Sends-fail e = record { at = λ h p. p }

  continue-at :
      {A B : Type 0} (r : Result A) (f : A → Exec B) (h : List Call)
      → ((a : A) → Sends P (f a))
      → All (Allowed P) h
      → All (Allowed P) (continue r f h).1
  continue-at (ok a) f h k p = (k a).at h p
  continue-at (err e) f h k p = p

  pub Sends-bind :
      {A B : Type 0} (m : Exec A) (f : A → Exec B)
      → Sends P m
      → ((a : A) → Sends P (f a))
      → Sends P (m >>= f)
  Sends-bind m f hm hf = record {
    at = λ h p. let (r, h') = m h in continue-at r f h' hf (hm.at h p);
  }

  pub Sends-if :
      {A : Type 0} (b : Bool) (m n : Exec A)
      → (b ≡ true → Sends P m)
      → (b ≡ false → Sends P n)
      → Sends P (if b then m else n)
  Sends-if true m n hm hn = hm refl
  Sends-if false m n hm hn = hn refl

  module _ ⦃server : ApiServer⦄ where
    pub Sends-update_job : (job : AgentJob) → P job → Sends P (update_job job)
    unfolding update_job
    Sends-update_job job q = record {
      at = λ h p. expect-at P _ _ _ (All-append (Allowed P) h (update_job_call job ∷ []) p (q, tt));
    }

    pub Sends-update_attempt : (a : AgentAttempt) → Sends P (update_attempt a)
    unfolding update_attempt
    Sends-update_attempt a = record {
      at = λ h p.
          expect-at P _ _ _ (All-append (Allowed P) h (update_attempt_call a ∷ []) p (tt, tt));
    }

    pub Sends-get_attempt : (name : String) → Sends P (get_attempt name)
    unfolding get_attempt
    Sends-get_attempt name = record {
      at = λ h p. All-append (Allowed P) h (get_attempt_call name ∷ []) p (tt, tt);
    }

    pub Sends-get_pod : (name : String) → Sends P (get_pod name)
    unfolding get_pod
    Sends-get_pod name = record {
      at = λ h p. All-append (Allowed P) h (get_pod_call name ∷ []) p (tt, tt);
    }

    pub Sends-create_attempt : (a : AgentAttempt) → Sends P (create_attempt_object a)
    unfolding create_attempt_object
    Sends-create_attempt a = record {
      at = λ h p. All-append (Allowed P) h (create_attempt_call a ∷ []) p (tt, tt);
    }

    pub Sends-create_pod : (q : Pod) → Sends P (create_pod_object q)
    unfolding create_pod_object
    Sends-create_pod q = record {
      at = λ h p. All-append (Allowed P) h (create_pod_call q ∷ []) p (tt, tt);
    }
