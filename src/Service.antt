-- ===== src/Service.antt =====
-- The standalone service: the reconciler (internal/scheduler), the workers (internal/worker) and the
-- HTTP interface (internal/api) over one store, in any order.
pub mod History
mod Examples
use durarun_operator.Prelude.{Bool, String, Option, List}
use durarun_operator.Model.{JobSpec, Attempt}
use durarun_operator.Scheduler.{Reconciler, reconcile}
use durarun_operator.Worker.{Worker, Run, work_once}
use durarun_operator.Server.{handle_create_job, handle_create_job_v2, handle_terminate_job}
use durarun_operator.Store.Session.{Environment, Action, pure, ◌>>=◌, for_each}

-- A tick of a reconciler or of a worker, or a request that writes.
pub data Turn : Type 0 where
  reconciles : Reconciler → Turn
  works : Worker → (Attempt → Run) → Turn
  submits : Option JobSpec → Turn
  submits_v2 : Bool → Option JobSpec → Turn
  terminates : String → Turn

module _ (env : Environment) where
  unfoldable pub take_turn : Turn → Action Unit
  take_turn (reconciles r) = reconcile env r
  take_turn (works w runs) = work_once env w runs
  take_turn (submits request) = do _ ← handle_create_job env request; pure tt
  take_turn (submits_v2 checks_level request) = do
    _ ← handle_create_job_v2 env checks_level request
    pure tt
  take_turn (terminates id) = do _ ← handle_terminate_job env id; pure tt

  unfoldable pub serve : List Turn → Action Unit
  serve turns = for_each turns take_turn
