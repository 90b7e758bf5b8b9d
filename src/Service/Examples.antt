-- ===== src/Service/Examples.antt =====
-- The theorems on the standalone service at concrete databases.
use durarun_operator.Prelude.{
  ℕ, zero, suc, ◌+◌, pos, String, str_append, ◌≡◌, refl, true, false, not, ◌&&◌, ◌||◌, none, some,
  List, [], ◌∷◌, any, str_eq, if◌then◌else◌, length, arith,
}
use durarun_operator.Pool.{claim}
use durarun_operator.Model.{
  JobSpec, Attempt, job_pending, job_scheduled, job_running, job_completed, job_state_eq,
  attempt_new, attempt_executing, attempt_failed, attempt_state_eq,
}
use durarun_operator.Model.Validation.{default_job_spec, validate_job_spec}
use durarun_operator.Model.Defaults.{IsValidated, validate_job_spec-IsValidated}
use durarun_operator.Isolation.{
  SandboxPolicy, resolve_level, resolved, l1_gvisor, l3_docker, level_eq,
}
use durarun_operator.Isolation.Resolved.{IsAnswer, is_allowed, resolve_level-IsAnswer}
use durarun_operator.Store.{Database, StoreError, failed, ok, empty_database}
use durarun_operator.Store.Jobs.{new_job, create_job, list_jobs, transition_job_state}
use durarun_operator.Store.Attempts.{
  new_attempt, attempts_of, insert_attempt, claim_scheduled_attempt, transition_attempt_state,
  get_attempts,
}
use durarun_operator.Store.Records.{
  save_artifact, get_artifact, get_latest_checkpoint, transitions_of,
}
use durarun_operator.Store.Evolves.{
  Evolves-refl, Rights, model_rights, JobTraced, AttemptTraced, job_state, attempt_state,
}
use durarun_operator.Store.Session.{
  World, Environment, statement, on_pool, create_attempt, on_result, on_option, when, report,
  for_each, pure, ◌>>=◌, ◌>>◌,
}
use durarun_operator.Store.Follows.{Follows, Follows-refl, Refines}
use durarun_operator.Store.Artifacts.{get_artifact-save_artifact}
use durarun_operator.Store.Numbers.{IsNumbered, create_attempt-IsNumbered}
use durarun_operator.Store.Once.{taken_once}
use durarun_operator.Store.Latest.{IsLatest, get_latest_checkpoint-IsLatest}
use durarun_operator.Scheduler.{
  Reconciler, schedule_pending_jobs, reconcile, reconcile_pool, schedule_job, claim_warm,
  schedule_attempt, move_job_or_report, handle_stale_attempts, handle_stale, handle_failed_attempts,
  handle_running_job, retry_latest, retry_or_fail,
}
use durarun_operator.Scheduler.Handled.{is_pending, concerns}
use durarun_operator.Scheduler.Scheduling.{schedule_pending_jobs_lem}
use durarun_operator.Worker.{
  Worker, Run, work_once, execute, prepare, start_runner, claim_and_run, run_sandbox, run_resolved,
  run_at, beat, save_manifest, save_progress, finish, keep_artifact, keep_log, release_claimed,
  conclude, conclude_run, end_attempt, move_job_of,
}
use durarun_operator.Worker.Steps.{HasWorkerRights}
use durarun_operator.Worker.Refined.{execute-Refines}
use durarun_operator.Server.{
  problem, handle_create_job, handle_create_job_v2, create_checked, create_valid, internal_error,
}
use durarun_operator.Service.{Turn, reconciles, works, submits, serve, take_turn}
use durarun_operator.Service.History.{fresh, serve-IsTraced, serve_keeps_job}

-- As many marks as steps.
abbrev marks : ℕ → String
marks zero = ""
marks (suc n) = str_append "x" (marks n)

-- Nothing else runs, no statement is refused, and an id tells the number of its step.
abbrev alone : Environment
alone = record { now = λ n. pos n; uuid = λ n. marks n; fails = λ n. false; others = λ n w. w }

alone_follows : (rights : Rights) (n : ℕ) (w : World) → Follows rights w (alone.others n w)
alone_follows rights n w = Follows-refl rights w

abbrev spec : JobSpec
spec = record default_job_spec { name = "job"; image = "image"; prompt = "prompt" }

abbrev direct : Reconciler
direct = record { has_pool = false; heartbeat_timeout = pos 30; pod_uuid = λ n. marks n }

abbrev worker : Worker
worker = record { id = "w"; pool_name = "default"; pod_uuid = λ n. marks n }

-- An execution that succeeds, under the level of the spec.
abbrev good_run : Run
good_run = record {
  work_dir_made = true;
  has_completed_steps = λ s. false;
  runner_made = λ b. true;
  hook_started = true;
  env_prepared = true;
  claim_latency_ms = pos 1;
  available = λ l. true;
  sandbox_started = λ l. true;
  beats = some (record { content = "{}"; progress = some ("step", 1) }) ∷ [];
  sandbox_error = none;
  result = some (pos 0, "done");
  output_log = none;
  final_manifest = none;
  checkpoint_json = λ o. none;
  artifact_files = ("a.txt", some "bytes") ∷ [];
}

abbrev bad_run : Run
bad_run = record good_run { sandbox_error = some "timeout" }

abbrev no_pods : World
no_pods = record {
  db = empty_database;
  pool = record {
    cfg = record {
      min_size = 0;
      max_size = 0;
      ratio_is_low = λ idle total. false;
      ratio_is_high = λ idle total. false;
      scale_up_step = 0;
      cooldown_seconds = 0;
    };
    pods = [];
    pod_order = [];
    last_scale_time = none;
    pending_demand = 0;
    metrics = record { claim_total = 0; miss_total = 0; scale_up_total = 0; scale_down_total = 0 };
    created = 0;
  };
  lines = [];
  tick = 0;
}

abbrev started : Database
started = record empty_database { jobs = new_job "j" spec (pos 0) ∷ [] }

abbrev finished : Database
finished = record empty_database {
  jobs = record (new_job "j" spec (pos 0)) { state = job_completed } ∷ [];
}

abbrev first_attempt : Attempt
first_attempt = new_attempt "a" "j" 1 "" (pos 1)

abbrev tried : Database
tried = record started { attempts = first_attempt ∷ [] }

abbrev saved : Database
saved = record tried {
  checkpoints =
      record {
        id = "c";
        attempt_id = "a";
        job_id = "j";
        step_index = 2;
        data_json = "{}";
        created_at = pos 5;
      }
      ∷ [];
}

-- A job is submitted, scheduled and executed.
abbrev day : List Turn
day = submits (some spec) ∷ reconciles direct ∷ works worker (λ a. good_run) ∷ []

day_completes : job_state "" (serve alone day no_pods).1.db ≡ some job_completed
unfolding serve take_turn for_each ◌>>◌ ◌>>=◌ pure when report on_result on_option statement on_pool
    create_attempt handle_create_job create_valid internal_error reconcile reconcile_pool
    schedule_pending_jobs schedule_job claim_warm schedule_attempt move_job_or_report
    handle_stale_attempts handle_stale handle_failed_attempts handle_running_job retry_latest
    retry_or_fail work_once execute prepare start_runner claim_and_run run_sandbox run_resolved
    run_at beat save_manifest save_progress finish keep_artifact keep_log release_claimed conclude
    conclude_run end_attempt move_job_of create_job list_jobs transition_job_state insert_attempt
    claim_scheduled_attempt transition_attempt_state get_attempts save_artifact
    get_latest_checkpoint claim resolve_level
day_completes = refl

serve-IsTraced_example :
    let db = (serve alone day (fresh alone (alone_follows model_rights) no_pods)).1.db in
    JobTraced model_rights none (transitions_of "job" "" db.transitions) (job_state "" db)
    × AttemptTraced model_rights none
        (transitions_of "attempt" "" db.transitions)
        (attempt_state "" db)
serve-IsTraced_example = serve-IsTraced alone (alone_follows model_rights) day no_pods ""

serve_keeps_job_example :
    job_state "j" (serve alone day (record no_pods { db = finished })).1.db ≡ some job_completed
serve_keeps_job_example =
    serve_keeps_job alone (alone_follows model_rights) day (record no_pods { db = finished }) "j"
      job_completed refl refl

-- What a worker may do when it completes nothing.
abbrev no_completion : Rights
no_completion = record {
  job_may = λ s t. job_state_eq s job_scheduled && job_state_eq t job_running;
  attempt_may = λ s t.
      attempt_state_eq s attempt_new && attempt_state_eq t attempt_executing
      || attempt_state_eq s attempt_executing && attempt_state_eq t attempt_failed;
}

bad_run_rights : HasWorkerRights bad_run no_completion
bad_run_rights = record {
  starts = refl;
  runs = refl;
  fails = refl;
  completes = λ h. absurd (ground (arith, h));
  completes_job = λ h. absurd (ground (arith, h));
}

execute-Refines_example : Refines no_completion (execute alone worker first_attempt bad_run)
execute-Refines_example =
    execute-Refines no_completion alone (alone_follows no_completion) worker first_attempt bad_run
      bad_run_rights

schedule_pending_jobs_lem_example :
    let v =
      (schedule_pending_jobs alone direct
        (record (record no_pods { db = started }) { lines = [] })).1 in
    (not (is_pending (job_state "j" v.db)) || any (concerns "j") v.lines) ≡ true
schedule_pending_jobs_lem_example =
    schedule_pending_jobs_lem alone (alone_follows model_rights) direct "j" job_pending
      (record no_pods { db = started }) refl

get_artifact-save_artifact_example :
    (get_artifact "j" "b" (save_artifact "1" "j" "a" "bytes" (pos 3) started).1).0
    ≡ (if str_eq "a" "b" then ok "bytes" else (get_artifact "j" "b" started).0)
unfolding save_artifact
get_artifact-save_artifact_example =
    get_artifact-save_artifact "1" "j" "a" "bytes" "b" (pos 3) started refl

-- At the time 4, and with one id.
abbrev naming : String → Environment
naming id = record { now = λ n. pos 4; uuid = λ n. id; fails = λ n. false; others = λ n w. w }

create_attempt-IsNumbered_example :
    ((new_attempt "b" "j" 2 "" (pos 4)).number ≡ 1 + length (attempts_of "j" tried))
    × IsNumbered "j" (create_attempt (naming "b") "j" "" (record no_pods { db = tried })).1.db
unfolding create_attempt statement on_result ◌>>=◌ insert_attempt
create_attempt-IsNumbered_example =
    create_attempt-IsNumbered (naming "b") (λ n w. refl) "j" "" (record no_pods { db = tried })
      (new_attempt "b" "j" 2 "" (pos 4)) (refl, tt) refl

abbrev taken : Database
taken = (transition_attempt_state "a" attempt_new attempt_executing "claimed" "t" (pos 5) tried).1

taken_once_example :
    (e : StoreError) × (transition_attempt_state "a" attempt_new attempt_executing "claimed" "u"
        (pos 6)
        taken
      ≡ (failed e, taken))
unfolding transition_attempt_state
taken_once_example =
    taken_once "a" attempt_executing attempt_executing "claimed" "claimed" "t" "u" (pos 5) (pos 6)
      tried taken refl refl (Evolves-refl model_rights taken)

get_latest_checkpoint-IsLatest_example :
    IsLatest "j" (get_latest_checkpoint "j" saved).0 saved.checkpoints
get_latest_checkpoint-IsLatest_example = get_latest_checkpoint-IsLatest "j" saved

validate_job_spec-IsValidated_example : IsValidated spec (validate_job_spec spec)
validate_job_spec-IsValidated_example = validate_job_spec-IsValidated spec

-- Only L1 is listed, and only L3 is available.
abbrev strict : SandboxPolicy
strict = record { allowed_levels = l1_gvisor ∷ []; default_level = none; force_level = none }

resolve_level-IsAnswer_example :
    IsAnswer
      (level_eq l3_docker)
      (is_allowed (some strict) l1_gvisor)
      l1_gvisor
      none
      (resolve_level (level_eq l3_docker) none (some strict))
resolve_level-IsAnswer_example = resolve_level-IsAnswer (level_eq l3_docker) none (some strict)

-- The fallback is a level that the policy does not list.
fallback_not_listed : resolve_level (level_eq l3_docker) none (some strict) ≡ resolved l3_docker
unfolding resolve_level
fallback_not_listed = refl

-- With an isolation manager the second version of the interface rejects the default level, whose
-- name in a spec is not its name in internal/isolation.
default_level_rejected : (handle_create_job_v2 alone true (some spec) no_pods).0 ≡ problem 400
unfolding handle_create_job_v2 create_checked pure
default_level_rejected = refl
