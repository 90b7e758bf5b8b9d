-- ===== src/Store/Records.antt =====
-- The statements on checkpoints, artifacts, logs, transitions and step progress
-- (internal/store/store.go).
use durarun_operator.Prelude.{
  ℕ, ℤ, ltb_ℤ, String, Bool, not, ◌&&◌, ◌||◌, Option, none, some, List, [], ◌∷◌, ◌++◌, map, any,
  filter_if, find_if, ltb, ◌==◌, str_eq, if◌then◌else◌,
}
use durarun_operator.Model.{Checkpoint, StateTransition}
use durarun_operator.Store.{
  Database, Artifact, StepProgressRecord, Statement, ok, no_rows, refuse, insert_when, has_job,
  has_attempt,
}
use durarun_operator.Store.Table.{order_by, first_row}

-- Store.SaveCheckpoint
abbrev pub save_checkpoint : String → String → String → ℕ → String → ℤ → Statement Unit
save_checkpoint id attempt_id job_id step_index content now db =
    insert_when (any (λ c. str_eq c.id id) db.checkpoints)
      (has_attempt attempt_id db && has_job job_id db)
      (λ d. (
        ok tt,
        record d {
          checkpoints =
              d.checkpoints
              ++ record {
                id = id;
                attempt_id = attempt_id;
                job_id = job_id;
                step_index = step_index;
                data_json = content;
                created_at = now;
              }
                ∷ [];
        },
      ))
      db

-- ORDER BY step_index DESC, created_at DESC
abbrev pub is_later : Checkpoint → Checkpoint → Bool
is_later c d =
    ltb d.step_index c.step_index
    || (c.step_index == d.step_index) && ltb_ℤ d.created_at c.created_at

abbrev pub checkpoints_of : String → Database → List Checkpoint
checkpoints_of job_id db = filter_if (λ c. str_eq c.job_id job_id) db.checkpoints

-- Store.GetLatestCheckpoint; no row is no error.
unfoldable pub get_latest_checkpoint : String → Statement (Option Checkpoint)
unfolding order_by
get_latest_checkpoint job_id db =
    (ok (first_row (order_by is_later (checkpoints_of job_id db))), db)

abbrev pub is_artifact : String → String → Artifact → Bool
is_artifact job_id name a = str_eq a.job_id job_id && str_eq a.name name

abbrev pub write_content : String → String → String → List Artifact → List Artifact
write_content job_id name content rows =
    map (λ a. if is_artifact job_id name a then record a { content = content } else a) rows

-- Store.SaveArtifact: ON CONFLICT (job_id, name) DO UPDATE SET data
unfoldable pub save_artifact : String → String → String → String → ℤ → Statement Unit
save_artifact id job_id name content now db =
    if any (is_artifact job_id name) db.artifacts
    then (ok tt, record db { artifacts = write_content job_id name content db.artifacts })
    else insert_when (any (λ a. str_eq a.id id) db.artifacts) (has_job job_id db)
        (λ d. (
          ok tt,
          record d {
            artifacts =
                d.artifacts
                ++ record {
                  id = id;
                  job_id = job_id;
                  name = name;
                  content = content;
                  created_at = now;
                }
                  ∷ [];
          },
        ))
        db

abbrev pub found_content : Option Artifact → Statement String
found_content none db = refuse no_rows db
found_content (some a) db = (ok a.content, db)

-- Store.GetArtifact
unfoldable pub get_artifact : String → String → Statement String
get_artifact job_id name db = found_content (find_if (is_artifact job_id name) db.artifacts) db

-- Store.ListArtifacts
abbrev pub list_artifacts : String → Statement (List String)
list_artifacts job_id db =
    (ok (map (λ a. a.name) (filter_if (λ a. str_eq a.job_id job_id) db.artifacts)), db)

-- Store.SaveLog
abbrev pub save_log : String → String → String → String → ℤ → Statement Unit
save_log id job_id attempt_id content now db =
    insert_when (any (λ l. str_eq l.id id) db.logs) (has_job job_id db && has_attempt attempt_id db)
      (λ d. (
        ok tt,
        record d {
          logs =
              d.logs
              ++ record {
                id = id;
                job_id = job_id;
                attempt_id = attempt_id;
                content = content;
                created_at = now;
              }
                ∷ [];
        },
      ))
      db

-- Store.GetLogs: ORDER BY created_at
unfoldable pub get_logs : String → Statement (List String)
unfolding order_by
get_logs job_id db = (
  ok (
      map (λ l. l.content)
        (order_by (λ l m. ltb_ℤ l.created_at m.created_at)
          (filter_if (λ l. str_eq l.job_id job_id) db.logs))),
  db,
)

abbrev pub transitions_of : String → String → List StateTransition → List StateTransition
transitions_of entity_type entity_id ts =
    filter_if (λ t. str_eq t.entity_type entity_type && str_eq t.entity_id entity_id) ts

-- Store.GetTransitions: ORDER BY created_at
unfoldable pub get_transitions : String → String → Statement (List StateTransition)
unfolding order_by
get_transitions entity_type entity_id db = (
  ok (
      order_by (λ t u. ltb_ℤ t.created_at u.created_at)
        (transitions_of entity_type entity_id db.transitions)),
  db,
)

-- Store.SaveStepProgress
abbrev pub save_step_progress :
    String → String → String → String → ℕ → String → Option ℤ → String → ℤ → Statement Unit
save_step_progress id job_id attempt_id step_id seq type exit_code output_ref now db =
    insert_when (any (λ r. str_eq r.id id) db.step_progress)
      (has_job job_id db && has_attempt attempt_id db)
      (λ d. (
        ok tt,
        record d {
          step_progress =
              d.step_progress
              ++ record {
                id = id;
                job_id = job_id;
                attempt_id = attempt_id;
                step_id = step_id;
                seq = seq;
                type = type;
                exit_code = exit_code;
                output_ref = output_ref;
                created_at = now;
              }
                ∷ [];
        },
      ))
      db

-- Store.GetStepProgress: ORDER BY seq
unfoldable pub get_step_progress : String → Statement (List StepProgressRecord)
unfolding order_by
get_step_progress attempt_id db = (
  ok (
      order_by (λ r s. ltb r.seq s.seq)
        (filter_if (λ r. str_eq r.attempt_id attempt_id) db.step_progress)),
  db,
)

-- DISTINCT, where the first of equal strings stays.
abbrev pub distinct_strings : List String → List String
distinct_strings [] = []
distinct_strings (x ∷ xs) = x ∷ filter_if (λ y. not (str_eq y x)) (distinct_strings xs)

-- Store.GetCompletedSteps; `text_before` is the database's order of strings.
unfoldable pub get_completed_steps : (String → String → Bool) → String → Statement (List String)
unfolding order_by
get_completed_steps text_before attempt_id db = (
  ok (
      order_by text_before (
        distinct_strings (
          map (λ r. r.step_id)
            (filter_if (λ r. str_eq r.attempt_id attempt_id && str_eq r.type "completed")
              db.step_progress)))),
  db,
)
