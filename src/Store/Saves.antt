-- ===== src/Store/Saves.antt =====
-- The statements that leave every state as it is (internal/store/store.go).
use durarun_operator.Prelude.{
  ℕ, ℤ, String, ◌≡◌, refl, ap, Bool, true, false, Bool-cases, inl, inr, any, ◌&&◌, str_eq,
  if◌then◌else◌,
}
use durarun_operator.Store.{Database, ok, insert_when, has_job, has_attempt}
use durarun_operator.Store.Attempts.{
  update_heartbeat, update_attempt_pool_info, update_attempt_step_progress,
}
use durarun_operator.Store.Records.{
  save_checkpoint, get_latest_checkpoint, save_artifact, save_log, is_artifact,
}
use durarun_operator.Store.View.{view}
use durarun_operator.Store.Evolves.{Rights, Evolves, Evolves-refl, Evolves-same}
use durarun_operator.Store.Inserts.{update_attempt-Evolves}

module _ (rights : Rights) where
  insert_when-Evolves :
      {A : Type 0} (taken refers : Bool) (r : A) (after db : Database)
      → after.transitions ≡ db.transitions
      → after.jobs ≡ db.jobs
      → after.attempts ≡ db.attempts
      → Evolves rights db (insert_when taken refers (λ _. (ok r, after)) db).1
  insert_when-Evolves true refers r after db t j a = Evolves-refl rights db
  insert_when-Evolves false true r after db t j a =
      Evolves-same rights db after t (λ id. ap (view (λ r. r.id) (λ r. r.state) id) j)
        (λ id. ap (view (λ r. r.id) (λ r. r.state) id) a)
  insert_when-Evolves false false r after db t j a = Evolves-refl rights db

  pub save_checkpoint-Evolves :
      (id attempt_id job_id : String) (step_index : ℕ) (content : String) (now : ℤ) (db : Database)
      → Evolves rights db (save_checkpoint id attempt_id job_id step_index content now db).1
  save_checkpoint-Evolves id attempt_id job_id step_index content now db =
      insert_when-Evolves (any (λ c. str_eq c.id id) db.checkpoints)
        (has_attempt attempt_id db && has_job job_id db) tt _ db refl refl refl

  pub save_log-Evolves :
      (id job_id attempt_id content : String) (now : ℤ) (db : Database)
      → Evolves rights db (save_log id job_id attempt_id content now db).1
  save_log-Evolves id job_id attempt_id content now db =
      insert_when-Evolves (any (λ l. str_eq l.id id) db.logs)
        (has_job job_id db && has_attempt attempt_id db) tt _ db refl refl refl

  pub save_artifact-Evolves :
      (id job_id name content : String) (now : ℤ) (db : Database)
      → Evolves rights db (save_artifact id job_id name content now db).1
  unfolding save_artifact
  save_artifact-Evolves id job_id name content now db =
      elim (Bool-cases (any (is_artifact job_id name) db.artifacts)) [
        | inl e ↦ rw (e, if◌then◌else◌) (Evolves-same rights db _ refl (λ _. refl) (λ _. refl))
        | inr e ↦
            rw (e, if◌then◌else◌)
              (insert_when-Evolves (any (λ a. str_eq a.id id) db.artifacts) (has_job job_id db) tt _
                db refl refl refl)
      ]

  pub get_latest_checkpoint-Evolves :
      (job_id : String) (db : Database) → Evolves rights db (get_latest_checkpoint job_id db).1
  unfolding get_latest_checkpoint
  get_latest_checkpoint-Evolves job_id db = Evolves-refl rights db

  pub update_heartbeat-Evolves :
      (id : String) (now : ℤ) (db : Database) → Evolves rights db (update_heartbeat id now db).1
  update_heartbeat-Evolves id now db =
      update_attempt-Evolves rights id (λ a. record a { last_heartbeat = now }) db (λ a. refl)
        (λ a. refl)

  pub update_attempt_pool_info-Evolves :
      (id pool_name : String) (claim_latency_ms : ℤ) (warm_hit : Bool) (db : Database)
      → Evolves rights db (update_attempt_pool_info id pool_name claim_latency_ms warm_hit db).1
  update_attempt_pool_info-Evolves id pool_name claim_latency_ms warm_hit db =
      update_attempt-Evolves rights id _ db (λ a. refl) (λ a. refl)

  pub update_attempt_step_progress-Evolves :
      (id last_step : String) (completed_count : ℕ) (db : Database)
      → Evolves rights db (update_attempt_step_progress id last_step completed_count db).1
  update_attempt_step_progress-Evolves id last_step completed_count db =
      update_attempt-Evolves rights id _ db (λ a. refl) (λ a. refl)
