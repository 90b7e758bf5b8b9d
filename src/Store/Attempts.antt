-- ===== src/Store/Attempts.antt =====
-- The statements on the table of attempts (internal/store/store.go).
use durarun_operator.Prelude.{
  ℕ, suc, max, ℤ, ltb_ℤ, ◌-ℤ◌, String, Bool, true, ◌&&◌, ◌||◌, Option, none, some, List, [], ◌∷◌,
  ◌++◌, length, filter_if, find_if, ltb, str_eq, if◌then◌else◌,
}
use durarun_operator.Model.{
  Attempt, AttemptState, attempt_new, attempt_executing, attempt_completed, attempt_failed,
  attempt_timed_out, attempt_state_eq, attempt_state_name,
}
use durarun_operator.Store.{
  Database, Statement, ok, no_rows, state_mismatch, refuse, insert_when, has_job, has_attempt,
}
use durarun_operator.Store.Jobs.{transition_row, has_transition}
use durarun_operator.Store.Table.{select_by, update_by, order_by}

abbrev pub attempts_of : String → Database → List Attempt
attempts_of job_id db = filter_if (λ a. str_eq a.job_id job_id) db.attempts

-- COALESCE(MAX(number), 0)
abbrev pub max_number : List Attempt → ℕ
max_number [] = 0
max_number (a ∷ rest) = max a.number (max_number rest)

-- The query of CreateAttempt.
abbrev pub next_number : String → Statement ℕ
next_number job_id db = (ok (suc (max_number (attempts_of job_id db))), db)

abbrev pub new_attempt : String → String → ℕ → String → ℤ → Attempt
new_attempt id job_id number worker_id now = record {
  id = id;
  job_id = job_id;
  number = number;
  worker_id = worker_id;
  state = attempt_new;
  started_at = now;
  finished_at = none;
  last_heartbeat = now;
  checkpoint_id = none;
  pool_info = none;
  step_progress = none;
}

-- The INSERT of CreateAttempt.
unfoldable pub insert_attempt : String → String → ℕ → String → ℤ → Statement Attempt
insert_attempt id job_id number worker_id now db =
    insert_when (has_attempt id db) (has_job job_id db)
      (λ d. (
        ok (new_attempt id job_id number worker_id now),
        record d { attempts = d.attempts ++ new_attempt id job_id number worker_id now ∷ [] },
      ))
      db

abbrev pub update_attempt : String → (Attempt → Attempt) → Database → Database
update_attempt id f db = record db { attempts = update_by (λ a. a.id) id f db.attempts }

-- ClaimScheduledAttempt, once a row is selected.
unfoldable pub claim_row : String → Option Attempt → Statement (Option Attempt)
claim_row worker_id none db = (ok none, db)
claim_row worker_id (some a) db = (
  ok (some (record a { worker_id = worker_id })),
  update_attempt a.id (λ r. record r { worker_id = worker_id }) db,
)

-- The oldest attempt in state New. No row is locked between two transactions, so none is skipped.
-- Rows of the same started_at keep their order here; the query leaves it to the database.
abbrev pub oldest_new : Database → Option Attempt
oldest_new db =
    find_if (λ a. attempt_state_eq a.state attempt_new)
      (order_by (λ a b. ltb_ℤ a.started_at b.started_at) db.attempts)

-- Store.ClaimScheduledAttempt; the state of the attempt is left as it is.
unfoldable pub claim_scheduled_attempt : String → Statement (Option Attempt)
unfolding claim_row order_by
claim_scheduled_attempt worker_id db = claim_row worker_id (oldest_new db) db

abbrev pub is_terminal : AttemptState → Bool
is_terminal s =
    attempt_state_eq s attempt_completed
    || attempt_state_eq s attempt_failed
    || attempt_state_eq s attempt_timed_out

-- What the UPDATE of TransitionAttemptState writes.
abbrev pub moved_attempt : AttemptState → ℤ → Attempt → Attempt
moved_attempt target now a = record a {
  state = target;
  finished_at = if is_terminal target then some now else a.finished_at;
}

-- The two writes of TransitionAttemptState.
abbrev pub write_attempt_state :
    String → AttemptState → AttemptState → String → String → ℤ → Statement Unit
write_attempt_state attempt_id from target trigger tid now db =
    insert_when (has_transition tid db) true
      (λ d. (
        ok tt,
        record d {
          attempts = update_by (λ a. a.id) attempt_id (moved_attempt target now) d.attempts;
          transitions =
              d.transitions
              ++ transition_row tid "attempt" attempt_id (attempt_state_name from)
                  (attempt_state_name target) trigger now
                ∷ [];
        },
      ))
      db

-- TransitionAttemptState, once the row is read and locked.
unfoldable pub move_attempt :
    String → AttemptState → AttemptState → String → String → ℤ → Option Attempt → Statement Unit
move_attempt attempt_id from target trigger tid now none db = refuse no_rows db
move_attempt attempt_id from target trigger tid now (some a) db =
    if attempt_state_eq a.state from
    then write_attempt_state attempt_id from target trigger tid now db
    else refuse (state_mismatch (attempt_state_name a.state)) db

-- Store.TransitionAttemptState
unfoldable pub transition_attempt_state :
    String → AttemptState → AttemptState → String → String → ℤ → Statement Unit
unfolding move_attempt
transition_attempt_state attempt_id from target trigger tid now db =
    move_attempt attempt_id from target trigger tid now
      (select_by (λ a. a.id) attempt_id db.attempts) db

-- Store.UpdateHeartbeat
abbrev pub update_heartbeat : String → ℤ → Statement Unit
update_heartbeat id now db = (ok tt, update_attempt id (λ a. record a { last_heartbeat = now }) db)

-- Store.FindStaleAttempts; the threshold is in nanoseconds.
abbrev pub find_stale_attempts : ℤ → ℤ → Statement (List Attempt)
find_stale_attempts threshold now db = (
  ok (
      filter_if
        (λ a.
          attempt_state_eq a.state attempt_executing && ltb_ℤ threshold (now -ℤ a.last_heartbeat))
        db.attempts),
  db,
)

-- Store.GetAttempts: ORDER BY number
unfoldable pub get_attempts : String → Statement (List Attempt)
unfolding order_by
get_attempts job_id db = (ok (order_by (λ a b. ltb a.number b.number) (attempts_of job_id db)), db)

-- Store.CountAttempts
abbrev pub count_attempts : String → Statement ℕ
count_attempts job_id db = (ok (length (attempts_of job_id db)), db)

-- Store.UpdateAttemptPoolInfo
abbrev pub update_attempt_pool_info : String → String → ℤ → Bool → Statement Unit
update_attempt_pool_info id pool_name claim_latency_ms warm_hit db = (
  ok tt,
  update_attempt id (λ a. record a { pool_info = some (pool_name, claim_latency_ms, warm_hit) }) db,
)

-- Store.UpdateAttemptStepProgress
abbrev pub update_attempt_step_progress : String → String → ℕ → Statement Unit
update_attempt_step_progress id last_step completed_count db = (
  ok tt,
  update_attempt id (λ a. record a { step_progress = some (last_step, completed_count) }) db,
)
