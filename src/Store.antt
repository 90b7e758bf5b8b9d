-- ===== src/Store.antt =====
-- internal/store/store.go: the tables of the standalone service and the statements on them.
--
-- A table is the list of its rows in the order of their insertion, and a statement, or a transaction
-- of several, is a function of the database: it returns what the method returns and the database
-- after it, which is the one before it when an error is returned. Primary keys and foreign keys are
-- those of `initSQL`. A statement that the database refuses for a reason of its own is a step of
-- Store/Session. Each id is the one that uuid.New makes for the row, and `now` is the time of the
-- statement. `ORDER BY` keeps the order of insertion among equals. A spec that is stored as JSON
-- is the spec itself.
pub mod Table
pub mod Jobs
pub mod Attempts
pub mod Records
pub mod Pools
pub mod Policies
pub mod Session
pub mod Paths
pub mod View
pub mod Evolves
pub mod Moves
pub mod Moved
pub mod Inserts
pub mod Saves
pub mod Follows
pub mod Claimed
pub mod Once
pub mod Artifacts
pub mod Numbers
pub mod Latest
use durarun_operator.Prelude.{
  ℕ, ℤ, String, Bool, true, Option, List, [], ◌∷◌, str_eq, any, not, if◌then◌else◌, ◌||◌,
}
use durarun_operator.Model.{Job, Attempt, Checkpoint, StateTransition}

pub record Artifact : Type 0 where
  pub id : String
  pub job_id : String
  pub name : String
  pub content : String
  pub created_at : ℤ

pub record LogRow : Type 0 where
  pub id : String
  pub job_id : String
  pub attempt_id : String
  pub content : String
  pub created_at : ℤ

pub record StepProgressRecord : Type 0 where
  pub id : String
  pub job_id : String
  pub attempt_id : String
  pub step_id : String
  pub seq : ℕ
  pub type : String
  pub exit_code : Option ℤ
  pub output_ref : String
  pub created_at : ℤ

pub record PoolPod : Type 0 where
  pub id : String
  pub pool_id : String
  pub state : String
  pub claimed_by_job : String
  pub runtime_class : String
  pub image : String
  pub version : ℕ
  pub created_at : ℤ
  pub claimed_at : Option ℤ

-- What a pool is made from. The float64 thresholds are left out.
pub record SandboxPoolSpec : Type 0 where
  pub min_size : ℤ
  pub max_size : ℤ
  pub scale_up_step : ℤ
  pub cooldown_seconds : ℤ
  pub template_image : String
  pub template_cpu : String
  pub template_memory : String
  pub runtime_class : String

pub record SandboxPool : Type 0 where
  pub id : String
  pub name : String
  pub spec : SandboxPoolSpec
  pub total_pods : ℤ
  pub idle_pods : ℤ
  pub claimed_pods : ℤ
  pub last_scale_time : Option ℤ
  pub ready : Bool
  pub created_at : ℤ
  pub updated_at : ℤ

pub record SandboxPolicySpec : Type 0 where
  pub allowed_levels : List String
  pub default_level : String
  pub force_level : Option String
  pub max_concurrent_jobs : ℤ
  pub max_pool_size : ℤ

pub record SandboxPolicy : Type 0 where
  pub id : String
  pub name : String
  pub namespace : String
  pub spec : SandboxPolicySpec
  pub created_at : ℤ

pub record Database : Type 0 where
  pub jobs : List Job
  pub attempts : List Attempt
  pub transitions : List StateTransition
  pub checkpoints : List Checkpoint
  pub artifacts : List Artifact
  pub logs : List LogRow
  pub step_progress : List StepProgressRecord
  pub sandbox_pools : List SandboxPool
  pub sandbox_policies : List SandboxPolicy
  pub pool_pods : List PoolPod

pub data StoreError : Type 0 where
  database_error no_rows duplicate_key missing_reference : StoreError
  -- what the row holds
  state_mismatch : String → StoreError

pub data Result (A : Type 0) : Type 0 where
  ok : A → Result A
  failed : StoreError → Result A

abbrev pub Statement : Type 0 → Type 0
Statement A = Database → Result A × Database

module _ {A : Type 0} where
  abbrev pub refuse : StoreError → Statement A
  refuse e db = (failed e, db)

  -- A statement that only reads.
  abbrev pub answer : (Database → A) → Statement A
  answer f db = (ok (f db), db)

  -- An INSERT, with its primary key and its foreign keys.
  abbrev pub insert_when : Bool → Bool → Statement A → Statement A
  insert_when taken refers insert db =
      if taken
      then refuse duplicate_key db
      else if refers
      then insert db
      else refuse missing_reference db

abbrev pub has_job : String → Database → Bool
has_job id db = any (λ j. str_eq j.id id) db.jobs

abbrev pub has_attempt : String → Database → Bool
has_attempt id db = any (λ a. str_eq a.id id) db.attempts

abbrev pub empty_database : Database
empty_database = record {
  jobs = [];
  attempts = [];
  transitions = [];
  checkpoints = [];
  artifacts = [];
  logs = [];
  step_progress = [];
  sandbox_pools = [];
  sandbox_policies = [];
  pool_pods = [];
}
