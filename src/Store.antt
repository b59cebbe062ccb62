-- ===== src/Store.antt =====
-- The control-plane tables of packages/db/migrations/0001_init.sql, the columns that the modelled
-- code reads or writes. Times are milliseconds. `home` of a row is the Postgres schema whose table
-- holds it: `none` is `public`, a dedicated project has its own (packages/db/src/projectSchema.ts).
pub mod Rows
use task_schedular.Prelude.{
  ℕ, String, Bool, ◌&&◌, Option, List, str_eq, same, find, any, count, sql_eq, ◌≤◌,
}
use task_schedular.Contracts.Common.{JobStatus, JobType, IsolationMode}
use task_schedular.Contracts.Json.{Fields}
use task_schedular.Contracts.Envelope.{JobEnvelope}

abbrev pub Home : Type 0
Home = Option String

pub record Job : Type 0 where
  pub home : Home
  pub id : String
  pub definition_id : Option String
  pub project_id : String
  pub entity : String
  pub type : JobType
  pub status : JobStatus
  pub idempotency_key : Option String
  pub parameters : Fields
  pub source : Fields
  pub destination : Fields
  pub rule_set_id : Option String
  pub priority : ℕ
  pub attempt : ℕ
  pub max_attempts : ℕ
  pub queued_at : ℕ
  pub started_at : Option ℕ
  pub finished_at : Option ℕ
  pub worker_id : Option String
  pub error_summary : Option String

pub data OutboxStatus : Type 0 where
  pending sent gave_up : OutboxStatus

pub record OutboxRow : Type 0 where
  pub id : String
  pub aggregate_id : String
  pub routing_key : String
  pub payload : JobEnvelope
  pub status : OutboxStatus
  pub sent_at : Option ℕ
  pub attempts : ℕ

pub record JobEvent : Type 0 where
  pub home : Home
  pub job_id : Option String
  pub project_id : Option String
  pub type : String
  pub actor : String
  pub message : String

pub record Project : Type 0 where
  pub id : String
  pub isolation_mode : IsolationMode
  pub db_schema : Option String
  pub concurrency_limit : ℕ

pub record WorkerNode : Type 0 where
  pub id : String
  pub last_heartbeat_at : ℕ

pub data ScheduleKind : Type 0 where
  cron one_time recurring : ScheduleKind

pub record JobDefinition : Type 0 where
  pub id : String
  pub project_id : String
  pub entity : String
  pub type : JobType
  pub schedule_kind : ScheduleKind
  pub cron : Option String
  pub timezone : String
  pub source : Fields
  pub destination : Fields
  pub options : Fields
  pub enabled : Bool
  pub next_run_at : Option ℕ
  pub last_run_at : Option ℕ

-- `outbox` is in the order of `created_at`.
pub record Db : Type 0 where
  pub jobs : List Job
  pub outbox : List OutboxRow
  pub events : List JobEvent
  pub projects : List Project
  pub workers : List WorkerNode
  pub definitions : List JobDefinition

-- The row of a job: its id, in the table that the connection's search_path resolves to.
abbrev pub at_id : Home → String → Job → Bool
at_id h i j = same j.home h && str_eq j.id i

-- SELECT … FROM jobs WHERE id=$1, its first row
abbrev pub job_at : Home → String → Db → Option Job
job_at h i db = find (at_id h i) db.jobs

abbrev pub holds_key : Home → String → Job → Bool
holds_key h k j = same j.home h && sql_eq j.idempotency_key k

-- The two unique indexes of the `jobs` tables: the primary key, and the idempotency key where it is
-- not NULL (packages/db/migrations/0002_idempotency.sql).
pub record IsKeyed (db : Db) : Type 0 where
  pub ids : (h : Home) (i : String) → count (at_id h i) db.jobs ≤ 1
  pub keys : (h : Home) (k : String) → count (holds_key h k) db.jobs ≤ 1
