-- ===== src/Contracts/Envelope.antt =====
-- packages/contracts/src/envelope.ts: the queue message. The schema's checks of a received message
-- are a parameter where a message is received.
use task_schedular.Prelude.{ℕ, String, Option, List}
use task_schedular.Contracts.Common.{JobType}
use task_schedular.Contracts.Json.{Json, Fields}

pub record JobOptions : Type 0 where
  pub chunk_size : Json
  pub on_error : Json
  pub dry_run : Json
  pub hard_delete : Json

pub record JobEnvelope : Type 0 where
  pub job_id : String
  pub type : JobType
  pub project_id : String
  pub entity : String
  pub idempotency_key : String
  pub source : Fields
  pub destination : Fields
  pub rule_set_id : Option String
  pub mapping : List (String × String)
  pub options : JobOptions
  pub priority : ℕ
  pub attempt : ℕ
  pub correlation_id : String
  pub created_at : ℕ
