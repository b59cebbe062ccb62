-- ===== src/Gateway/Jobs/Submit.antt =====
-- services/gateway-api/src/routes/jobs.ts: the ad-hoc enqueue. The validated body (`none` where the
-- schema refuses it) is an argument.
use task_schedular.Prelude.{ℕ, String, Bool, Option, none, some, List}
use task_schedular.Prelude.Act.{Act, pure, ◌>>=◌, ◌>>◌}
use task_schedular.Contracts.Json.{Fields}
use task_schedular.Contracts.Common.{JobType}
use task_schedular.Enqueue.{EnqueueInput, EnqueueResult, Fresh, Statement}
use task_schedular.Gateway.Jobs.{Gateway, Around, id_of, enqueue_here, audit}

pub record AdHocBody : Type 0 where
  pub project_id : String
  pub entity : String
  pub type : JobType
  pub idempotency_key : Option String
  pub source : Option Fields
  pub destination : Option Fields
  pub rule_set_id : Option String
  pub mapping : Option (List (String × String))
  pub options : Option Fields
  pub priority : Option ℕ

pub data SubmitReply : Type 0 where
  invalid_body : SubmitReply
  created : EnqueueResult → SubmitReply

unfoldable pub input_of : AdHocBody → EnqueueInput
input_of b = record {
  project_id = b.project_id;
  entity = b.entity;
  type = b.type;
  idempotency_key = b.idempotency_key;
  source = b.source;
  destination = b.destination;
  rule_set_id = b.rule_set_id;
  mapping = b.mapping;
  options = b.options;
  priority = b.priority;
  definition_id = none;
  parameters = none;
  correlation_id = none;
}

-- POST /jobs
unfoldable pub submit_job :
    Around → Fresh → Bool → (Statement → Bool) → Option AdHocBody → Act Gateway SubmitReply
unfolding input_of
submit_job a f read_fails fails none = pure invalid_body
submit_job a f read_fails fails (some b) = do
  result ← enqueue_here a (input_of b) f read_fails fails
  audit a "job.create" (id_of result)
  pure (created result)
