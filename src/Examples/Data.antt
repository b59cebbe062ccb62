-- ===== src/Examples/Data.antt =====
-- A database with one queued job, a worker, and what they meet.
use task_schedular.Prelude.{Bool, false, none, some, List, [], ◌∷◌, ◌≤◌, count, arith}
use task_schedular.Prelude.Act.{Act, error, throw}
use task_schedular.Contracts.Common.{webhook, queued, shared}
use task_schedular.Contracts.Json.{end, num, str, bool}
use task_schedular.Contracts.Envelope.{JobEnvelope}
use task_schedular.Messaging.Publisher.{Confirm}
use task_schedular.Store.{Job, Db, IsKeyed, at_id, holds_key}
use task_schedular.Enqueue.{EnqueueInput, Fresh, Isolation}
use task_schedular.Runner.{Config, Delivery, World, pooled}

abbrev pub job : Job
job = record {
  home = none;
  id = "j1";
  definition_id = none;
  project_id = "p1";
  entity = "orders";
  type = webhook;
  status = queued;
  idempotency_key = some "k1";
  parameters = end;
  source = end;
  destination = end;
  rule_set_id = none;
  priority = 5;
  attempt = 1;
  max_attempts = 5;
  queued_at = 0;
  started_at = none;
  finished_at = none;
  worker_id = none;
  error_summary = none;
}

abbrev pub db_with : List Job → Db
db_with jobs = record {
  jobs = jobs;
  outbox = [];
  events = [];
  projects = [];
  workers = record { id = "w1"; last_heartbeat_at = 1000 } ∷ [];
  definitions = [];
}

count-one : (p : Job → Bool) (j : Job) → count p (j ∷ []) ≤ 1
count-one p j = ground arith

pub one_job-IsKeyed : (j : Job) → IsKeyed (db_with (j ∷ []))
one_job-IsKeyed j = record {
  ids = λ h i. count-one (at_id h i) j;
  keys = λ h k. count-one (holds_key h k) j;
}

abbrev pub envelope_one : JobEnvelope
envelope_one = record {
  job_id = "j1";
  type = webhook;
  project_id = "p1";
  entity = "orders";
  idempotency_key = "k1";
  source = end;
  destination = end;
  rule_set_id = none;
  mapping = [];
  options = record {
    chunk_size = num 5000;
    on_error = str "collect";
    dry_run = bool false;
    hard_delete = bool false;
  };
  priority = 5;
  attempt = 1;
  correlation_id = "c1";
  created_at = 0;
}

-- A handler that always fails.
abbrev pub failing : JobEnvelope → Act Db (Unit {0})
failing env = throw (error "boom")

abbrev pub config_one : Config
config_one = record {
  worker_id = "w1";
  home = none;
  mode = pooled;
  retry_backoff_base_ms = 500;
  handlers = λ t. some failing;
}

abbrev pub delivery_with : Confirm → Delivery
delivery_with answer = record {
  message = some envelope_one;
  now = 2000;
  fails = λ q. false;
  redis_fails = false;
  release_fails = false;
  confirm = answer;
  jitter = 0;
}

abbrev pub world : World
world = record {
  db = db_with (job ∷ []);
  slots = λ p. 0;
  limit_cache = [];
  settled = [];
  published = [];
  in_flight = 0;
  draining = false;
}

abbrev pub input_one : EnqueueInput
input_one = record {
  project_id = "p1";
  entity = "orders";
  type = webhook;
  idempotency_key = some "k2";
  source = none;
  destination = none;
  rule_set_id = none;
  mapping = some (("a", "b") ∷ []);
  options = none;
  priority = none;
  definition_id = none;
  parameters = none;
  correlation_id = none;
}

abbrev pub fresh_one : Fresh
fresh_one = record { uuid = "j2"; outbox_id = "o2"; now = 3000 }

abbrev pub fresh_two : Fresh
fresh_two = record { uuid = "j3"; outbox_id = "o3"; now = 4000 }

abbrev pub shared_tier : Isolation
shared_tier = record { mode = shared; schema = none }
