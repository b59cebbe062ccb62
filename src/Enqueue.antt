-- ===== src/Enqueue.antt =====
-- packages/core/src/enqueue.ts and withTransaction of packages/db/src/pool.ts: the transactional
-- enqueue. A statement may fail, as `fails` says; the database then throws and changes nothing.
pub mod Schema
pub mod Atomic
pub mod Once
pub mod Cache
use task_schedular.Prelude.{
  or_else, ℕ, ◌-◌, String, ◌≡◌, refl, Bool, true, false, ◌&&◌, not, Option, none, some, List, [],
  ◌∷◌, ◌++◌, str_eq, any, find, ltb, if◌then◌else◌,
}
use task_schedular.Prelude.Act.{
  Thrown, error, Result, ok, err, Act, pure, throw, ◌>>=◌, ◌>>◌, and_then,
}
use task_schedular.Contracts.Common.{
  JobType, queued, IsolationMode, shared, dedicated, type_name, routing_key_for_type, truthy_text,
}
use task_schedular.Contracts.Json.{
  Json, null, bool, num, str, obj, Fields, end, field, get_field, spread, or_default, set_field,
}
use task_schedular.Contracts.Envelope.{JobOptions, JobEnvelope}
use task_schedular.Store.{
  Home, Job, OutboxStatus, OutboxRow, JobEvent, Project, Db, at_id, holds_key,
}
use task_schedular.Enqueue.Schema.{is_schema_name}
use Prim.Native.String

pub record EnqueueInput : Type 0 where
  pub project_id : String
  pub entity : String
  pub type : JobType
  pub idempotency_key : Option String
  pub source : Option Fields
  pub destination : Option Fields
  pub rule_set_id : Option String
  pub mapping : Option (List (String × String))
  pub options : Option Fields
  pub priority : Option ℕ
  pub definition_id : Option String
  pub parameters : Option Fields
  pub correlation_id : Option String

pub data EnqueueResult : Type 0 where
  enqueued : (job_id : String) → EnqueueResult
  skipped : EnqueueResult

-- What the run takes from outside: the two generated ids and the clock.
pub record Fresh : Type 0 where
  pub uuid : String
  pub outbox_id : String
  pub now : ℕ

pub data Statement : Type 0 where
  begin set_path insert_job insert_outbox insert_event commit : Statement

-- A statement of the transaction: it throws, or does its work.
abbrev pub statement {ℓ} : {A : Type ℓ} → (Statement → Bool) → Statement → Act Db A → Act Db A
statement fails s work db = if fails s then (err (error "database"), db) else work db

-- Commits on success, and rolls back on a throw.
unfoldable pub with_transaction : {A : Type 0} → (Statement → Bool) → Act Db A → Act Db A
with_transaction fails body db =
    if fails begin
    then (err (error "database"), db)
    else let (r, db') = body db in
      elim r [
        | ok a ↦ if fails commit then (err (error "database"), db) else (ok a, db')
        | err e ↦ (err e, db)
      ]

-- The mapping as a JSON object.
abbrev pub mapping_json : List (String × String) → Fields
mapping_json [] = end
mapping_json ((k, v) ∷ m) = field k (str v) (mapping_json m)

module _ (input : EnqueueInput) (f : Fresh) where
  -- { kind: o.kind ?? 'unknown', ...o }
  abbrev pub with_kind : Fields → Fields
  with_kind o = spread (field "kind" (or_default (get_field "kind" o) (str "unknown")) end) o

  abbrev pub job_row : Home → Job
  job_row home = record {
    home = home;
    id = f.uuid;
    definition_id = input.definition_id;
    project_id = input.project_id;
    entity = input.entity;
    type = input.type;
    status = queued;
    idempotency_key = input.idempotency_key;
    parameters = spread (or_else input.parameters end) (
        field "options" (obj (or_else input.options end))
          (field "mapping" (obj (mapping_json (or_else input.mapping []))) end));
    source = or_else input.source end;
    destination = or_else input.destination end;
    rule_set_id = input.rule_set_id;
    priority = or_else input.priority 5;
    attempt = 1;
    max_attempts = 5;
    queued_at = f.now;
    started_at = none;
    finished_at = none;
    worker_id = none;
    error_summary = none;
  }

  abbrev pub job_options : Fields → JobOptions
  job_options o = record {
    chunk_size = or_default (get_field "chunkSize" o) (num 5000);
    on_error = or_default (get_field "onError" o) (str "collect");
    dry_run = or_default (get_field "dryRun" o) (bool false);
    hard_delete = or_default (get_field "hardDelete" o) (bool false);
  }

  abbrev pub envelope : JobEnvelope
  envelope = record {
    job_id = f.uuid;
    type = input.type;
    project_id = input.project_id;
    entity = input.entity;
    idempotency_key = or_else input.idempotency_key f.uuid;
    source = with_kind (or_else input.source end);
    destination = with_kind (or_else input.destination end);
    rule_set_id = input.rule_set_id;
    mapping = or_else input.mapping [];
    options = job_options (or_else input.options end);
    priority = or_else input.priority 5;
    attempt = 1;
    correlation_id = or_else input.correlation_id f.uuid;
    created_at = f.now;
  }

  abbrev pub outbox_row : String → OutboxRow
  outbox_row routing_key = record {
    id = f.outbox_id;
    aggregate_id = f.uuid;
    routing_key = routing_key;
    payload = envelope;
    status = OutboxStatus.pending;
    sent_at = none;
    attempts = 0;
  }

  abbrev pub queued_event : Home → JobEvent
  queued_event home = record {
    home = home;
    job_id = some f.uuid;
    project_id = some input.project_id;
    type = "job.queued";
    actor = elim (truthy_text input.definition_id) [ none ↦ "api" | some d ↦ "scheduler" ];
    message = String.◌++◌ "queued " (type_name input.type);
  }

  -- The first row that an insert with this key would collide with.
  abbrev pub key_taken : Home → Option String → List Job → Bool
  key_taken home none jobs = false
  key_taken home (some k) jobs = any (holds_key home k) jobs

  module _ (fails : Statement → Bool) (home : Home) where
    -- INSERT INTO jobs … ON CONFLICT (idempotency_key) … DO NOTHING; the result is `rowCount > 0`.
    -- A collision of the primary key is an error.
    unfoldable pub insert_job_row : Act Db Bool
    insert_job_row = statement fails insert_job λ db.
        if key_taken home input.idempotency_key db.jobs
        then (ok false, db)
        else if any (at_id home f.uuid) db.jobs
        then (err (error "duplicate key"), db)
        else (ok true, record db { jobs = job_row home ∷ db.jobs })

    unfoldable pub insert_outbox_row : String → Act Db (Unit {0})
    insert_outbox_row key =
        statement fails insert_outbox
          λ db. (ok tt, record db { outbox = db.outbox ++ outbox_row key ∷ [] })

    unfoldable pub insert_queued_event : Act Db (Unit {0})
    insert_queued_event =
        statement fails insert_event
          λ db. (ok tt, record db { events = queued_event home ∷ db.events })

    -- SET LOCAL search_path, only for a project with a schema of its own
    unfoldable pub set_search_path : Act Db (Unit {0})
    set_search_path = elim home [ none ↦ pure tt | some s ↦ statement fails set_path (pure tt) ]

    -- The body of the transaction.
    unfoldable pub enqueue_body : String → Act Db EnqueueResult
    enqueue_body key = do
      set_search_path
      inserted ← insert_job_row
      if inserted
          then (do insert_outbox_row key; insert_queued_event; pure (enqueued f.uuid))
          else pure skipped

pub record Isolation : Type 0 where
  pub mode : IsolationMode
  pub schema : Option String

-- `useSchema`: the project's schema, for a dedicated project that has one
unfoldable pub home_of : Isolation → Home
home_of i = elim i.mode [ dedicated ↦ truthy_text i.schema | shared ↦ none ]

unfoldable pub routing_key_of : EnqueueInput → Isolation → String
routing_key_of input i =
    routing_key_for_type input.type
      (elim i.mode [ dedicated ↦ some input.project_id | shared ↦ none ])

-- `if (useSchema) assertSchemaName(useSchema)` passes
unfoldable pub schema_ok : Isolation → Bool
unfolding home_of is_schema_name
schema_ok i = elim (home_of i) [ none ↦ true | some s ↦ is_schema_name s ]

-- enqueueJob, from the project's isolation tier on.
unfoldable pub enqueue_job :
    EnqueueInput → Isolation → Fresh → (Statement → Bool) → Act Db EnqueueResult
enqueue_job input i f fails =
    if schema_ok i
    then with_transaction fails (enqueue_body input f fails (home_of i) (routing_key_of input i))
    else throw (error "refusing to use unrecognized schema name")

abbrev pub never : Statement → Bool
never s = false
