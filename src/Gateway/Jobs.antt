-- ===== src/Gateway/Jobs.antt =====
-- services/gateway-api/src/routes/jobs.ts: cancel and retry. The gateway's connection resolves
-- `jobs` to `public.jobs`. Workers go on while a request is handled: what they do to the database
-- before each of the two conditional UPDATEs is given from outside, and so is which calls fail.
-- Live publications are best effort and not modelled.
pub mod Cancels
pub mod Retries
pub mod Submit
use Prim.Native.String.{◌++◌}
use task_schedular.Prelude.{
  ℕ, String, Bool, true, false, Option, none, some, List, [], ◌∷◌, str_eq, find, or_else,
  if◌then◌else◌,
}
use mathlib.Core.Option
use task_schedular.Prelude.Show.{show}
use task_schedular.Prelude.Act.{
  Act, Result, Thrown, error, ok, err, pure, throw, modify, and_then, ◌>>=◌, ◌>>◌,
}
use task_schedular.Contracts.Common.{
  JobStatus, queued, running, completed, failed, cancelled, cancelling, retrying,
}
use task_schedular.Contracts.Json.{Json, Fields, end, field, obj, str, get_field}
use task_schedular.Store.{Job, JobEvent, Db, job_at}
use task_schedular.Reporter.{update_job, some_job}
use task_schedular.Enqueue.{EnqueueInput, EnqueueResult, Fresh, Statement, enqueued, skipped}
use task_schedular.Enqueue.Cache.{Process, enqueue}

pub record Audit : Type 0 where
  pub actor : String
  pub action : String
  pub job_id : Option String

-- The gateway's process with its database, the cancel flags in Redis, and the audit log.
pub record Gateway : Type 0 where
  pub process : Process
  pub flags : List String
  pub audits : List Audit

pub data Reply : Type 0 where
  accepted : Reply
  not_found : Reply
  conflict : Option JobStatus → Reply
  queued_job : EnqueueResult → Reply

pub data GateCall : Type 0 where
  read_job set_flag cancel_waiting cancel_running reread_job insert_event insert_audit : GateCall
  read_definition insert_definition update_definition delete_definition : GateCall

-- What a request meets.
pub record Around : Type 0 where
  pub fails : GateCall → Bool
  pub before_waiting : Db → Db
  pub before_running : Db → Db
  pub now : ℕ
  pub actor : Option String

abbrev pub is_waiting : Job → Bool
is_waiting j = elim j.status [ queued ↦ true | retrying ↦ true | _ ↦ false ]

abbrev pub is_running : Job → Bool
is_running j = elim j.status [ running ↦ true | _ ↦ false ]

abbrev pub is_terminal : JobStatus → Bool
is_terminal failed = true
is_terminal cancelled = true
is_terminal completed = true
is_terminal _ = false

abbrev pub as_cancelled : ℕ → Job → Job
as_cancelled now j = record j { status = cancelled; finished_at = some now }

abbrev pub as_cancelling : Job → Job
as_cancelling j = record j { status = cancelling }

abbrev pub with_db : (Db → Db) → Gateway → Gateway
with_db f g = record g { process = record g.process { db = f g.process.db } }

abbrev pub fields_of : Option Json → Option Fields
fields_of (some (obj o)) = some o
fields_of _ = none

-- The mapping as stored by enqueueJob, whose values are texts
abbrev pub text_fields : Fields → List (String × String)
text_fields end = []
text_fields (field k (str v) fs) = (k, v) ∷ text_fields fs
text_fields (field k _ fs) = text_fields fs

abbrev pub id_of : EnqueueResult → Option String
id_of (enqueued id) = some id
id_of skipped = none

module _ (a : Around) where
  abbrev pub query {ℓ} : {A : Type ℓ} → GateCall → Act Gateway A → Act Gateway A
  query c body g = if a.fails c then throw (error "query failed") g else body g

  abbrev pub get_job : GateCall → String → Act Gateway (Option Job)
  get_job c id = query c λ g. (ok (job_at none id g.process.db), g)

  abbrev pub request_cancel : String → Act Gateway (Unit {0})
  request_cancel id = query set_flag (modify λ g. record g { flags = id ∷ g.flags })

  -- UPDATE … SET status='cancelled' … WHERE … status IN ('queued','retrying'); whether it hit a row
  unfoldable pub cancel_waiting_job : String → Act Gateway Bool
  cancel_waiting_job id = query cancel_waiting λ g.
      let db = a.before_waiting g.process.db in
      (
        ok (some_job none id is_waiting db),
        with_db (λ _. update_job none id is_waiting (as_cancelled a.now) db) g,
      )

  -- UPDATE … SET status='cancelling' … WHERE … status='running'
  unfoldable pub cancel_claimed_job : String → Act Gateway Bool
  cancel_claimed_job id = query cancel_running λ g.
      let db = a.before_running g.process.db in
      (
        ok (some_job none id is_running db),
        with_db (λ _. update_job none id is_running as_cancelling db) g,
      )

  abbrev pub insert_cancelling_event : Job → Act Gateway (Unit {0})
  insert_cancelling_event j = query insert_event (
      modify (
        with_db λ db. record db {
          events =
              record {
                home = none;
                job_id = some j.id;
                project_id = some j.project_id;
                type = "job.cancelling";
                actor = or_else a.actor "api";
                message = "cancel requested";
              }
              ∷ db.events;
        }))

  abbrev pub audit : String → Option String → Act Gateway (Unit {0})
  audit action job = query insert_audit (
      modify λ g. record g {
        audits =
            record { actor = or_else a.actor "system"; action = action; job_id = job } ∷ g.audits;
      })

  abbrev pub announce_cancel : Job → Act Gateway Reply
  announce_cancel j = do insert_cancelling_event j; audit "job.cancel" (some j.id); pure accepted

  -- `cannot cancel a … job`, with the status read again
  abbrev pub refuse_cancel : String → Act Gateway Reply
  refuse_cancel id = do
    current ← get_job reread_job id
    pure (conflict (Option.map (λ j. j.status) current))

  -- What follows once the row is read.
  unfoldable pub cancel_found : String → Job → Act Gateway Reply
  unfolding cancel_waiting_job cancel_claimed_job
  cancel_found id j = do
    request_cancel id
    was_waiting ← cancel_waiting_job id
    if was_waiting then announce_cancel j else (do
      was_running ← cancel_claimed_job id
      if was_running then announce_cancel j else refuse_cancel id)

  -- POST /jobs/:id/cancel
  unfoldable pub cancel_job : String → Act Gateway Reply
  cancel_job id = do
    found ← get_job read_job id
    elim found [ none ↦ pure not_found | some j ↦ cancel_found id j ]

  -- The input of a retry: a clone of the job under a key of its own.
  unfoldable pub retry_input : String → Job → EnqueueInput
  retry_input id j = record {
    project_id = j.project_id;
    entity = j.entity;
    type = j.type;
    definition_id = none;
    idempotency_key = some ("retry:" ++ (id ++ (":" ++ show a.now)));
    source = some j.source;
    destination = some j.destination;
    rule_set_id = j.rule_set_id;
    mapping = Option.map text_fields (fields_of (get_field "mapping" j.parameters));
    options = fields_of (get_field "options" j.parameters);
    parameters = some j.parameters;
    priority = some j.priority;
    correlation_id = none;
  }

  -- enqueueJob in the gateway's process
  abbrev pub enqueue_here :
      EnqueueInput → Fresh → Bool → (Statement → Bool) → Act Gateway EnqueueResult
  enqueue_here input f read_fails fails g =
      let (r, p) = enqueue input f read_fails fails g.process in (r, record g { process = p })

  unfoldable pub retry_found : Fresh → Bool → (Statement → Bool) → String → Job → Act Gateway Reply
  unfolding retry_input
  retry_found f read_fails fails id j =
      if is_terminal j.status
      then (do
        result ← enqueue_here (retry_input id j) f read_fails fails
        audit "job.retry" (id_of result)
        pure (queued_job result))
      else pure (conflict (some j.status))

  -- POST /jobs/:id/retry
  unfoldable pub retry_job : Fresh → Bool → (Statement → Bool) → String → Act Gateway Reply
  retry_job f read_fails fails id = do
    found ← get_job read_job id
    elim found [ none ↦ pure not_found | some j ↦ retry_found f read_fails fails id j ]
