-- ===== src/Edge.antt =====
-- services/worker-edge/src: the integration pool, which moves rows over HTTP and object storage. A
-- handler works on the control plane, the object store and the wire; what else it meets, and which
-- of its statements fail, are arguments.
pub mod Http
pub mod Pull
pub mod Inbound
pub mod Outbound
pub mod Push
pub mod Reports
pub mod Staging
pub mod Webhook
use Prim.Native.String.{◌++◌ as append}
use task_schedular.Prelude.{
  ℕ, String, Bool, true, false, Option, none, some, List, [], ◌∷◌, if◌then◌else◌,
}
use task_schedular.Prelude.Act.{Result, ok, err, error, Act, pure, throw, and_then, ◌>>=◌, ◌>>◌}
use task_schedular.Contracts.Common.{JobType, truthy_text}
use task_schedular.Contracts.Json.{
  Json, null, num, str, obj, arr, Items, nil, cons, Fields, end, field, get_field,
}
use task_schedular.Store.{Home, Job, Db}
use task_schedular.Reporter.{complete_job, fail_job, record_event}
use task_schedular.Enqueue.{EnqueueInput, EnqueueResult, enqueued, skipped, Fresh, Statement}
use task_schedular.Enqueue.Cache.{Process, enqueue}
use task_schedular.Storage.{Object, put_object, get_object_text, parse_s3_url, s3_url}
use task_schedular.Worker.{Connection, EntityConfig, JobContext}
use task_schedular.Edge.Http.{Net, Wire}

pub record World : Type 0 where
  pub process : Process
  pub objects : List Object
  pub wire : Wire

-- The statements of the reports
pub data Report : Type 0 where
  started progress_log completion completed_event completed_log : Report
  failure failed_event failed_log : Report

pub record Outside : Type 0 where
  pub net : Net
  pub default_bucket : String
  pub home : Home
  pub fresh : Fresh
  pub tier_fails : Bool
  pub statement_fails : Statement → Bool
  pub report_fails : Report → Bool
  pub get_fails : Bool
  pub put_fails : Bool
  pub stringify : Json → String

-- The text in a field; any other value counts as an absent one.
abbrev pub as_text : Option Json → Option String
as_text (some (str s)) = some s
as_text _ = none

abbrev pub text_field : String → Fields → Option String
text_field k o = as_text (get_field k o)

abbrev pub as_fields : Option Json → Fields
as_fields (some (obj o)) = o
as_fields _ = end

-- `src.location ?? job.source_jsonb.location`, where an empty text is refused as an absent one is
abbrev pub first_text : Option String → Option String → Option String
first_text (some s) t = truthy_text (some s)
first_text none t = truthy_text t

unfoldable pub location_of : Fields → Fields → Option String
location_of source job_source =
    first_text (text_field "location" source) (text_field "location" job_source)

abbrev pub of_list : List Json → Items
of_list [] = nil
of_list (x ∷ xs) = cons x (of_list xs)

abbrev pub to_list : Items → List Json
to_list nil = []
to_list (cons x xs) = x ∷ to_list xs

-- `${res.jobId}`
abbrev pub id_text : EnqueueResult → String
id_text (enqueued id) = id
id_text skipped = "null"

module _ (o : Outside) where
  unfoldable pub report : Report → (Db → Db) → Act World (Unit {0})
  report q run w =
      if o.report_fails q
      then (err (error "database"), w)
      else (ok tt, record w { process = record w.process { db = run w.process.db } })

  unfoldable pub log : Report → Act World (Unit {0})
  log q w = if o.report_fails q then (err (error "database"), w) else (ok tt, w)

  abbrev pub on_wire {ℓ} : {A : Type ℓ} → Act Wire A → Act World A
  on_wire run w = let (r, wire') = run w.wire in (r, record w { wire = wire' })

  unfoldable pub put : String → String → String → Act World (Unit {0})
  unfolding put_object
  put bucket key text w =
      if o.put_fails
      then (err (error "storage"), w)
      else (ok tt, record w { objects = put_object bucket key text w.objects })

  unfoldable pub fetch_object : String → String → Act World String
  unfolding get_object_text
  fetch_object bucket key w =
      if o.get_fails then (err (error "storage"), w) else (get_object_text bucket key w.objects, w)

  unfoldable pub enqueue_next : EnqueueInput → Act World EnqueueResult
  enqueue_next input w =
      let (r, p) = enqueue input o.fresh o.tier_fails o.statement_fails w.process in
      (r, record w { process = p })

  module _ {RuleSet : Type 0} (c : JobContext RuleSet) where
    abbrev pub job_event : String → String → Db → Db
    job_event type message = record_event o.home type message (some c.job.id) (some c.project.id)

    unfoldable pub start : String → Act World (Unit {0})
    unfolding report
    start message = report started (job_event "job.started" message)

    -- completeJob, its event and its log line
    unfoldable pub complete : String → Act World (Unit {0})
    unfolding report log
    complete summary = do
      report completion (complete_job o.home c.job.id (some summary) o.fresh.now)
      report completed_event (job_event "job.completed" summary)
      log completed_log

    unfoldable pub fail : String → Act World (Unit {0})
    unfolding report log
    fail summary = do
      report failure (fail_job o.home c.job.id summary o.fresh.now)
      report failed_event (job_event "job.failed" summary)
      log failed_log

    -- The job that takes over: `location` is where the records were staged.
    abbrev pub next_input : JobType → String → String → EnqueueInput
    next_input type kind location = record {
      project_id = c.project.id;
      entity = c.job.entity;
      type = type;
      idempotency_key = none;
      source = some (field "kind" (str kind) (field "location" (str location) end));
      destination = some c.job.destination;
      rule_set_id = none;
      mapping = none;
      options = some (as_fields (get_field "options" c.job.parameters));
      priority = none;
      definition_id = none;
      parameters = none;
      correlation_id = none;
    }
