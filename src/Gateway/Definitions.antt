-- ===== src/Gateway/Definitions.antt =====
-- services/gateway-api/src/routes/jobDefinitions.ts and repos/jobDefinitions.ts: creating, enabling,
-- disabling, running and deleting a job definition. The validated body is an argument (`none` where
-- the schema refuses it), and so are the cron library and `new Date`. A definition's name is not kept.
pub mod Accepted
use Prim.Native.String.{◌++◌}
use task_schedular.Prelude.{
  ℕ, String, Bool, true, false, not, Option, none, some, List, ◌∷◌, find, any, keep, update_where,
  str_eq, or_else, if◌then◌else◌,
}
use task_schedular.Prelude.Show.{show}
use task_schedular.Prelude.Act.{
  Act, Result, Thrown, error, ok, err, pure, throw, modify, and_then, ◌>>=◌, ◌>>◌,
}
use task_schedular.Contracts.Common.{JobType, truthy_text}
use task_schedular.Contracts.Json.{Json, Fields, end, field, spread}
use task_schedular.Contracts.Schedule.{
  ScheduleSpec, BuiltSchedule, BuiltKind, cron_kind, one_time_kind, recurring_kind, build_cron,
}
use task_schedular.Store.{JobDefinition, ScheduleKind, cron, one_time, recurring, Db}
use task_schedular.Enqueue.{EnqueueInput, EnqueueResult, Fresh, Statement}
use task_schedular.Gateway.Jobs.{
  Gateway, Around, GateCall, read_definition, insert_definition, update_definition,
  delete_definition, with_db, query, audit, id_of, enqueue_here,
}

pub record DefinitionBody : Type 0 where
  pub project_id : String
  pub entity : String
  pub type : JobType
  pub schedule : Option (ScheduleSpec × Json)
  pub schedule_kind : ScheduleKind
  pub cron : Option String
  pub timezone : String
  pub run_at : Option String
  pub source : Option Fields
  pub destination : Option Fields
  pub options : Option Fields
  pub enabled : Bool

-- The schedule that a body asks for
pub record Resolved : Type 0 where
  pub schedule_kind : ScheduleKind
  pub cron : Option String
  pub timezone : String
  pub run_at : Option String

pub data DefinitionReply : Type 0 where
  invalid_body not_found no_content : DefinitionReply
  invalid_schedule invalid_cron : Thrown → DefinitionReply
  created : JobDefinition → DefinitionReply
  definition : JobDefinition → DefinitionReply
  queued_run : EnqueueResult → DefinitionReply

abbrev kind_of : BuiltKind → ScheduleKind
kind_of cron_kind = cron
kind_of one_time_kind = one_time
kind_of recurring_kind = recurring

-- A preset, or the raw fields
unfoldable pub resolve : DefinitionBody → Result Resolved
resolve b = elim b.schedule [
  | none ↦ ok (record {
    schedule_kind = b.schedule_kind;
    cron = b.cron;
    timezone = b.timezone;
    run_at = b.run_at;
  })
  | some (spec, _) ↦ elim (build_cron spec) [
    | err e ↦ err e
    | ok built ↦ ok (record {
      schedule_kind = kind_of built.schedule_kind;
      cron = built.cron;
      timezone = built.timezone;
      run_at = built.run_at;
    })
  ]
]

-- `next` is the next occurrence of a cron text in a time zone, or an error; `date_of` reads a date.
module _ (next : String → String → Result ℕ) (date_of : String → ℕ) where
  abbrev from_cron : Option String → String → Result (Option ℕ)
  from_cron none timezone = ok none
  from_cron (some text) timezone = elim (next text timezone) [ ok t ↦ ok (some t) | err e ↦ err e ]

  abbrev from_date : Option String → Option ℕ
  from_date none = none
  from_date (some text) = some (date_of text)

  unfoldable pub first_run : Resolved → Result (Option ℕ)
  first_run s = elim s.schedule_kind [
    | one_time ↦ ok (from_date (truthy_text s.run_at))
    | _ ↦ from_cron (truthy_text s.cron) s.timezone
  ]

  abbrev pub kept_options : DefinitionBody → Fields
  kept_options b = elim b.schedule [
    | none ↦ or_else b.options end
    | some (spec, json) ↦ spread (or_else b.options end) (field "schedule" json end)
  ]

  unfoldable pub definition_of : String → DefinitionBody → Resolved → Option ℕ → JobDefinition
  definition_of id b s t = record {
    id = id;
    project_id = b.project_id;
    entity = b.entity;
    type = b.type;
    schedule_kind = s.schedule_kind;
    cron = s.cron;
    timezone = s.timezone;
    source = or_else b.source end;
    destination = or_else b.destination end;
    options = kept_options b;
    enabled = b.enabled;
    next_run_at = t;
    last_run_at = none;
  }

  module _ (a : Around) where
    abbrev pub put_definition : JobDefinition → Act Gateway (Unit {0})
    put_definition d =
        query a insert_definition
          (modify (with_db λ db. record db { definitions = d ∷ db.definitions }))

    unfoldable pub store_definition : JobDefinition → Act Gateway DefinitionReply
    store_definition d = do put_definition d; audit a "job_definition.create" none; pure (created d)

    unfoldable pub create_timed :
        String → DefinitionBody → Resolved → Result (Option ℕ) → Act Gateway DefinitionReply
    unfolding definition_of store_definition
    create_timed id b s (err e) = pure (invalid_cron e)
    create_timed id b s (ok t) = store_definition (definition_of id b s t)

    unfoldable pub create_resolved :
        String → DefinitionBody → Result Resolved → Act Gateway DefinitionReply
    unfolding create_timed first_run
    create_resolved id b (err e) = pure (invalid_schedule e)
    create_resolved id b (ok s) = create_timed id b s (first_run s)

    -- POST /job-definitions; `id` is the new row's.
    unfoldable pub create_definition : String → Option DefinitionBody → Act Gateway DefinitionReply
    unfolding resolve create_resolved
    create_definition id none = pure invalid_body
    create_definition id (some b) = create_resolved id b (resolve b)

abbrev pub has_id : String → JobDefinition → Bool
has_id id d = str_eq d.id id

module _ (a : Around) where
  abbrev pub get_definition : String → Act Gateway (Option JobDefinition)
  get_definition id =
      query a read_definition λ g. (ok (find (has_id id) g.process.db.definitions), g)

  -- UPDATE … SET enabled=$2 WHERE id=$1 RETURNING *
  unfoldable pub set_enabled : String → Bool → Act Gateway (Option JobDefinition)
  set_enabled id on = query a update_definition λ g.
      let rows =
        update_where (has_id id) (λ d. record d { enabled = on }) g.process.db.definitions in
      (ok (find (has_id id) rows), with_db (λ db. record db { definitions = rows }) g)

  abbrev pub toggled : String → Option JobDefinition → Act Gateway DefinitionReply
  toggled action none = pure not_found
  toggled action (some d) = do audit a action none; pure (definition d)

  -- POST /job-definitions/:id/enable
  unfoldable pub enable_definition : String → Act Gateway DefinitionReply
  unfolding set_enabled
  enable_definition id = do found ← set_enabled id true; toggled "job_definition.enable" found

  -- POST /job-definitions/:id/disable
  unfoldable pub disable_definition : String → Act Gateway DefinitionReply
  unfolding set_enabled
  disable_definition id = do found ← set_enabled id false; toggled "job_definition.disable" found

  unfoldable pub run_input : JobDefinition → EnqueueInput
  run_input d = record {
    project_id = d.project_id;
    entity = d.entity;
    type = d.type;
    definition_id = some d.id;
    idempotency_key = some ("runnow:" ++ (d.id ++ (":" ++ show a.now)));
    source = some d.source;
    destination = some d.destination;
    rule_set_id = none;
    mapping = none;
    options = some d.options;
    parameters = none;
    priority = none;
    correlation_id = none;
  }

  abbrev pub run_found :
      Fresh → Bool → (Statement → Bool) → Option JobDefinition → Act Gateway DefinitionReply
  run_found f read_fails fails none = pure not_found
  run_found f read_fails fails (some d) = do
    result ← enqueue_here a (run_input d) f read_fails fails
    audit a "job_definition.run_now" (id_of result)
    pure (queued_run result)

  -- POST /job-definitions/:id/run-now
  unfoldable pub run_now : Fresh → Bool → (Statement → Bool) → String → Act Gateway DefinitionReply
  unfolding run_input
  run_now f read_fails fails id = do found ← get_definition id; run_found f read_fails fails found

  -- DELETE FROM job_definitions WHERE id=$1; whether it hit a row
  unfoldable pub remove_definition : String → Act Gateway Bool
  remove_definition id = query a delete_definition λ g.
      let rows = g.process.db.definitions in
      (
        ok (any (has_id id) rows),
        with_db (λ db. record db { definitions = keep (λ d. not (has_id id d)) rows }) g,
      )

  abbrev pub removed : Bool → Act Gateway DefinitionReply
  removed false = pure not_found
  removed true = do audit a "job_definition.delete" none; pure no_content

  -- DELETE /job-definitions/:id
  unfoldable pub delete_definition_row : String → Act Gateway DefinitionReply
  unfolding remove_definition
  delete_definition_row id = do hit ← remove_definition id; removed hit
