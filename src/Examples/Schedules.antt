-- ===== src/Examples/Schedules.antt =====
-- The theorems on schedules, the relay, the topology and the leader at concrete inputs.
use task_schedular.Prelude.{
  ℕ, zero, suc, true, false, none, some, List, [], ◌∷◌, ◌≡◌, ◌≢◌, refl, arith, ne_of_str_eq,
}
use task_schedular.Prelude.Act.{ok}
use task_schedular.Contracts.Common.{
  webhook, routing_key_for_type, queue_for_type, jobs_exchange, delayed_exchange,
}
use task_schedular.Contracts.Json.{end}
use task_schedular.Contracts.Schedule
use task_schedular.Contracts.Schedule.{
  ScheduleSpec, BuiltSchedule, weekly, weekdays, days_of, build_cron, preview_cron,
}
use task_schedular.Messaging.Publisher.{acked}
use task_schedular.Messaging.Topology.{assert_project_topology, no_topology, deliver}
use task_schedular.Messaging.Topology.Routing.{deliver-assert_project_topology}
use task_schedular.Store.{JobDefinition, one_time, OutboxRow, pending}
use task_schedular.Enqueue.{
  enqueue_job, enqueue_body, set_search_path, insert_job_row, insert_outbox_row,
  insert_queued_event, with_transaction, home_of, routing_key_of, schema_ok,
}
use task_schedular.Enqueue.Cache.{Process, enqueue, project_isolation, read_tier}
use task_schedular.Scheduler.Evaluate.{
  Outside, fire, advance, advance_cron, set_definition, fire_input, idempotency_key,
}
use task_schedular.Scheduler.Fires.{fire_at_most_once}
use task_schedular.Scheduler.Relay
use task_schedular.Scheduler.Relay.{Channel, Drain}
use task_schedular.Scheduler.Relay.Drains
use task_schedular.Scheduler.Relay.Drains.{tick-IsSound}
use task_schedular.Scheduler.Leader
use task_schedular.Scheduler.Leader.{
  Try, start, end_session, ticks, here, next, leader_unique, leader_replaced,
}
use task_schedular.Examples.Data.{db_with, job, fresh_one, fresh_two, envelope_one}

abbrev definition_one : JobDefinition
definition_one = record {
  id = "d1";
  project_id = "p1";
  entity = "orders";
  type = webhook;
  schedule_kind = one_time;
  cron = none;
  timezone = "UTC";
  source = end;
  destination = end;
  options = end;
  enabled = true;
  next_run_at = some 100;
  last_run_at = none;
}

abbrev process_one : Process
process_one = record {
  cache = [];
  db = record (db_with (job ∷ [])) { definitions = definition_one ∷ [] };
}

abbrev outside_one : Outside
outside_one = record {
  now = 200;
  next = λ c z t. none;
  iso = λ t. "t";
  fresh = λ id. fresh_one;
  read_fails = λ id. false;
  fails = λ id s. false;
  update_fails = λ id. false;
}

abbrev outside_two : Outside
outside_two = record outside_one { fresh = λ id. fresh_two }

fire_at_most_once_example :
    let s' = (fire outside_one definition_one 100 process_one).1 in
    ((fire outside_two definition_one 100 s').1.db.jobs ≡ s'.db.jobs)
    × ((fire outside_two definition_one 100 s').0 ≢ ok true)
unfolding fire fire_input idempotency_key advance advance_cron set_definition enqueue
    project_isolation read_tier enqueue_job enqueue_body set_search_path insert_job_row
    insert_outbox_row insert_queued_event with_transaction home_of routing_key_of schema_ok
fire_at_most_once_example =
    fire_at_most_once outside_one outside_two definition_one definition_one 100 process_one
      (fire outside_one definition_one 100 process_one).1 refl refl refl refl refl

abbrev outbox_one : OutboxRow
outbox_one = record {
  id = "o1";
  aggregate_id = "j1";
  routing_key = "conductor.job.webhook";
  payload = envelope_one;
  status = pending;
  sent_at = none;
  attempts = 0;
}

abbrev drain_one : Drain
drain_one = record {
  now = 10;
  batch = 100;
  max_attempts = 5;
  locked = λ id. false;
  confirm = λ id. acked 20;
  update_fails = λ id. false;
}

abbrev channel_one : Channel
channel_one = record { outbox = outbox_one ∷ []; published = [] }

tick-IsSound_example : Drains.IsSound 5 (Relay.tick drain_one channel_one).1
tick-IsSound_example =
    tick-IsSound drain_one channel_one
      (record { sent_rows = (λ h. ground arith, tt); tries = (λ h. ground arith, tt) })

deliver-assert_project_topology_example :
    let top = assert_project_topology "p1" no_topology in
    (deliver top.bindings jobs_exchange (routing_key_for_type webhook (some "p1"))
      ≡ queue_for_type webhook (some "p1") ∷ [])
    × (deliver top.bindings delayed_exchange (routing_key_for_type webhook (some "p1"))
        ≡ queue_for_type webhook (some "p1") ∷ [])
deliver-assert_project_topology_example =
    deliver-assert_project_topology webhook "p1" (ne_of_str_eq "p1" "" refl)

abbrev repeat : ℕ → ℕ → List ℕ
repeat zero c = []
repeat (suc n) c = c ∷ repeat n c

abbrev go : Try
go = record { connects = true; queries = true }

abbrev instance_three : ℕ
instance_three = 3

leader_unique_example : instance_three ≡ instance_three
unfolding Leader.tick
leader_unique_example =
    leader_unique {c = Leader.tick go 3 start} instance_three instance_three
      (next here (ticks go 3 start)) refl refl refl refl

abbrev weekly_spec : ScheduleSpec
weekly_spec = record {
  kind = weekly;
  time = some (9, 5);
  minute = none;
  every_minutes = none;
  days_of_week = some (5 ∷ 1 ∷ []);
  day_of_month = none;
  cron = none;
  run_at = none;
  timezone = "UTC";
}

abbrev weekly_built : BuiltSchedule
weekly_built = record {
  schedule_kind = Schedule.cron_kind;
  cron = some "5 9 * * 1,5";
  run_at = none;
  timezone = "UTC";
}

abbrev friday : ℕ
friday = 5

abbrev eleventh : ℕ
eleventh = 11
