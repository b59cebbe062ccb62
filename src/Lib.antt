-- ===== src/Lib.antt =====
-- A model of the job scheduler Conductor: a gateway enqueues jobs into Postgres, a clustered
-- scheduler fires due definitions and relays the outbox to RabbitMQ, workers claim and run the jobs,
-- and a provisioner starts containers for dedicated projects.
--
-- Files and the code they model:
--   Contracts: packages/contracts/src (common.ts in Common, envelope.ts in Envelope, schedule.ts and
--     its mirror dashboard/src/schedule.ts in Schedule); Json is JSON documents.
--   Store: the tables of packages/db/migrations, as lists of rows. A row of `jobs` carries the schema
--     whose table holds it.
--   Enqueue: packages/core/src/enqueue.ts (`enqueue_job` is enqueueJob from the project's tier on,
--     Cache has the tier's cache and `enqueue`, the whole function), withTransaction of
--     packages/db/src/pool.ts, and the schema names of packages/db/src/projectSchema.ts (Schema).
--   Messaging: packages/messaging/src (publisher.ts, topology.ts).
--   Reporter: packages/worker-runtime/src/reporter.ts, the status changes of a job; its batch
--     and chunks, with the progress of packages/realtime/src/index.ts, in Reporter/Batches.
--   Semaphore: the project slots of packages/realtime/src/index.ts.
--   Runner: packages/worker-runtime/src/runner.ts, one delivery (`consume`, `on_message`,
--     `handle_failure`).
--   Scheduler: services/scheduler/src (scheduler.ts in Evaluate, relay.ts in Relay, leader.ts in
--     Leader).
--   Provisioner: services/provisioner/src/reconcile.ts, over the calls of orchestrator.ts and main.ts.
--   Security: packages/security/src, ssrf.ts (Security) and envelope.ts (Secrets).
--   Gateway: services/gateway-api/src, the enqueue, cancel and retry routes of routes/jobs.ts (Jobs),
--     the guards of auth/plugin.ts (Auth), routes/jobDefinitions.ts with repos/jobDefinitions.ts
--     (Definitions), repos/projects.ts with the isolation route of routes/projects.ts (Projects),
--     repos/entities.ts with the route of routes/entities.ts that stores an entity (Entities), and
--     lib/parseUpload.ts (Uploads).
--   RowPipeline: services/worker-core/src/rowPipeline.ts, its chunks, the work on a chunk and
--     the loops that take the chunks.
--   BulkDelete: services/worker-core/src/handlers/bulkDelete.ts, the work on one row, and the order in
--     which the rows of a job reach the table (Order).
--   BulkUpdate: services/worker-core/src/handlers/bulkUpdate.ts, the work on one row.
--   BulkImport: services/worker-core/src/handlers/bulkImport.ts: the work on a chunk (BulkImport), the
--     text of its statements (Statements), enforceLookups (Lookups) and the whole handler (Run).
--   Targets: packages/targetdb/src, the dialects (types.ts, postgres.ts, sqlserver.ts, mysql.ts),
--     promote (Promotion) and deleteStagingRows (Batches).
--   Csv: the texts of services/worker-edge/src/serialize.ts and writeRejectsFile of bulkImport.ts.
--   Rules: packages/rule-engine/src, evaluate.ts (Evaluate), transforms.ts (Transforms, with
--     parseWithFormat in Dates) and
--     expression.ts (Expression: the parser; Expression/Lexer: the tokenizer; Expression/Grammar: what
--     an expression means). The values of expressions are JavaScript values over an arbitrary type of
--     numbers; row evaluation takes the expression's value, and the date formats, as arguments.
--   Worker: packages/worker-runtime/src/context.ts.
--   Storage: packages/storage/src/index.ts, object URLs and the objects that were put.
--   Source: services/worker-core/src/source.ts, the rows of an import's source.
--   Edge: services/worker-edge/src, its HTTP calls (http.ts in Http) and its handlers (restPull.ts in
--     Pull, restPush.ts in Push, webhook.ts in Webhook, fileInbound.ts in Inbound, fileOutbound.ts in
--     Outbound); Edge itself has what they share, Reports and Staging lemmas on it.
--   Migrations: packages/db/src/migrate.ts, the runner of the SQL files.
--   Prelude: shared names, tests, lists, and asynchronous code as state transformers that may throw.
--   Examples: the theorems at concrete inputs.
--
-- An asynchronous function is a function from a state to a result and the state it leaves, also on an
-- exception. What the code takes from outside is an argument: the clock, new ids, which queries fail,
-- what the broker answers, DNS, the cron library, the handlers, and what other processes do between
-- two statements. An UPDATE is a map over the rows that its WHERE clause selects. Times are
-- milliseconds and numbers are unbounded: the code's counters stay far below 2 ^ 53. Four loops run
-- on fuel: the decimal digits of a number (more than its digits), the tokenizer (one more than the
-- characters), the parser of expressions (16 for each token and 16 more, which is more than the calls
-- between two tokens), and the batches of a push (one more than the rows, for a positive batch size);
-- that the last three suffice is among the results.
--
-- The staging table of an import is a list of rows, and what the database answers to the INSERT of a
-- row is an argument; a multi-row INSERT is all or nothing. The chunks of an import are run one after
-- the other, while RowPipeline has the interleavings of the loops that take chunks. The reports behind
-- the promotion of an import may fail, those in front of it do not.
--
-- A message that is published is handed to the broker before its confirm: the broker may have it although
-- the publish fails.
--
-- Not modelled: metrics, log lines, live publications, registration and heartbeat of workers, the
-- drivers of target databases, and the other routes. The expiry of Redis keys is not modelled.
pub mod Prelude
pub mod Contracts
pub mod Messaging
pub mod Store
pub mod Storage
pub mod Worker
pub mod Source
pub mod Migrations
pub mod Edge
pub mod Enqueue
pub mod Reporter
pub mod Semaphore
pub mod Runner
pub mod Scheduler
pub mod Provisioner
pub mod Security
pub mod Gateway
pub mod Examples
pub mod RowPipeline
pub mod BulkDelete
pub mod BulkUpdate
pub mod Rules
pub mod Targets
pub mod BulkImport
pub mod Csv
