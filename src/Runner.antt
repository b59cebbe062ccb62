-- ===== src/Runner.antt =====
-- packages/worker-runtime/src/runner.ts: the worker's handling of one delivered message, and
-- the wrapper in `start` that requeues a message whose handling throws. Metrics and log lines of the
-- process are not modelled; the channel stays open while a message is handled.
pub mod Settles
pub mod Delivered
pub mod Outcomes
pub mod Requeued
use task_schedular.Prelude.{
  ℕ, ◌+◌, ◌-◌, ◌*◌, ◌^◌, String, Bool, true, false, not, Option, none, some, List, ◌∷◌, str_eq,
  find, ltb, if◌then◌else◌,
}
use Prim.Native.String.{◌++◌}
use mathlib.Core.Option
use task_schedular.Prelude.Show.{show}
use task_schedular.Prelude.Act.{
  Thrown, job_cancelled, error, Result, ok, err, Act, pure, throw, try_catch, try_finally, get,
  modify, and_then, ◌>>=◌, ◌>>◌,
}
use task_schedular.Contracts.Common.{JobType, JobStatus, routing_key_for_type}
use task_schedular.Contracts.Envelope.{JobEnvelope}
use task_schedular.Messaging.Publisher.{
  PublishOptions, Publication, Confirm, publication, confirmed, accepted,
}
use task_schedular.Semaphore.{acquire_project_slot, release_project_slot}
use task_schedular.Store.{Home, Job, Project, Db, job_at}
use task_schedular.Reporter.{
  claim_job, job_status, retrying_job, fail_job, cancel_running_job, record_event,
}

-- What the channel is told about a delivery: ack, nack with requeue, nack without (to the DLX).
pub data Settlement : Type 0 where
  ack requeue dead_letter : Settlement

pub record LimitEntry : Type 0 where
  pub limit : ℕ
  pub at : ℕ

pub record World : Type 0 where
  pub db : Db
  pub slots : String → ℕ
  pub limit_cache : List (String × LimitEntry)
  pub settled : List Settlement
  pub published : List Publication
  pub in_flight : ℕ
  pub draining : Bool

pub data Mode : Type 0 where
  pooled : Mode
  project_mode : (project_id : Option String) → Mode

-- `execute` is resolveContext and the handler of the type: it works on the database and may throw.
pub record Config : Type 0 where
  pub worker_id : String
  pub home : Home
  pub mode : Mode
  pub retry_backoff_base_ms : ℕ
  pub handlers : JobType → Option (JobEnvelope → Act Db (Unit {0}))

pub data Query : Type 0 where
  read_limit claim read_status cancel_update cancel_event read_max log_attempt : Query
  mark_retrying retrying_event mark_failed failed_event : Query

-- What the run of one delivery meets outside: the parsed message (`none` where JSON or schema refuse
-- it), the clock, the failing queries, Redis, the broker's answer, the random part of the deferral.
pub record Delivery : Type 0 where
  pub message : Option JobEnvelope
  pub now : ℕ
  pub fails : Query → Bool
  pub redis_fails : Bool
  pub release_fails : Bool
  pub confirm : Confirm
  pub jitter : ℕ

abbrev pub route_project_id : Config → Option String
route_project_id cfg = elim cfg.mode [ pooled ↦ none | project_mode p ↦ p ]

abbrev pub settle : Settlement → Act World (Unit {0})
settle s = modify (λ w. record w { settled = s ∷ w.settled })

abbrev pub leave : World → World
leave w = record w { in_flight = w.in_flight - 1 }

abbrev pub default_to : ℕ → Option ℕ → ℕ
default_to d none = d
default_to d (some n) = n

module _ (cfg : Config) (d : Delivery) where
  -- A query of the control plane: it throws, or runs.
  abbrev pub ask {ℓ} : {A : Type ℓ} → Query → (Db → A × Db) → Act World A
  ask q run w =
      if d.fails q
      then (err (error "database"), w)
      else let (a, db') = run w.db in (ok a, record w { db = db' })

  abbrev pub tell : Query → (Db → Db) → Act World (Unit {0})
  tell q run = ask q (λ db. (tt, run db))

  -- publishWithConfirm as a test: true if the broker confirmed. The message is handed over before.
  abbrev pub publish : JobEnvelope → ℕ → Act World Bool
  publish env delay w =
      let p = publication (routing_key_for_type env.type (route_project_id cfg)) env (record {
        delay_ms = some delay;
        priority = some env.priority;
        message_id = some env.job_id;
        correlation_id = some env.correlation_id;
      }) in
      (
        ok (confirmed d.confirm),
        if accepted d.confirm then record w { published = p ∷ w.published } else w,
      )

  abbrev pub cached_limit : String → List (String × LimitEntry) → Option LimitEntry
  cached_limit p m = Option.map (λ e. e.1) (find (λ e. str_eq e.0 p) m)

  abbrev pub stored_limit : String → Db → ℕ
  stored_limit p db =
      default_to 4 (Option.map (λ r. r.concurrency_limit) (find (λ r. str_eq r.id p) db.projects))

  unfoldable pub read_project_limit : String → Act World ℕ
  read_project_limit p = do
    limit ← ask read_limit (λ db. (stored_limit p db, db))
    modify
        (λ w. record w { limit_cache = (p, record { limit = limit; at = d.now }) ∷ w.limit_cache })
    pure limit

  unfoldable pub project_limit : String → Act World ℕ
  project_limit p w = elim (cached_limit p w.limit_cache) [
    | none ↦ read_project_limit p w
    | some e ↦ if ltb d.now (e.at + 30000) then (ok e.limit, w) else read_project_limit p w
  ]

  unfoldable pub acquire : String → ℕ → Act World Bool
  acquire p limit w =
      if d.redis_fails
      then (err (error "redis"), w)
      else let (got, n) = acquire_project_slot limit (w.slots p) in
        (ok got, record w { slots = λ q. if str_eq p q then n else w.slots q })

  -- `releaseProjectSlot(…).catch(() => {})`
  unfoldable pub release : String → World → World
  release p w = if d.release_fails then w else record w {
    slots = λ q. if str_eq p q then release_project_slot (w.slots p) else w.slots q;
  }

  -- The project is at its limit: a delayed copy takes the place of the message.
  unfoldable pub defer : JobEnvelope → Act World (Unit {0})
  defer env = do
    sent ← publish env (1000 + d.jitter)
    settle (if sent then ack else requeue)
    modify leave

  abbrev pub backoff_ms : JobEnvelope → ℕ
  backoff_ms env = cfg.retry_backoff_base_ms * 2 ^ (env.attempt - 1)

  unfoldable pub retry_text : JobEnvelope → ℕ → String
  retry_text env max_attempts =
      "retry "
      ++ show (env.attempt + 1)
      ++ "/"
      ++ show max_attempts
      ++ " in "
      ++ show (backoff_ms env)
      ++ "ms"

  unfoldable pub failed_text : JobEnvelope → String → String
  failed_text env message = "failed after " ++ show env.attempt ++ " attempts: " ++ message

  -- report.event(type, message, { jobId })
  unfoldable pub job_event : String → JobEnvelope → String → Db → Db
  job_event type env message = record_event cfg.home type message (some env.job_id) none

  unfoldable pub handle_failure : JobEnvelope → String → Act World (Unit {0})
  handle_failure env message = do
    max_attempts ← ask read_max λ db. (
      default_to 5 (Option.map (λ (j : Job). j.max_attempts) (job_at cfg.home env.job_id db)),
      db,
    )
    tell log_attempt (λ db. db)
    if ltb env.attempt max_attempts
        then (do
          sent ← publish (record env { attempt = env.attempt + 1 }) (backoff_ms env)
          if sent
              then (do
                tell mark_retrying (retrying_job cfg.home env.job_id (env.attempt + 1))
                tell retrying_event (job_event "job.retrying" env (retry_text env max_attempts))
                settle ack)
              else settle requeue)
        else (do
          tell mark_failed (fail_job cfg.home env.job_id message d.now)
          tell failed_event (job_event "job.failed" env (failed_text env message))
          settle dead_letter)

  unfoldable pub cancelled_event : JobEnvelope → Db → Db
  cancelled_event env = job_event "job.cancelled" env "cancelled at chunk boundary"

  unfoldable pub cancel : JobEnvelope → Act World (Unit {0})
  cancel env = do
    tell cancel_update (cancel_running_job cfg.home env.job_id d.now)
    tell cancel_event (cancelled_event env)
    settle ack

  -- The `catch` around the claim and the handler.
  unfoldable pub recover : JobEnvelope → Thrown → Act World (Unit {0})
  recover env job_cancelled = cancel env
  recover env (error message) = handle_failure env message

  unfoldable pub on_db : Act Db (Unit {0}) → Act World (Unit {0})
  on_db run w = let (r, db') = run w.db in (r, record w { db = db' })

  -- Claim, run, and ack only when the work is done.
  unfoldable pub attempt_job :
      (JobEnvelope → Act Db (Unit {0})) → JobEnvelope → Act World (Unit {0})
  attempt_job execute env = do
    claimed ← ask claim (claim_job cfg.home env.job_id cfg.worker_id d.now)
    if claimed then (do on_db (execute env); settle ack) else (do
      ask read_status (λ db. (job_status cfg.home env.job_id db, db)) >>= λ s. settle ack)

  unfoldable pub run_claimed :
      (JobEnvelope → Act Db (Unit {0})) → JobEnvelope → Act World (Unit {0})
  run_claimed execute env = try_catch (attempt_job execute env) (recover env)

  -- What the gate decides: go on, with or without a slot, or stop because the message is deferred.
  abbrev pub Gate : Type 0
  Gate = Option Bool

  unfoldable pub try_slot : JobEnvelope → Act World Gate
  try_slot env = do
    limit ← project_limit env.project_id
    got ← acquire env.project_id limit
    if got then pure (some true) else (do defer env; pure none)

  -- A project-mode worker has no gate; an error of the gate lets the job run without a slot.
  unfoldable pub gate : Mode → JobEnvelope → Act World Gate
  gate pooled env = try_catch (try_slot env) (λ e. pure (some false))
  gate (project_mode p) env = pure (some false)

  -- The `finally` of the run.
  unfoldable pub wind_up : JobEnvelope → Bool → World → World
  wind_up env acquired w = leave (if acquired then release env.project_id w else w)

  unfoldable pub admitted :
      (JobEnvelope → Act Db (Unit {0})) → JobEnvelope → Gate → Act World (Unit {0})
  admitted execute env none = pure tt
  admitted execute env (some acquired) =
      try_finally (run_claimed execute env) (wind_up env acquired)

  unfoldable pub drop_message : Act World (Unit {0})
  drop_message = do settle dead_letter; modify leave

  unfoldable pub with_handler :
      JobEnvelope → Option (JobEnvelope → Act Db (Unit {0})) → Act World (Unit {0})
  with_handler env none = drop_message
  with_handler env (some execute) = do g ← gate cfg.mode env; admitted execute env g

  unfoldable pub handle : Option JobEnvelope → Act World (Unit {0})
  handle none = drop_message
  handle (some env) = with_handler env (cfg.handlers env.type)

  -- `enter draining`
  unfoldable pub enter : Bool → Act World (Unit {0})
  enter true w = settle requeue w
  enter false w = handle d.message (record w { in_flight = w.in_flight + 1 })

  unfoldable pub on_message : Act World (Unit {0})
  on_message w = enter w.draining w

  -- The consumer callback of `start`.
  unfoldable pub consume : World → World
  consume w = (try_catch on_message (λ e. settle requeue) w).1
