-- ===== src/Runner/Outcomes.antt =====
-- What a failed attempt leaves behind: a retry under a bound, or a dead letter with a failed job.
use task_schedular.Prelude.{
  ℕ, ◌+◌, ◌-◌, ◌*◌, ◌^◌, ◌≤◌, String, ◌≡◌, ◌≢◌, ◌⊎◌, refl, true, some, ◌∷◌, arith, cons-ne_self,
}
use mathlib.Core.Option
use task_schedular.Contracts.Common.{routing_key_for_type, failed}
use task_schedular.Contracts.Envelope.{JobEnvelope}
use task_schedular.Messaging.Publisher.{Publication, publication, confirmed, accepted-confirmed}
use task_schedular.Store.{Home, Job, Db, job_at}
use task_schedular.Reporter.{all_rows, fail_job, record_event}
use task_schedular.Reporter.Keeps.{job_at-update_job}
use task_schedular.Runner.{
  ack, dead_letter, World, Config, Delivery, default_to, route_project_id, job_event,
  handle_failure,
}

-- The attempts that the job's row allows, as the failure path reads it.
abbrev pub allowed : Config → JobEnvelope → Db → ℕ
allowed cfg env db =
    default_to 5 (Option.map (λ (j : Job). j.max_attempts) (job_at cfg.home env.job_id db))

-- The copy that a failed attempt asks the broker to deliver later: the same envelope with the next
-- attempt number, under the worker's own routing key for the type, after the base back-off times 2
-- to the number of attempts before this one.
abbrev pub retry_copy : Config → JobEnvelope → Publication
retry_copy cfg env =
    publication (routing_key_for_type env.type (route_project_id cfg))
      (record env { attempt = env.attempt + 1 })
      (record {
        delay_ms = some (cfg.retry_backoff_base_ms * 2 ^ (env.attempt - 1));
        priority = some env.priority;
        message_id = some env.job_id;
        correlation_id = some env.correlation_id;
      })

abbrev pub failed_row : ℕ → String → Job → Job
failed_row now message j = record j {
  status = failed;
  finished_at = some now;
  error_summary = some message;
}

job_at-fail_job :
    (h : Home) (id message : String) (now : ℕ) (db : Db)
    → job_at h id (fail_job h id message now db)
      ≡ Option.map (failed_row now message) (job_at h id db)
unfolding fail_job
job_at-fail_job h id message now db =
    job_at-update_job h id all_rows (failed_row now message)
      (record { home = λ j. refl; id = λ j. refl; key = λ j. refl }) db

module _ (cfg : Config) (d : Delivery) (env : JobEnvelope) (message : String) (w : World) where
  -- Whatever fails, a failed attempt leaves the broker with nothing new, and then the message is not acked,
  -- or with the one retry copy, and that only if the job's row allows the next attempt; then the message
  -- is acked only if the broker confirmed the copy in time.
  pub handle_failure-published :
      let w' = (handle_failure cfg d env message w).1 in
      (w'.published ≡ w.published) × (w'.settled ≢ ack ∷ w.settled)
      ⊎ (w'.published ≡ retry_copy cfg env ∷ w.published)
        × (env.attempt + 1 ≤ allowed cfg env w.db)
        × ((confirmed d.confirm ≡ true) ⊎ (w'.settled ≢ ack ∷ w.settled))
  unfolding handle_failure
  handle_failure-published =
      ground (arith, cons-ne_self ack w.settled, accepted-confirmed d.confirm)

  exhausted :
      let w' = (handle_failure cfg d env message w).1 in
      w'.settled ≡ dead_letter ∷ w.settled
      → (allowed cfg env w.db ≤ env.attempt)
        × (w'.db.jobs ≡ (fail_job cfg.home env.job_id message d.now w.db).jobs)
  unfolding handle_failure job_event record_event
  exhausted h = ground (arith, cons-ne_self dead_letter w.settled)

  -- A failed attempt is dead-lettered only when the attempts are used up, and then the job's row, if
  -- there is one, is `failed` with the error as its summary.
  pub handle_failure_dead_letter :
      let w' = (handle_failure cfg d env message w).1 in
      w'.settled ≡ dead_letter ∷ w.settled
      → (allowed cfg env w.db ≤ env.attempt)
        × (job_at cfg.home env.job_id w'.db
            ≡ Option.map (failed_row d.now message) (job_at cfg.home env.job_id w.db))
  handle_failure_dead_letter h =
      let (used_up, jobs) = exhausted h in
      (used_up, rw jobs (job_at-fail_job cfg.home env.job_id message d.now w.db))
