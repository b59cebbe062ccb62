-- ===== src/Enqueue/Atomic.antt =====
-- What one run of enqueueJob leaves behind, whatever statement fails.
use task_schedular.Prelude.{none, String, ◌≡◌, ◌⊎◌, Bool, true, false, [], ◌∷◌, ◌++◌, arith}
use task_schedular.Prelude.Act.{Act, ok, is_ok}
use task_schedular.Store.{Home, Db}
use task_schedular.Enqueue.{
  EnqueueInput, enqueued, skipped, Fresh, Statement, Isolation, job_row, outbox_row, queued_event,
  home_of, routing_key_of, enqueue_body, enqueue_job, with_transaction, insert_job_row,
  insert_outbox_row, insert_queued_event, set_search_path,
}

-- The state after a successful enqueue: one job, one pending outbox row for it under the chosen
-- routing key, and one event.
abbrev pub with_job : EnqueueInput → Home → String → Fresh → Db → Db
with_job input home key f db = record db {
  jobs = job_row input f home ∷ db.jobs;
  outbox = db.outbox ++ outbox_row input f key ∷ [];
  events = queued_event input f home ∷ db.events;
}

-- A transaction does what its body does where that succeeds, or it throws and changes nothing.
pub with_transaction-cases :
    {A : Type 0} (fails : Statement → Bool) (body : Act Db A) (db : Db)
    → (with_transaction fails body db ≡ body db) × (is_ok (body db).0 ≡ true)
      ⊎ (is_ok (with_transaction fails body db).0 ≡ false)
        × ((with_transaction fails body db).1 ≡ db)
unfolding with_transaction
with_transaction-cases fails body db = ground arith

-- The body of the transaction throws, skips, or writes all three rows.
pub body-cases :
    (input : EnqueueInput) (home : Home) (key : String) (f : Fresh) (fails : Statement → Bool)
    (db : Db)
    → let (r, db') = enqueue_body input f fails home key db in
      (r ≡ ok (enqueued f.uuid)) × (db' ≡ with_job input home key f db)
      ⊎ (r ≡ ok skipped) × (db' ≡ db)
      ⊎ (is_ok r ≡ false)
unfolding enqueue_body insert_job_row insert_outbox_row insert_queued_event set_search_path
body-cases input home key f fails db = ground arith

body_without_key :
    (input : EnqueueInput) (home : Home) (key : String) (f : Fresh) (fails : Statement → Bool)
    (db : Db)
    → input.idempotency_key ≡ none
    → let (r, db') = enqueue_body input f fails home key db in
      (db' ≡ with_job input home key f db) ⊎ (is_ok r ≡ false)
unfolding enqueue_body insert_job_row insert_outbox_row insert_queued_event set_search_path
body_without_key input home key f fails db no_key = ground (arith, no_key)

-- Whichever statements fail: the job, its outbox row and its event are all written and the new id
-- is returned, or the run skips or throws and nothing at all is written.
pub enqueue_job-atomic :
    (input : EnqueueInput) (i : Isolation) (f : Fresh) (fails : Statement → Bool) (db : Db)
    → let (r, db') = enqueue_job input i f fails db in
      (r ≡ ok (enqueued f.uuid)) × (db' ≡ with_job input (home_of i) (routing_key_of input i) f db)
      ⊎ (r ≡ ok skipped) × (db' ≡ db)
      ⊎ (is_ok r ≡ false) × (db' ≡ db)
unfolding enqueue_job
enqueue_job-atomic input i f fails db =
    let body = enqueue_body input f fails (home_of i) (routing_key_of input i) in
    ground (
      arith,
      with_transaction-cases fails body db,
      body-cases input (home_of i) (routing_key_of input i) f fails db,
    )

-- Without an idempotency key an enqueue is not skipped.
pub enqueue_job_without_key :
    (input : EnqueueInput) (i : Isolation) (f : Fresh) (fails : Statement → Bool) (db : Db)
    → input.idempotency_key ≡ none
    → let (r, db') = enqueue_job input i f fails db in
      (db' ≡ with_job input (home_of i) (routing_key_of input i) f db)
      ⊎ (is_ok r ≡ false) × (db' ≡ db)
unfolding enqueue_job
enqueue_job_without_key input i f fails db no_key =
    let body = enqueue_body input f fails (home_of i) (routing_key_of input i) in
    ground (
      arith,
      with_transaction-cases fails body db,
      body_without_key input (home_of i) (routing_key_of input i) f fails db no_key,
    )
