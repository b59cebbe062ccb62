-- ===== src/Runner/Requeued.antt =====
-- A redelivered message of a job that is still `running`.
use task_schedular.Prelude.{
  ℕ, ◌<◌, String, ◌≡◌, refl, true, false, some, List, ◌∷◌, arith, inl, inr, eq_refl, if◌then◌else◌,
}
use task_schedular.Prelude.Act.{error, ok, err, Act}
use task_schedular.Contracts.Common.{running}
use task_schedular.Contracts.Envelope.{JobEnvelope}
use task_schedular.Messaging.Publisher.{confirmed, accepted}
use task_schedular.Store.{Job, WorkerNode, Db, job_at, IsKeyed}
use task_schedular.Reporter.{claimable, claimed_by, claim_job}
use task_schedular.Reporter.Claims.{claim_job-cases, claim_job-IsKeyed}
use task_schedular.Runner.Outcomes.{retry_copy}
use task_schedular.Runner.{
  ack, requeue, World, Config, Delivery, Query, claim, read_status, read_max, log_attempt,
  attempt_job, run_claimed, handle_failure, recover, on_db,
}

abbrev pub NoFailure : Delivery → Type 0
NoFailure d = (q : Query) → d.fails q ≡ false

-- A worker does not claim a job that runs under its own name.
claimable_own :
    (workers : List WorkerNode) (now : ℕ) (worker : String) (j : Job)
    → j.status ≡ running
    → j.worker_id ≡ some worker
    → claimable workers now worker j ≡ false
unfolding claimable
claimable_own workers now worker j r own = ground (arith, eq_refl worker)

module _ (cfg : Config) (d : Delivery) (execute : JobEnvelope → Act Db (Unit {0}))
    (env : JobEnvelope) (w : World) where
  -- A worker that is handed the message of a job which is running under its own name acks it: the
  -- handler does not run, nothing is published, and the tables stay as they are.
  pub run_claimed_own_running :
      (j : Job)
      → NoFailure d
      → IsKeyed w.db
      → job_at cfg.home env.job_id w.db ≡ some j
      → j.status ≡ running
      → j.worker_id ≡ some cfg.worker_id
      → run_claimed cfg d execute env w ≡ (ok tt, record w { settled = ack ∷ w.settled })
  unfolding run_claimed attempt_job
  run_claimed_own_running j fine v row status owner =
      elim (claim_job-cases cfg.home env.job_id cfg.worker_id d.now v j row) [
        | inl (_, can, _) ↦
            absurd (cc (can, claimable_own w.db.workers d.now cfg.worker_id j status owner))
        | inr (lost, _, same_db) ↦ ground (arith, fine claim, fine read_status)
      ]

IsKeyed-jobs : {db db' : Db} → db'.jobs ≡ db.jobs → IsKeyed db → IsKeyed db'
IsKeyed-jobs e v = record { ids = λ h i. rw e (v.ids h i); keys = λ h k. rw e (v.keys h k) }

-- A handler that fails with an ordinary error and leaves the jobs table alone.
abbrev pub Fails : (JobEnvelope → Act Db (Unit {0})) → JobEnvelope → String → Type 0
Fails execute env message =
    (db : Db) → ((execute env db).0 ≡ err (error message)) × ((execute env db).1.jobs ≡ db.jobs)

module _ (cfg : Config) (d : Delivery) (execute : JobEnvelope → Act Db (Unit {0}))
    (env : JobEnvelope) (w : World) (j : Job) (message : String) where
  requeued :
      NoFailure d
      → IsKeyed w.db
      → job_at cfg.home env.job_id w.db ≡ some j
      → claimable w.db.workers d.now cfg.worker_id j ≡ true
      → Fails execute env message
      → env.attempt < j.max_attempts
      → confirmed d.confirm ≡ false
      → let w' = (run_claimed cfg d execute env w).1 in
        (w'.settled ≡ requeue ∷ w.settled)
        × (w'.published
            ≡ (if accepted d.confirm then retry_copy cfg env ∷ w.published else w.published))
        × (w'.db.jobs ≡ (claim_job cfg.home env.job_id cfg.worker_id d.now w.db).1.jobs)
        × (job_at cfg.home env.job_id w'.db ≡ some (claimed_by d.now cfg.worker_id j))
  unfolding run_claimed attempt_job recover on_db handle_failure
  requeued fine v row can fails more unconfirmed =
      elim (claim_job-cases cfg.home env.job_id cfg.worker_id d.now v j row) [
        | inl (won, _, claimed) ↦
            let db₁ = (claim_job cfg.home env.job_id cfg.worker_id d.now w.db).1 in
            let (thrown, jobs) = fails db₁ in
            let row₁ : job_at cfg.home env.job_id (execute env db₁).1
                ≡ some (claimed_by d.now cfg.worker_id j) =
              rw jobs claimed in
            ground (arith, fine claim, fine read_max, fine log_attempt, won, thrown, jobs, row₁)
        | inr (_, cannot, _) ↦ absurd (cc (can, cannot))
      ]

  -- A job whose handler fails while the broker does not confirm the retry copy: the message is
  -- requeued, a copy is with the broker only if it took it without a confirm in time, and the job stays
  -- `running`; and when the same worker is handed the message again, with nothing failing, it acks it, runs no handler, publishes nothing and
  -- leaves the job `running`.
  pub run_claimed_loses_job :
      (d' : Delivery)
      → NoFailure d
      → NoFailure d'
      → IsKeyed w.db
      → job_at cfg.home env.job_id w.db ≡ some j
      → claimable w.db.workers d.now cfg.worker_id j ≡ true
      → Fails execute env message
      → env.attempt < j.max_attempts
      → confirmed d.confirm ≡ false
      → let w' = (run_claimed cfg d execute env w).1 in
        (w'.settled ≡ requeue ∷ w.settled)
        × (w'.published
            ≡ (if accepted d.confirm then retry_copy cfg env ∷ w.published else w.published))
        × (job_at cfg.home env.job_id w'.db ≡ some (claimed_by d.now cfg.worker_id j))
        × (run_claimed cfg d' execute env w' ≡ (ok tt, record w' { settled = ack ∷ w'.settled }))
  run_claimed_loses_job d' fine fine' v row can fails more unconfirmed =
      let (settled, published, jobs, row') = requeued fine v row can fails more unconfirmed in
      let v' =
        IsKeyed-jobs {db' = (run_claimed cfg d execute env w).1.db} jobs
          (claim_job-IsKeyed cfg.home env.job_id cfg.worker_id d.now v) in
      (
        settled,
        published,
        row',
        run_claimed_own_running cfg d' execute env (run_claimed cfg d execute env w).1
            (claimed_by d.now cfg.worker_id j) fine' v' row' refl refl,
      )
