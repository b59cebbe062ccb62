-- ===== src/Examples/Jobs.antt =====
-- The theorems on one job's way at concrete inputs: enqueue, claim, failure, cancellation, retry.
use Prim.Native.Nat.{◌≤◌}
use task_schedular.Prelude.{true, false, none, some, [], ◌∷◌, ◌≡◌, ◌≢◌, ◌⊎◌, refl, arith}
use task_schedular.Prelude.Act.{ok, is_ok}
use task_schedular.Contracts.Envelope.{JobEnvelope}
use task_schedular.Messaging.Publisher.{lost, acked, confirmed, accepted}
use task_schedular.Store.{Db, job_at}
use task_schedular.Enqueue.{
  enqueue_job, enqueued, skipped, never, home_of, routing_key_of, schema_ok, enqueue_body,
  set_search_path, insert_job_row, insert_outbox_row, insert_queued_event, with_transaction,
}
use task_schedular.Enqueue.Atomic.{with_job, enqueue_job-atomic}
use task_schedular.Enqueue.Once.{enqueue_job-at_most_once}
use task_schedular.Reporter.{owner_alive, claimable, claim_job, claimed_by}
use task_schedular.Reporter.Claims.{claim_job_exclusive}
use task_schedular.Runner.{handle_failure, run_claimed, consume, requeue, ack}
use task_schedular.Runner.Settles.{SettledOnce}
use task_schedular.Runner.Delivered.{consume-settles_once, consume-slots}
use task_schedular.Runner.Outcomes.{allowed, retry_copy, handle_failure-published}
use task_schedular.Runner.Requeued.{run_claimed_loses_job}
use task_schedular.Examples.Data.{
  job, db_with, one_job-IsKeyed, envelope_one, failing, config_one, delivery_with, world, input_one,
  fresh_one, fresh_two, shared_tier,
}

abbrev db_one : Db
db_one = db_with (job ∷ [])

consume-settles_once_example :
    let w' = consume config_one (delivery_with (lost false)) world in
    SettledOnce world w' × (w'.in_flight ≡ 0) × (w'.draining ≡ false)
consume-settles_once_example = consume-settles_once config_one (delivery_with (lost false)) world

consume-slots_example : (consume config_one (delivery_with (lost false)) world).slots "p1" ≡ 0
consume-slots_example = consume-slots config_one (delivery_with (lost false)) world "p1" refl

enqueue_job-at_most_once_example :
    let after = (enqueue_job input_one shared_tier fresh_one never db_one).1 in
    ((enqueue_job input_one shared_tier fresh_two never after).0 ≢ ok (enqueued "j3"))
    × ((enqueue_job input_one shared_tier fresh_two never after).1 ≡ after)
unfolding enqueue_job enqueue_body set_search_path insert_job_row insert_outbox_row
    insert_queued_event with_transaction home_of routing_key_of schema_ok
enqueue_job-at_most_once_example =
    enqueue_job-at_most_once input_one input_one shared_tier shared_tier fresh_one fresh_two never
      never db_one "k2" "j3" refl refl refl refl

enqueue_job-atomic_example :
    let (r, db') = enqueue_job input_one shared_tier fresh_one never db_one in
    (r ≡ ok (enqueued "j2"))
      × (db'
          ≡ with_job input_one
              (home_of shared_tier)
              (routing_key_of input_one shared_tier)
              fresh_one
              db_one)
    ⊎ (r ≡ ok skipped) × (db' ≡ db_one)
    ⊎ (is_ok r ≡ false) × (db' ≡ db_one)
enqueue_job-atomic_example = enqueue_job-atomic input_one shared_tier fresh_one never db_one

claim_job_exclusive_example :
    let after = (claim_job none "j1" "w1" 2000 db_one).1 in
    ((claim_job none "j1" "w2" 3000 after).0 ≡ false)
    × ((claim_job none "j1" "w2" 3000 after).1 ≡ after)
unfolding claim_job owner_alive claimable
claim_job_exclusive_example =
    claim_job_exclusive none "j1" "w1" "w2" 2000 3000 (one_job-IsKeyed job) refl refl

handle_failure-published_example :
    let w' = (handle_failure config_one (delivery_with (acked 10)) envelope_one "boom" world).1 in
    (w'.published ≡ []) × (w'.settled ≢ ack ∷ [])
    ⊎ (w'.published ≡ retry_copy config_one envelope_one ∷ [])
      × (2 ≤ allowed config_one envelope_one db_one)
      × ((confirmed (acked 10) ≡ true) ⊎ (w'.settled ≢ ack ∷ []))
handle_failure-published_example =
    handle_failure-published config_one (delivery_with (acked 10)) envelope_one "boom" world

-- The fifth attempt of the job fails.
abbrev last_attempt : JobEnvelope
last_attempt = record envelope_one { attempt = 5 }

run_claimed_loses_job_example :
    let w' = (run_claimed config_one (delivery_with (acked 20000)) failing envelope_one world).1 in
    (w'.settled ≡ requeue ∷ [])
    × (w'.published ≡ retry_copy config_one envelope_one ∷ [])
    × (job_at none "j1" w'.db ≡ some (claimed_by 2000 "w1" job))
    × (run_claimed config_one (delivery_with (acked 10)) failing envelope_one w'
        ≡ (ok tt, record w' { settled = ack ∷ w'.settled }))
unfolding claimable confirmed accepted
run_claimed_loses_job_example =
    run_claimed_loses_job config_one (delivery_with (acked 20000)) failing envelope_one world job
      "boom" (delivery_with (acked 10)) (λ q. refl) (λ q. refl) (one_job-IsKeyed job) refl refl
      (λ db. (refl, refl)) (omega arith) refl
