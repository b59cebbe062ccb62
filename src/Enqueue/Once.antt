-- ===== src/Enqueue/Once.antt =====
-- The idempotency key of enqueueJob against the unique index of the jobs tables.
use task_schedular.Prelude.{
  String, ◌≡◌, ◌≢◌, ◌≤◌, refl, Bool, true, false, ◌&&◌, Option, none, some, List, ◌∷◌, arith, any,
  count, Bool-cases, inl, inr, str_eq, same, sql_eq, eq_iff, eq_refl,
}
use task_schedular.Prelude.Act.{ok, is_ok}
use task_schedular.Store.{Home, Job, Db, at_id, holds_key, IsKeyed}
use task_schedular.Store.Rows.{count-eq-zero_of_any}
use task_schedular.Enqueue.{
  EnqueueInput, enqueued, Fresh, Statement, Isolation, job_row, home_of, routing_key_of,
  enqueue_body, enqueue_job, key_taken, insert_job_row, insert_outbox_row, insert_queued_event,
  set_search_path, schema_ok,
}
use task_schedular.Enqueue.Atomic.{with_job, with_transaction-cases, body-cases, enqueue_job-atomic}

same_refl : (h : Home) → same h h ≡ true
same_refl none = refl
same_refl (some s) = eq_refl s

same→eq : (g h : Home) → same g h ≡ true → g ≡ h
same→eq none none e = refl
same→eq none (some t) e = ground arith
same→eq (some s) none e = ground arith
same→eq (some s) (some t) e = ground (arith, eq_iff s t)

-- An insert that goes through found no row with its key and none with its id.
body_fresh :
    (input : EnqueueInput) (home : Home) (key : String) (f : Fresh) (fails : Statement → Bool)
    (db : Db)
    → (enqueue_body input f fails home key db).0 ≡ ok (enqueued f.uuid)
    → (key_taken input f home input.idempotency_key db.jobs ≡ false)
      × (any (at_id home f.uuid) db.jobs ≡ false)
unfolding enqueue_body insert_job_row insert_outbox_row insert_queued_event set_search_path
body_fresh input home key f fails db h = ground arith

body_taken :
    (input : EnqueueInput) (home : Home) (key : String) (f : Fresh) (fails : Statement → Bool)
    (db : Db)
    → key_taken input f home input.idempotency_key db.jobs ≡ true
    → (id : String) → (enqueue_body input f fails home key db).0 ≢ ok (enqueued id)
unfolding enqueue_body insert_job_row insert_outbox_row insert_queued_event set_search_path
body_taken input home key f fails db h id e = ground arith

-- A key that some job of the same schema holds is never enqueued again: no id is returned and the
-- tables stay as they are, whichever statements fail.
pub enqueue_job_taken :
    (input : EnqueueInput) (i : Isolation) (f : Fresh) (fails : Statement → Bool) (db : Db)
    → key_taken input f (home_of i) input.idempotency_key db.jobs ≡ true
    → ((id : String) → (enqueue_job input i f fails db).0 ≢ ok (enqueued id))
      × ((enqueue_job input i f fails db).1 ≡ db)
unfolding enqueue_job
enqueue_job_taken input i f fails db h =
    let body = enqueue_body input f fails (home_of i) (routing_key_of input i) in
    let no_id = body_taken input (home_of i) (routing_key_of input i) f fails db h in
    ground (
      arith,
      with_transaction-cases fails body db,
      no_id f.uuid,
      body-cases input (home_of i) (routing_key_of input i) f fails db,
    )

pub key_taken_of_job_row :
    (input input' : EnqueueInput) (home : Home) (f f' : Fresh) (jobs : List Job) (k : String)
    → input.idempotency_key ≡ some k
    → input'.idempotency_key ≡ some k
    → key_taken input' f' home input'.idempotency_key (job_row input f home ∷ jobs) ≡ true
key_taken_of_job_row input input' home f f' jobs k e e' = ground (arith, same_refl home, eq_refl k)

key_taken_of_with_job :
    (input input' : EnqueueInput) (home : Home) (key : String) (f f' : Fresh) (db : Db) (k : String)
    → input.idempotency_key ≡ some k
    → input'.idempotency_key ≡ some k
    → key_taken input' f' home input'.idempotency_key (with_job input home key f db).jobs ≡ true
key_taken_of_with_job input input' home key f f' db k e e' =
    key_taken_of_job_row input input' home f f' db.jobs k e e'

enqueue_twice :
    (input input' : EnqueueInput) (i i' : Isolation) (f f' : Fresh)
    (fails fails' : Statement → Bool) (db : Db) (k : String)
    → input.idempotency_key ≡ some k
    → input'.idempotency_key ≡ some k
    → home_of i' ≡ home_of i
    → (enqueue_job input i f fails db).0 ≡ ok (enqueued f.uuid)
    → let after = (enqueue_job input i f fails db).1 in
      ((id : String) → (enqueue_job input' i' f' fails' after).0 ≢ ok (enqueued id))
      × ((enqueue_job input' i' f' fails' after).1 ≡ after)
enqueue_twice input input' i i' f f' fails fails' db k e e' eh first =
    elim (enqueue_job-atomic input i f fails db) [
      | inl (_, written) ↦ enqueue_job_taken input' i' f' fails' _ (
          rw (written, eh)
            (key_taken_of_with_job input input' (home_of i) (routing_key_of input i) f f' db k e
              e'))
      | inr (inl (skip, _)) ↦ absurd (cc (skip, first))
      | inr (inr (bad, _)) ↦ absurd (cc (rw first at bad))
    ]

-- After an enqueue under a key that returned an id, another enqueue under that key into the same
-- schema returns no id and changes nothing, whatever else it asks for and whichever statements fail.
pub enqueue_job-at_most_once :
    (input input' : EnqueueInput) (i i' : Isolation) (f f' : Fresh)
    (fails fails' : Statement → Bool) (db : Db) (k id : String)
    → input.idempotency_key ≡ some k
    → input'.idempotency_key ≡ some k
    → home_of i' ≡ home_of i
    → (enqueue_job input i f fails db).0 ≡ ok (enqueued f.uuid)
    → let after = (enqueue_job input i f fails db).1 in
      ((enqueue_job input' i' f' fails' after).0 ≢ ok (enqueued id))
      × ((enqueue_job input' i' f' fails' after).1 ≡ after)
enqueue_job-at_most_once input input' i i' f f' fails fails' db k id e e' eh first =
    let (no_id, same) = enqueue_twice input input' i i' f f' fails fails' db k e e' eh first in
    (no_id id, same)

-- A count after one more row.
count-job_row :
    (p : Job → Bool) (j : Job) (jobs : List Job)
    → (p j ≡ true → any p jobs ≡ false)
    → count p jobs ≤ 1
    → count p (j ∷ jobs) ≤ 1
count-job_row p j jobs fresh h = elim (Bool-cases (p j)) [
  | inl own ↦ ground (arith, count-eq-zero_of_any p jobs (fresh own))
  | inr other ↦ ground arith
]

own_id : (g h : Home) (a b : String) → (same g h && str_eq a b) ≡ true → (g ≡ h) × (a ≡ b)
own_id g h a b e = ground (arith, same→eq g h, eq_iff a b)

key_free :
    (input : EnqueueInput) (f : Fresh) (g h : Home) (o : Option String) (k : String)
    (jobs : List Job)
    → key_taken input f g o jobs ≡ false
    → (same g h && sql_eq o k) ≡ true
    → any (holds_key h k) jobs ≡ false
key_free input f g h none k jobs free own = ground arith
key_free input f g h (some j) k jobs free own =
    let (eh, ek) = own_id g h j k own in rw (← eh, ← ek) free

with_job-IsKeyed :
    (input : EnqueueInput) (home : Home) (key : String) (f : Fresh) (db : Db)
    → key_taken input f home input.idempotency_key db.jobs ≡ false
    → any (at_id home f.uuid) db.jobs ≡ false
    → IsKeyed db
    → IsKeyed (with_job input home key f db)
with_job-IsKeyed input home key f db no_key no_id v = record {
  ids = λ h i.
      count-job_row (at_id h i) (job_row input f home) db.jobs
        (λ own. let (eh, ei) = own_id home h f.uuid i own in rw (← eh, ← ei) no_id) (v.ids h i);
  keys = λ h k.
      count-job_row (holds_key h k) (job_row input f home) db.jobs
        (key_free input f home h input.idempotency_key k db.jobs no_key) (v.keys h k);
}

body-IsKeyed :
    (input : EnqueueInput) (home : Home) (key : String) (f : Fresh) (fails : Statement → Bool)
    (db : Db)
    → is_ok (enqueue_body input f fails home key db).0 ≡ true
    → IsKeyed db
    → IsKeyed (enqueue_body input f fails home key db).1
body-IsKeyed input home key f fails db okay v = elim (body-cases input home key f fails db) [
  | inl (done, e) ↦
      let (no_key, no_id) = body_fresh input home key f fails db done in
      rw e (with_job-IsKeyed input home key f db no_key no_id v)
  | inr (inl (_, e)) ↦ rw e v
  | inr (inr bad) ↦ absurd (cc (okay, bad))
]

-- Every run of the enqueue keeps both unique indexes, whichever statements fail.
pub enqueue_job-IsKeyed :
    (input : EnqueueInput) (i : Isolation) (f : Fresh) (fails : Statement → Bool) {db : Db}
    → IsKeyed db
    → IsKeyed (enqueue_job input i f fails db).1
unfolding enqueue_job
enqueue_job-IsKeyed input i f fails {db} v =
    let body = enqueue_body input f fails (home_of i) (routing_key_of input i) in
    elim (Bool-cases (schema_ok i)) [
      | inl fine ↦ elim (with_transaction-cases fails body db) [
        | inl (e, okay) ↦
            rw (fine, e) (body-IsKeyed input (home_of i) (routing_key_of input i) f fails db okay v)
        | inr (_, same) ↦ rw (fine, same) v
      ]
      | inr bad ↦ rw bad v
    ]
