-- ===== src/Gateway/Jobs/Cancels.antt =====
-- What a cancellation promises, whatever the workers do meanwhile.
use task_schedular.Prelude.{
  ℕ, String, Bool, true, false, Option, none, some, List, In, ◌≡◌, ◌⊎◌, refl, sym, ap, subst, ◌∙◌,
  inl, inr, arith, Bool-cases, Option-cases,
}
use task_schedular.Prelude.Act.{ok}
use task_schedular.Contracts.Common.{JobStatus, cancelled, cancelling}
use task_schedular.Store.{Job, WorkerNode, Db, job_at, IsKeyed}
use task_schedular.Reporter.{update_job, some_job, claimable, claim_job}
use task_schedular.Reporter.Keeps.{
  KeepsKeys, job_at-update_job, update_job-IsKeyed, some_job-eq, update_job_none,
}
use task_schedular.Reporter.Claims.{claim_job-eq}
use task_schedular.Gateway.Jobs.{
  Gateway, Reply, accepted, not_found, conflict, GateCall, Around, is_waiting, is_running,
  as_cancelled, as_cancelling, cancel_found, cancel_job,
}

as_cancelled-KeepsKeys : (now : ℕ) → KeepsKeys (as_cancelled now)
as_cancelled-KeepsKeys now = record { home = λ j. refl; id = λ j. refl; key = λ j. refl }

as_cancelling-KeepsKeys : KeepsKeys as_cancelling
as_cancelling-KeepsKeys = record { home = λ j. refl; id = λ j. refl; key = λ j. refl }

-- The two UPDATEs, by whether each hits a row.
cancel_found-cases :
    (a : Around) (id : String) (j : Job) (g : Gateway)
    → (cancel_found a id j g).0 ≡ ok accepted
    → let after = (cancel_found a id j g).1 in
      let first = a.before_waiting g.process.db in
      let second = a.before_running (update_job none id is_waiting (as_cancelled a.now) first) in
      In id after.flags
      × ((some_job none id is_waiting first ≡ true)
            × (after.process.db.jobs
                ≡ (update_job none id is_waiting (as_cancelled a.now) first).jobs)
          ⊎ (some_job none id is_running second ≡ true)
            × (after.process.db.jobs ≡ (update_job none id is_running as_cancelling second).jobs))
unfolding cancel_found
cancel_found-cases a id j g e = ground arith

-- A refusal: neither UPDATE hits a row.
cancel_found-conflict :
    (a : Around) (id : String) (j : Job) (s : Option JobStatus) (g : Gateway)
    → (cancel_found a id j g).0 ≡ ok (conflict s)
    → let first = a.before_waiting g.process.db in
      let second = a.before_running (update_job none id is_waiting (as_cancelled a.now) first) in
      (some_job none id is_waiting first ≡ false)
      × (some_job none id is_running second ≡ false)
      × ((cancel_found a id j g).1.process.db ≡ update_job none id is_running as_cancelling second)
unfolding cancel_found
cancel_found-conflict a id j s g e = ground arith

claimable_stopped :
    (workers : List WorkerNode) (now : ℕ) (worker : String) (j : Job)
    → (j.status ≡ cancelled) ⊎ (j.status ≡ cancelling)
    → claimable workers now worker j ≡ false
unfolding claimable
claimable_stopped workers now worker j e = ground arith

-- The job's row after an UPDATE that hits one.
row_after :
    (id : String) (guard : Job → Bool) (f : Job → Job)
    → KeepsKeys f
    → {db : Db} → IsKeyed db
    → some_job none id guard db ≡ true
    → (j : Job) × (job_at none id (update_job none id guard f db) ≡ some (f j))
row_after id guard f k {db} v e = elim (Option-cases (job_at none id db)) [
  | inl gone ↦ absurd (cc (rw gone at (some_job-eq none id guard v), e))
  | inr (j, at) ↦
      let can : guard j ≡ true = sym (rw at at (some_job-eq none id guard v)) ∙ e in
      (j, rw (job_at-update_job none id guard f k db, at, can) refl)
]

-- A job whose row is cancelled or cancelling is claimed by nobody.
claim_stopped :
    (id worker : String) (now : ℕ) (j : Job) {db : Db}
    → IsKeyed db
    → job_at none id db ≡ some j
    → (j.status ≡ cancelled) ⊎ (j.status ≡ cancelling)
    → (claim_job none id worker now db).0 ≡ false
claim_stopped id worker now j {db} v at stopped =
    claim_job-eq none id worker now v ∙ rw at (claimable_stopped db.workers now worker j stopped)

module _ (id : String) (u d : Db) (same_jobs : d.jobs ≡ u.jobs) where
  keys_by_jobs : IsKeyed u → IsKeyed d
  keys_by_jobs v = record {
    ids = λ h i. rw same_jobs (v.ids h i);
    keys = λ h k. rw same_jobs (v.keys h k);
  }

  job_at_by_jobs : job_at none id d ≡ job_at none id u
  job_at_by_jobs = rw same_jobs refl

-- What others do to the tables keeps their unique indexes.
abbrev pub KeepsIndexes : (Db → Db) → Type 0
KeepsIndexes f = (db : Db) → IsKeyed db → IsKeyed (f db)

cancel_found-stops :
    (a : Around) (id worker : String) (now : ℕ) (j : Job) (g : Gateway)
    → KeepsIndexes a.before_waiting
    → KeepsIndexes a.before_running
    → IsKeyed g.process.db
    → (cancel_found a id j g).0 ≡ ok accepted
    → let after = (cancel_found a id j g).1 in
      In id after.flags × ((claim_job none id worker now after.process.db).0 ≡ false)
cancel_found-stops a id worker now j g k k' v e =
    let keep_waiting = as_cancelled-KeepsKeys a.now in
    let first = k _ v in
    let u = update_job none id is_waiting (as_cancelled a.now) (a.before_waiting g.process.db) in
    let u' = update_job none id is_running as_cancelling (a.before_running u) in
    let d = (cancel_found a id j g).1.process.db in
    let waiting = update_job-IsKeyed none id is_waiting (as_cancelled a.now) keep_waiting first in
    let second = k' _ waiting in
    let (flag, which) = cancel_found-cases a id j g e in
    (
      flag,
      elim which [
        | inl (hit, jobs) ↦
            let (r, row) = row_after id is_waiting (as_cancelled a.now) keep_waiting first hit in
            claim_stopped id worker now _ (keys_by_jobs id u d jobs waiting)
              (job_at_by_jobs id u d jobs ∙ row) (inl refl)
        | inr (hit, jobs) ↦
            let running_keyed =
              update_job-IsKeyed none id is_running as_cancelling as_cancelling-KeepsKeys second in
            let (r, row) =
              row_after id is_running as_cancelling as_cancelling-KeepsKeys second hit in
            claim_stopped id worker now _ (keys_by_jobs id u' d jobs running_keyed)
              (job_at_by_jobs id u' d jobs ∙ row) (inr refl)
      ],
    )

cancel_job-found :
    (a : Around) (id : String) (g : Gateway) (r : Reply)
    → (cancel_job a id g).0 ≡ ok r
    → (r ≡ not_found) × ((cancel_job a id g).1 ≡ g)
      ⊎ ((j : Job) × (cancel_job a id g ≡ cancel_found a id j g))
unfolding cancel_job
cancel_job-found a id g r e = elim (Bool-cases (a.fails GateCall.read_job)) [
  | inl f ↦ absurd (cc (rw f at e))
  | inr f ↦ elim (Option-cases (job_at none id g.process.db)) [
    | inl gone ↦ inl (ground arith)
    | inr (j, at) ↦ inr (j, rw (f, at) refl)
  ]
]

-- Cancelling is decided by what the workers left when the two UPDATEs ran. If the request is
-- accepted, the cancel flag is set, and no worker claims the job in the database that the request
-- leaves, at any later time. Others must keep the unique indexes.
pub cancel_job-stops :
    (a : Around) (id worker : String) (now : ℕ) (g : Gateway)
    → KeepsIndexes a.before_waiting
    → KeepsIndexes a.before_running
    → IsKeyed g.process.db
    → (cancel_job a id g).0 ≡ ok accepted
    → let after = (cancel_job a id g).1 in
      In id after.flags × ((claim_job none id worker now after.process.db).0 ≡ false)
cancel_job-stops a id worker now g k k' v e = elim (cancel_job-found a id g accepted e) [
  | inl (missing, _) ↦ ground arith
  | inr (j, found) ↦
      subst (λ t. In id t.1.flags × ((claim_job none id worker now t.1.process.db).0 ≡ false))
        (sym found) (cancel_found-stops a id worker now j g k k' v (ap (λ t. t.0) (sym found) ∙ e))
]

-- A refusal with 409 has changed nothing in the database: it is what the others made of it.
pub cancel_job-conflict :
    (a : Around) (id : String) (s : Option JobStatus) (g : Gateway)
    → (cancel_job a id g).0 ≡ ok (conflict s)
    → (cancel_job a id g).1.process.db ≡ a.before_running (a.before_waiting g.process.db)
cancel_job-conflict a id s g e = elim (cancel_job-found a id g (conflict s) e) [
  | inl (missing, _) ↦ ground arith
  | inr (j, found) ↦
      let (none_waiting, none_running, same) =
        cancel_found-conflict a id j s g (ap (λ t. t.0) (sym found) ∙ e) in
      ap (λ t. t.1.process.db) found
      ∙ (same
          ∙ (update_job_none none id is_running as_cancelling _ none_running
              ∙ ap a.before_running
                  (update_job_none none id is_waiting (as_cancelled a.now) _ none_waiting)))
]
