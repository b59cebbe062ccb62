-- ===== src/Reporter/Claims.antt =====
-- claimJob: who gets a job.
use task_schedular.Prelude.{
  ℕ, String, ◌≡◌, ◌⊎◌, refl, true, false, none, some, inl, inr, List, arith, Bool-cases,
  Option-cases,
}
use task_schedular.Contracts.Common.{running}
use task_schedular.Store.{Home, Job, WorkerNode, Db, job_at, IsKeyed}
use task_schedular.Reporter.{some_job, owner_alive, claimable, claimed_by, claim_job}
use task_schedular.Reporter.Keeps.{
  KeepsKeys, job_at-update_job, update_job-IsKeyed, some_job-eq, update_job_none,
}

pub claimed_by-KeepsKeys : (now : ℕ) (worker : String) → KeepsKeys (claimed_by now worker)
claimed_by-KeepsKeys now worker = record { home = λ j. refl; id = λ j. refl; key = λ j. refl }

module _ (h : Home) (id worker : String) (now : ℕ) {db : Db} (v : IsKeyed db) where
  -- The claim succeeds exactly if the job's row passes the WHERE clause.
  pub claim_job-eq :
      (claim_job h id worker now db).0
      ≡ elim (job_at h id db) [ none ↦ false | some j ↦ claimable db.workers now worker j ]
  unfolding claim_job
  claim_job-eq = some_job-eq h id (claimable db.workers now worker) v

  -- The job's row after a claim that succeeds; after one that fails nothing has changed.
  pub claim_job-cases :
      (j : Job)
      → job_at h id db ≡ some j
      → ((claim_job h id worker now db).0 ≡ true)
          × (claimable db.workers now worker j ≡ true)
          × (job_at h id (claim_job h id worker now db).1 ≡ some (claimed_by now worker j))
        ⊎ ((claim_job h id worker now db).0 ≡ false)
          × (claimable db.workers now worker j ≡ false)
          × ((claim_job h id worker now db).1 ≡ db)
  unfolding claim_job
  claim_job-cases j e =
      let guard = claimable db.workers now worker in
      let row = job_at-update_job h id guard _ (claimed_by-KeepsKeys now worker) db in
      let hits = some_job-eq h id guard v in
      elim (Bool-cases (guard j)) [
        | inl can ↦ inl (rw (hits, e) can, can, rw (row, e, can))
        | inr not_now ↦
            let none_hit : some_job h id guard db ≡ false = rw (hits, e) not_now in
            inr (none_hit, not_now, update_job_none h id guard _ db none_hit)
      ]

  pub claim_job-IsKeyed : IsKeyed (claim_job h id worker now db).1
  unfolding claim_job
  claim_job-IsKeyed = update_job-IsKeyed h id _ _ (claimed_by-KeepsKeys now worker) v

-- A running job whose owner's heartbeat is recent is claimed by nobody.
claimable_alive :
    (workers : List WorkerNode) (now : ℕ) (worker : String) (j : Job)
    → j.status ≡ running
    → owner_alive workers now j.worker_id ≡ true
    → claimable workers now worker j ≡ false
unfolding claimable
claimable_alive workers now worker j r alive = ground arith

claim_job-workers :
    (h : Home) (id worker : String) (now : ℕ) (db : Db)
    → (claim_job h id worker now db).1.workers ≡ db.workers
unfolding claim_job
claim_job-workers h id worker now db = refl

-- After a claim that succeeds, no worker, the claimant included, claims the job again while the
-- claimant's heartbeat is recent: the second claim fails and changes nothing.
pub claim_job_exclusive :
    (h : Home) (id first second : String) (now later : ℕ) {db : Db}
    → IsKeyed db
    → (claim_job h id first now db).0 ≡ true
    → owner_alive db.workers later (some first) ≡ true
    → let after = (claim_job h id first now db).1 in
      ((claim_job h id second later after).0 ≡ false)
      × ((claim_job h id second later after).1 ≡ after)
claim_job_exclusive h id first second now later {db} v won alive =
    let v' = claim_job-IsKeyed h id first now v in
    elim (Option-cases (job_at h id db)) [
      | inl gone ↦ absurd (cc (rw gone at (claim_job-eq h id first now v), won))
      | inr (j, e) ↦ elim (claim_job-cases h id first now v j e) [
        | inl (_, _, row) ↦
            elim (claim_job-cases h id second later v' (claimed_by now first j) row) [
              | inl (_, can, _) ↦ absurd (
                  cc (
                    can,
                    claimable_alive (claim_job h id first now db).1.workers later second
                        (claimed_by now first j) refl
                        (rw (claim_job-workers h id first now db) alive),
                  ))
              | inr (lost, _, same_db) ↦ (lost, same_db)
            ]
        | inr (lost, _, _) ↦ absurd (cc (won, lost))
      ]
    ]
