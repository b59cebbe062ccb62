-- ===== src/Reporter/Keeps.antt =====
-- What an UPDATE of one job's row keeps.
use task_schedular.Prelude.{String, ◌≡◌, ap, Bool, ◌&&◌, true, false, none, some}
use mathlib.Core.Option
use task_schedular.Store.{Home, Job, Db, at_id, holds_key, job_at, IsKeyed}
use task_schedular.Store.Rows.{
  find-update_where, count-update_where, any-eq-find, update_where_none,
}
use task_schedular.Reporter.{update_job, some_job}

-- A change that leaves a row where it is: its schema, its id and its key.
pub record KeepsKeys (f : Job → Job) : Type 0 where
  pub home : (j : Job) → (f j).home ≡ j.home
  pub id : (j : Job) → (f j).id ≡ j.id
  pub key : (j : Job) → (f j).idempotency_key ≡ j.idempotency_key

module _ (h : Home) (id : String) (guard : Job → Bool) (f : Job → Job) (k : KeepsKeys f) where
  -- The row of the job after the UPDATE.
  pub job_at-update_job :
      (db : Db)
      → job_at h id (update_job h id guard f db)
        ≡ Option.map (λ j. elim (guard j) [ true ↦ f j | false ↦ j ]) (job_at h id db)
  job_at-update_job db =
      find-update_where (at_id h id) guard f (λ j. simp (k.home j, k.id j)) db.jobs

  abbrev hit : Job → Bool
  hit j = at_id h id j && guard j

  pub update_job-IsKeyed : {db : Db} → IsKeyed db → IsKeyed (update_job h id guard f db)
  update_job-IsKeyed {db} v = record {
    ids = λ g i.
        rw (count-update_where (at_id g i) hit f (λ j. simp (k.home j, k.id j)) db.jobs)
          (v.ids g i);
    keys = λ g i.
        rw (count-update_where (holds_key g i) hit f (λ j. simp (k.home j, k.key j)) db.jobs)
          (v.keys g i);
  }

-- With unique ids the row count is that of the job's row.
pub some_job-eq :
    (h : Home) (id : String) (guard : Job → Bool) {db : Db}
    → IsKeyed db
    → some_job h id guard db ≡ elim (job_at h id db) [ none ↦ false | some j ↦ guard j ]
some_job-eq h id guard {db} v = any-eq-find (at_id h id) guard db.jobs (v.ids h id)

pub update_job_none :
    (h : Home) (id : String) (guard : Job → Bool) (f : Job → Job) (db : Db)
    → some_job h id guard db ≡ false
    → update_job h id guard f db ≡ db
update_job_none h id guard f db e =
    ap (λ js. record db { jobs = js }) (update_where_none _ f db.jobs e)
