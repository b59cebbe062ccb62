-- ===== src/Edge/Reports.antt =====
-- What the reports of a handler leave in the row of its job, where no statement of them fails.
use task_schedular.Prelude.{String, false, some, ◌≡◌, refl, ap, arith}
use task_schedular.Prelude.Act.{Result, ok}
use task_schedular.Contracts.Common.{JobStatus, completed, failed}
use task_schedular.Store.{Home, Job, Db, job_at}
use task_schedular.Reporter.{update_job, all_rows, job_status, complete_job, fail_job, record_event}
use task_schedular.Reporter.Keeps.{KeepsKeys, job_at-update_job}
use task_schedular.Storage.{put_object, get_object_text}
use task_schedular.Worker.{JobContext}
use task_schedular.Edge.{
  World, Outside, Report, started, completion, completed_event, completed_log, failure,
  failed_event, failed_log, job_event, report, log, put, fetch_object, start, complete, fail,
}

-- The job has this status, and everything but the control plane is as before.
abbrev pub EndsAs :
    {RuleSet : Type 0}
    → Outside
    → JobContext RuleSet
    → JobStatus
    → World
    → Result (Unit {0}) × World
    → Type 0
EndsAs o c status w r =
    (w' : World) × (r ≡ (ok tt, w'))
    × (job_status o.home c.job.id w'.process.db ≡ some status)
    × (w'.objects ≡ w.objects)
    × (w'.wire ≡ w.wire)

status-update_job :
    (h : Home) (id : String) (f : Job → Job) (db : Db) (status : JobStatus)
    → KeepsKeys f
    → ((j : Job) → (f j).status ≡ status)
    → (j : Job) → job_at h id db ≡ some j
    → job_status h id (update_job h id all_rows f db) ≡ some status
unfolding job_status
status-update_job h id f db status keeps sets j found =
    rw (job_at-update_job h id all_rows f keeps db, found) (ap some (sets j))

pub put-passed :
    (o : Outside) (bucket key text : String) (w : World)
    → o.put_fails ≡ false
    → put o bucket key text w ≡ (ok tt, record w { objects = put_object bucket key text w.objects })
unfolding put
put-passed o bucket key text w stored = ground (arith, stored)

pub fetch_object-found :
    (o : Outside) (bucket key text : String) (w : World)
    → o.get_fails ≡ false
    → get_object_text bucket key w.objects ≡ ok text
    → fetch_object o bucket key w ≡ (ok text, w)
unfolding fetch_object
fetch_object-found o bucket key text w readable found = ground (arith, readable, found)

pub log-passed :
    (o : Outside) (q : Report) (w : World) → o.report_fails q ≡ false → log o q w ≡ (ok tt, w)
unfolding log
log-passed o q w passed = rw passed

abbrev pub on_db : (Db → Db) → World → World
on_db f w = record w { process = record w.process { db = f w.process.db } }

pub start-passed :
    {RuleSet : Type 0} (o : Outside) (c : JobContext RuleSet) (message : String) (w : World)
    → o.report_fails started ≡ false
    → start o c message w ≡ (ok tt, on_db (job_event o c "job.started" message) w)
unfolding start report
start-passed o c message w passed = rw passed

module _ {RuleSet : Type 0} (o : Outside) (c : JobContext RuleSet)
    (sound : (q : Report) → o.report_fails q ≡ false) where
  pub complete-EndsAs :
      (summary : String) (w : World) (j : Job)
      → job_at o.home c.job.id w.process.db ≡ some j
      → EndsAs o c completed w (complete o c summary w)
  unfolding complete report log complete_job job_status record_event
  complete-EndsAs summary w j found = (
    on_db
        (λ db.
          job_event o c "job.completed" summary
            (complete_job o.home c.job.id (some summary) o.fresh.now db))
        w,
    rw (sound completion, sound completed_event, sound completed_log),
    status-update_job o.home c.job.id _ w.process.db completed
        (record { home = λ i. refl; id = λ i. refl; key = λ i. refl }) (λ i. refl) j found,
    refl,
    refl,
  )

  pub fail-EndsAs :
      (summary : String) (w : World) (j : Job)
      → job_at o.home c.job.id w.process.db ≡ some j
      → EndsAs o c failed w (fail o c summary w)
  unfolding fail report log fail_job job_status record_event
  fail-EndsAs summary w j found = (
    on_db
        (λ db. job_event o c "job.failed" summary (fail_job o.home c.job.id summary o.fresh.now db))
        w,
    rw (sound failure, sound failed_event, sound failed_log),
    status-update_job o.home c.job.id _ w.process.db failed
        (record { home = λ i. refl; id = λ i. refl; key = λ i. refl }) (λ i. refl) j found,
    refl,
    refl,
  )
