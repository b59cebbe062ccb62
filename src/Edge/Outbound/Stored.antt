-- ===== src/Edge/Outbound/Stored.antt =====
-- What an export leaves in the object store.
use task_schedular.Prelude.{String, false, some, ◌≡◌}
use task_schedular.Prelude.Act.{ok}
use task_schedular.Contracts.Common.{completed}
use task_schedular.Contracts.Json.{Json}
use task_schedular.Store.{Job, job_at}
use task_schedular.Reporter.{job_status, record_event}
use task_schedular.Storage.{put_object, get_object_text, parse_s3_url}
use task_schedular.Storage.Urls.{get_object_text-put_object}
use task_schedular.Worker.{JobContext}
use task_schedular.Edge.{World, Outside, Report, started, progress_log, job_event}
use task_schedular.Edge.Reports.{start-passed, on_db, complete-EndsAs, put-passed, log-passed}
use task_schedular.Edge.Push.{Table, live_rows}
use task_schedular.Edge.Outbound.{file_body, target_url, export_summary, file_outbound}

module _ {RuleSet : Type 0} (o : Outside) (text : Json → String) (c : JobContext RuleSet)
    (sound : (q : Report) → o.report_fails q ≡ false) where
  -- An export to an accepted URL, where neither the reads of the table nor the store nor the reports
  -- fail, ends with the job completed, and what is read at the bucket and key of the URL is the file of
  -- the live rows.
  pub file_outbound-get_object_text :
      (t : Table) (b k : String) (w : World) (j : Job)
      → o.put_fails ≡ false
      → parse_s3_url (target_url o text c) ≡ ok (b, k)
      → job_at o.home c.job.id w.process.db ≡ some j
      → (w' : World) × (file_outbound o text c false (ok t) w ≡ (ok tt, w'))
        × (get_object_text b k w'.objects ≡ ok (file_body o text c (live_rows t)))
        × (job_status o.home c.job.id w'.process.db ≡ some completed)
  unfolding file_outbound record_event
  file_outbound-get_object_text t b k w j stored target found =
      let rows = live_rows t in
      let w1 = on_db (job_event o c "job.started" "file_outbound querying target") w in
      let w2 = record w1 { objects = put_object b k (file_body o text c rows) w1.objects } in
      let (w', e, status, same_objects, _) =
        complete-EndsAs o c sound (export_summary o text c rows) w2 j found in
      (
        w',
        rw (
          start-passed o c "file_outbound querying target" w (sound started),
          log-passed o progress_log w1 (sound progress_log),
          target,
          put-passed o b k (file_body o text c rows) w1 stored,
          e,
        ),
        rw same_objects (get_object_text-put_object b k (file_body o text c rows) w1.objects),
        status,
      )
