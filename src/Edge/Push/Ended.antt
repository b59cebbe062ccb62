-- ===== src/Edge/Push/Ended.antt =====
-- How the job of a push ends.
use task_schedular.Prelude.{
  ℕ, ◌+◌, ◌<◌, String, false, some, length, ltb, ◌≡◌, Bool-cases, inl, inr, if◌then◌else◌,
}
use task_schedular.Prelude.Act.{ok}
use task_schedular.Contracts.Common.{truthy_text, completed, failed}
use task_schedular.Contracts.Json.{Json}
use task_schedular.Store.{Job, job_at}
use task_schedular.Reporter.{job_status, record_event}
use task_schedular.Worker.{JobContext}
use task_schedular.Edge.{World, Outside, Report, started, text_field, job_event}
use task_schedular.Edge.Reports.{start-passed, on_db, complete-EndsAs, fail-EndsAs}
use task_schedular.Edge.Push.{
  Table, Pushed, BatchLogs, live_rows, report_pushed, batch_size, rest_push, push_summary,
  push_start,
}
use task_schedular.Edge.Push.Counts.{push_batches-slices, posts, accepted_rows, refused_rows}
use task_schedular.Targets.Batches.{slices}

module _ {RuleSet : Type 0} (o : Outside) (logs : BatchLogs) (text : Json → String)
    (c : JobContext RuleSet) (sound : (q : Report) → o.report_fails q ≡ false) where
  report_pushed-status :
      (url : String) (size total : ℕ) (counts : Pushed) (w : World) (j : Job)
      → job_at o.home c.job.id w.process.db ≡ some j
      → (w' : World) × (report_pushed o logs text c url size total (some counts) w
          ≡ (ok (some counts), w'))
        × (job_status o.home c.job.id w'.process.db
            ≡ some (if ltb 0 counts.failed then failed else completed))
        × (w'.wire ≡ w.wire)
  unfolding report_pushed
  report_pushed-status url size total counts w j found = elim (Bool-cases (ltb 0 counts.failed)) [
    | inl some_failed ↦
        let (w', e, status, _, same_wire) =
          fail-EndsAs o c sound (push_summary o logs text c url size total counts) w j found in
        (w', rw (some_failed, e), rw some_failed status, same_wire)
    | inr none_failed ↦
        let (w', e, status, _, same_wire) =
          complete-EndsAs o c sound (push_summary o logs text c url size total counts) w j found in
        (w', rw (none_failed, e), rw none_failed status, same_wire)
  ]

  -- A push with a positive batch size ends, where the statements of its reports do not fail, if it has
  -- one round more than there are live rows. It posts the slices of these rows, in order and once, the
  -- rows of the posts that went through are counted as pushed and those of the others as failed, each row
  -- is counted once, and the job is failed if some row counts as failed and completed if none does.
  pub rest_push-ends :
      (number : Json → ℕ) (t : Table) (url : String) (fuel : ℕ) (w : World) (j : Job)
      → ((k : ℕ) → (logs.pushed_fails k ≡ false) × (logs.failed_fails k ≡ false))
      → truthy_text (text_field "location" c.envelope.destination) ≡ some url
      → 0 < batch_size o logs text number c (ok t)
      → length (live_rows t) < fuel
      → job_at o.home c.job.id w.process.db ≡ some j
      → let size = batch_size o logs text number c (ok t) in
        let (made, wire) = posts o logs text c url size (slices size (live_rows t)) w.wire in
        (after : Pushed) × (w' : World) × (rest_push o logs text number c (ok t) fuel w
          ≡ (ok (some after), w'))
        × (after.pushed ≡ accepted_rows made)
        × (after.failed ≡ refused_rows made)
        × (after.pushed + after.failed ≡ length (live_rows t))
        × (w'.wire ≡ wire)
        × (job_status o.home c.job.id w'.process.db
            ≡ some (if ltb 0 after.failed then failed else completed))
  unfolding rest_push record_event
  rest_push-ends number t url fuel w j quiet located positive enough found =
      let size = batch_size o logs text number c (ok t) in
      let message = push_start o logs text c url size (length (live_rows t)) in
      let w1 = on_db (job_event o c "job.started" message) w in
      let wire = (posts o logs text c url size (slices size (live_rows t)) w.wire).1 in
      let (after, e, accepted, refused, sum) =
        push_batches-slices o logs text c url size quiet positive fuel 1 (live_rows t) w1 enough in
      let (w', ended, status, same_wire) =
        report_pushed-status url size (length (live_rows t)) after (record w1 { wire = wire }) j
          found in
      (
        after,
        w',
        rw (located, start-passed o c message w (sound started), e, ended),
        accepted,
        refused,
        sum,
        same_wire,
        status,
      )
