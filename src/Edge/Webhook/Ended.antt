-- ===== src/Edge/Webhook/Ended.antt =====
-- How the job of a webhook ends.
use task_schedular.Prelude.{String, false, some, ◌≡◌, if◌then◌else◌}
use task_schedular.Prelude.Act.{Result, ok, err, is_ok}
use task_schedular.Contracts.Common.{truthy_text, completed, failed}
use task_schedular.Contracts.Json.{Json, Fields}
use task_schedular.Store.{Job, job_at}
use task_schedular.Reporter.{job_status, record_event}
use task_schedular.Worker.{JobContext}
use task_schedular.Edge.Http.{post_json}
use task_schedular.Edge.{World, Outside, Report, started, text_field, job_event}
use task_schedular.Edge.Reports.{start-passed, on_db, complete-EndsAs, fail-EndsAs}
use task_schedular.Edge.Webhook.{
  after_post, failed_text, triggered_text, started_text, post_hook, hook_body, hook_options,
  webhook,
}

module _ {RuleSet : Type 0} (o : Outside) (number : Json → Json) (c : JobContext RuleSet)
    (sound : (q : Report) → o.report_fails q ≡ false) where
  after_post-status :
      (url : String) (options : Fields) (r : Result (Unit {0})) (w : World) (j : Job)
      → job_at o.home c.job.id w.process.db ≡ some j
      → (w' : World) × (after_post o number c url options r w ≡ (r, w'))
        × (job_status o.home c.job.id w'.process.db ≡ some (if is_ok r then completed else failed))
        × (w'.wire ≡ w.wire)
  after_post-status url options (ok _) w j found =
      let (w', e, status, _, same_wire) =
        complete-EndsAs o c sound (triggered_text o number c url options) w j found in
      (w', e, status, same_wire)
  after_post-status url options (err x) w j found =
      let (w', e, status, _, same_wire) =
        fail-EndsAs o c sound (failed_text o number c url x) w j found in
      (w', rw e, status, same_wire)

  -- Where the statements of its reports do not fail, a webhook with a URL ends as its request does: the
  -- exception of the request is thrown on, so that the job is attempted again, and its job is completed
  -- if the request went through and failed if not. It makes the requests of that one post.
  pub webhook-post_json :
      (url : String) (w : World) (j : Job)
      → truthy_text (text_field "location" c.envelope.destination) ≡ some url
      → job_at o.home c.job.id w.process.db ≡ some j
      → let options = hook_options c.envelope.destination in
        let post =
          post_json o.net url
            (hook_body o number c options)
            (text_field "token" options)
            c.project.allowlist_hosts
            w.wire in
        (w' : World) × (webhook o number c w ≡ (post.0, w'))
        × (job_status o.home c.job.id w'.process.db
            ≡ some (if is_ok post.0 then completed else failed))
        × (w'.wire ≡ post.1)
  unfolding webhook post_hook record_event
  webhook-post_json url w j located found =
      let options = hook_options c.envelope.destination in
      let message = started_text o number c url options in
      let (r, wire) =
        post_json o.net url (hook_body o number c options) (text_field "token" options)
          c.project.allowlist_hosts w.wire in
      let (w', e, status, same_wire) =
        after_post-status url options r
          (record w {
            process = (on_db (job_event o c "job.started" message) w).process;
            wire = wire;
          })
          j found in
      (w', rw (located, start-passed o c message w (sound started), e), status, same_wire)
