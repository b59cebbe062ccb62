-- ===== src/Edge/Inbound/Staged.antt =====
-- What the job that takes over a file reads of it.
use Prim.Native.String.{◌++◌ as append}
use text.Mathlib.TextLemmas.{cons-append}
use task_schedular.Prelude.{String, true, false, some, ◌≡◌, ◌∙◌, refl, ap, subst, sym}
use task_schedular.Prelude.Act.{ok}
use task_schedular.Contracts.Json.{Fields, str, get_field, spread}
use task_schedular.Storage.{
  put_object, get_object_text, parse_s3_url, s3_path, behind, is_some_text, is_one_line,
}
use task_schedular.Storage.Urls.{parse_s3_url_iff, has_no_slash, behind-append}
use task_schedular.Worker.{JobContext}
use task_schedular.Source.{Parsers, read_rows, parse_rows}
use task_schedular.Edge.{
  World, Outside, started, progress_log, job_event, location_of, enqueue_next, complete, next_input,
}
use task_schedular.Edge.Reports.{put-passed, log-passed, start-passed, fetch_object-found, on_db}
use task_schedular.Enqueue.{envelope}
use task_schedular.Reporter.{record_event}
use task_schedular.Edge.Staging.{
  HandsOver, HandsOver-map, HandsOver-same, and_then-HandsOver, and_then-objects, complete-objects,
  enqueue_next-objects, read_rows-put_object,
}
use task_schedular.Edge.Inbound.{
  extension, staged_file, staged_url, import_type, import_kind, inbound_summary, stage_file,
  file_inbound,
}

module _ {RuleSet : Type 0} (o : Outside) (lower : String → String) (c : JobContext RuleSet)
    (logged : o.report_fails progress_log ≡ false) (stored : o.put_fails ≡ false) where
  abbrev staged : String → String → World → World
  staged ext text w = record w {
    objects = put_object o.default_bucket (staged_file o lower c ext) text w.objects;
  }

  stage_file-objects :
      (ext text : String) (w : World)
      → (stage_file o lower c ext text w).1.objects ≡ (staged ext text w).objects
  unfolding stage_file
  stage_file-objects ext text w =
      let input = next_input o c (import_type ext) (import_kind ext) (staged_url o lower c ext) in
      let last = enqueue_next o input (staged ext text w) in
      rw
        (
          put-passed o o.default_bucket (staged_file o lower c ext) text w stored,
          log-passed o progress_log (staged ext text w) logged,
        )
        (and_then-objects last.0 (λ res. complete o c (inbound_summary o lower c ext res)) last.1
            (λ res. complete-objects o c (inbound_summary o lower c ext res) last.1)
          ∙ enqueue_next-objects o c input (staged ext text w))

  stage_file-HandsOver :
      (ext text : String) (w : World)
      → HandsOver w
          (λ e.
            e
            ≡ envelope
                (next_input o c (import_type ext) (import_kind ext) (staged_url o lower c ext))
                o.fresh)
          (stage_file o lower c ext text w)
  unfolding stage_file
  stage_file-HandsOver ext text w =
      rw
        (
          put-passed o o.default_bucket (staged_file o lower c ext) text w stored,
          log-passed o progress_log (staged ext text w) logged,
        )
        (and_then-HandsOver o c
          (next_input o c (import_type ext) (import_kind ext) (staged_url o lower c ext))
          (inbound_summary o lower c ext) (staged ext text w) refl)

  module _ (url b k text : String) (located : location_of c.envelope.source c.job.source ≡ some url)
      (accepted : parse_s3_url url ≡ ok (b, k)) (begun : o.report_fails started ≡ false)
      (readable : o.get_fails ≡ false) where
    -- The handler is its staging of the file, on a world with the same tables but for an event.
    fetches :
        (w : World)
        → get_object_text b k w.objects ≡ ok text
        → (w' : World) × (file_inbound o lower c w
            ≡ stage_file o lower c (extension o lower c k) text w')
          × (w'.process.db.outbox ≡ w.process.db.outbox)
          × (w'.objects ≡ w.objects)
    unfolding file_inbound record_event
    fetches w found =
        let message = append "file_inbound fetching " url in
        let w' = on_db (job_event o c "job.started" message) w in
        (
          w',
          rw
              (
                located,
                start-passed o c message w begun,
                log-passed o progress_log w' logged,
                of_storage,
                accepted,
                fetch_object-found o b k text w' readable found,
              )
              refl,
          refl,
          refl,
        )
      where
        of_storage : behind "s3://" url ≡ some (s3_path b k)
        of_storage =
            let (e, _, _, _, _) = (parse_s3_url_iff url b k).0 accepted in
            rw e (behind-append "s3://" (s3_path b k))

    -- A file that is in the store is staged, where the first report, the log lines, the read and the write
    -- go through. The handler then throws and hands nothing over, or it puts one message into the outbox,
    -- an import of the same project and of the type of the file's extension, and what that reads of the
    -- store that the handler leaves is what the parser of the extension's kind makes of the text of the
    -- file. The bucket and the key are fit for a URL.
    pub file_inbound-read_rows :
        is_some_text o.default_bucket ≡ true
        → has_no_slash o.default_bucket ≡ true
        → is_one_line (staged_file o lower c (extension o lower c k)) ≡ true
        → (p : Parsers) (name : String) (job_source : Fields) (w : World)
        → get_object_text b k w.objects ≡ ok text
        → let ext = extension o lower c k in
          let r = file_inbound o lower c w in
          HandsOver w
            (λ e.
              (e.type ≡ import_type ext)
              × (e.project_id ≡ c.project.id)
              × (get_field "kind" e.source ≡ some (str (import_kind ext)))
              × (read_rows p name e.source job_source r.1.objects
                  ≡ parse_rows p name e.source job_source r.1.objects (ok text)))
            r
    unfolding get_field spread
    file_inbound-read_rows some_bucket no_slash line p name job_source w found =
        let ext = extension o lower c k in
        let (w', same, outbox, objects) = fetches w found in
        let some_key : is_some_text (staged_file o lower c ext) ≡ true =
          rw (cons-append "i" "nbound-staged/" (append c.job.id (append "." ext))) in
        let input = next_input o c (import_type ext) (import_kind ext) (staged_url o lower c ext) in
        let after = (file_inbound o lower c w).1.objects in
        let left : after ≡ (staged ext text w').objects =
          ap (λ t. t.1.objects) same ∙ stage_file-objects ext text w' in
        let source = (envelope input o.fresh).source in
        let reads : read_rows p name source job_source after
            ≡ parse_rows p name source job_source after (ok text) =
          subst
            (λ objects'.
              read_rows p name source job_source objects'
              ≡ parse_rows p name source job_source objects' (ok text))
            (sym left)
            (read_rows-put_object o c (import_type ext) (import_kind ext)
              (staged_file o lower c ext) some_bucket no_slash some_key line p name job_source text
              w'.objects) in
        HandsOver-map w (λ e. e ≡ envelope input o.fresh)
          (λ e.
            (e.type ≡ import_type ext)
            × (e.project_id ≡ c.project.id)
            × (get_field "kind" e.source ≡ some (str (import_kind ext)))
            × (read_rows p name e.source job_source after
                ≡ parse_rows p name e.source job_source after (ok text)))
          (file_inbound o lower c w)
          (λ e own. (
            ap (λ x. x.type) own,
            ap (λ x. x.project_id) own,
            ap (λ x. get_field "kind" x.source) own ∙ refl,
            subst
                (λ x.
                  read_rows p name x.source job_source after
                  ≡ parse_rows p name x.source job_source after (ok text))
                (sym own) reads,
          ))
          (HandsOver-same w w' (λ e. e ≡ envelope input o.fresh) (file_inbound o lower c w)
            (stage_file o lower c ext text w') same outbox (stage_file-HandsOver ext text w'))
