-- ===== src/Edge/Pull/Staged.antt =====
-- What a pull leaves in the object store, and what the job that takes over reads of it.
use Prim.Native.String.{◌++◌ as append}
use text.Mathlib.TextLemmas.{cons-append}
use task_schedular.Prelude.{
  ℕ, ◌*◌, ◌<◌, String, true, false, some, List, [], length, ltb, ◌≡◌, refl, ap, ◌∙◌, arith,
}
use task_schedular.Prelude.Act.{ok}
use task_schedular.Contracts.Common.{bulk_insert}
use task_schedular.Contracts.Json.{Json, arr, Fields, get_field, spread}
use task_schedular.Enqueue.{envelope}
use task_schedular.Reporter.{record_event}
use task_schedular.Storage.{put_object, is_some_text, is_one_line}
use task_schedular.Storage.Urls.{has_no_slash}
use task_schedular.Worker.{JobContext}
use task_schedular.Source.{Parsers, read_rows, json_rows, parse_rows}
use task_schedular.Edge.{
  World, Outside, progress_log, started, of_list, job_event, text_field, location_of, put,
  enqueue_next, complete, next_input,
}
use task_schedular.Edge.Pull.{
  PageSize, pull_options, page_size, hand_over, pull_summary, staged_key, staged_location,
  rest_pull,
}
use task_schedular.Edge.Reports.{start-passed, on_db}
use task_schedular.Edge.Staging.{
  HandsOver, HandsOver-map, HandsOver-same, and_then-HandsOver, and_then-objects, complete-objects,
  enqueue_next-objects, read_rows-put_object,
}
use task_schedular.Edge.Pull.Complete.{Serves, pull_pages-Ends}

module _ {RuleSet : Type 0} (o : Outside) (c : JobContext RuleSet) where
  module _ (number : Json → PageSize) where
    abbrev pub staged : List Json → World → World
    staged all w = record w {
      objects =
          put_object o.default_bucket (staged_key o number c) (o.stringify (arr (of_list all)))
            w.objects;
    }

    put-stored :
        (all : List Json) (w : World)
        → o.put_fails ≡ false
        → put o o.default_bucket (staged_key o number c) (o.stringify (arr (of_list all))) w
          ≡ (ok tt, staged all w)
    unfolding put
    put-stored all w stored = ground (arith, stored)

    hand_over-objects :
        (all : List Json) (page : ℕ) (w : World)
        → o.put_fails ≡ false
        → (hand_over o number c all page w).1.objects ≡ (staged all w).objects
    unfolding hand_over
    hand_over-objects all page w stored =
        let input = next_input o c bulk_insert "json" (staged_location o number c) in
        let last = enqueue_next o input (staged all w) in
        rw (put-stored all w stored) (
          and_then-objects last.0 (λ res. complete o c (pull_summary o number c all page res))
            last.1 (λ res. complete-objects o c (pull_summary o number c all page res) last.1)
          ∙ enqueue_next-objects o c input (staged all w))

    hand_over-HandsOver :
        (all : List Json) (page : ℕ) (w : World)
        → o.put_fails ≡ false
        → HandsOver w
            (λ e.
              e ≡ envelope (next_input o c bulk_insert "json" (staged_location o number c)) o.fresh)
            (hand_over o number c all page w)
    unfolding hand_over
    hand_over-HandsOver all page w stored = rw (put-stored all w stored) (
        and_then-HandsOver o c (next_input o c bulk_insert "json" (staged_location o number c))
          (pull_summary o number c all page) (staged all w) refl)

    module _ (size : ℕ) (xs : List Json) (base : String)
        (located : location_of c.envelope.source c.job.source ≡ some base) (positive : 0 < size)
        (counts : (n : ℕ) → (page_size o number c).exceeds n ≡ ltb n size)
        (started_up : o.report_fails started ≡ false) (logged : o.report_fails progress_log ≡ false)
        (stored : o.put_fails ≡ false) (few : length xs < 1000 * size)
        (serves : Serves o.net base
          (text_field "token" (pull_options o number c))
          c.project.allowlist_hosts
          (page_size o number c)
          size
          xs) where
      -- The pull is its hand-over of all records, on a world with the same tables but for an event.
      pulls_all :
          (w : World)
          → (last : ℕ) × (w' : World) × (rest_pull o number c w ≡ hand_over o number c xs last w')
            × (w'.process.db.outbox ≡ w.process.db.outbox)
            × (w'.objects ≡ w.objects)
      unfolding rest_pull record_event
      pulls_all w =
          let message = append "rest_pull from " base in
          let w' = on_db (job_event o c "job.started" message) w in
          let none_before : 0 * size ≡ 0 = omega arith in
          let (last, wire, pulled) =
            pull_pages-Ends o base (text_field "token" (pull_options o number c))
              c.project.allowlist_hosts (page_size o number c) size xs positive counts logged serves
              1000 0 [] w' (rw none_before few) (omega arith) in
          (
            last,
            record w' { wire = wire },
            rw (located, start-passed o c message w started_up, pulled) (rw none_before refl),
            refl,
            refl,
          )

      -- An API serves a list of records, fewer than a thousand pages of a positive size. A pull of them,
      -- whose first report, log lines and write to the store go through, throws and hands nothing over,
      -- or it puts one message into the outbox, a bulk_insert of the same project, and what that reads of
      -- the store that the pull leaves is this list. The bucket and the key are fit for a URL, and
      -- JSON.parse reads what JSON.stringify wrote.
      pub rest_pull-read_rows :
          (p : Parsers)
          → p.parse_json (o.stringify (arr (of_list xs))) ≡ ok (arr (of_list xs))
          → is_some_text o.default_bucket ≡ true
          → has_no_slash o.default_bucket ≡ true
          → is_one_line (staged_key o number c) ≡ true
          → (type : String) (job_source : Fields) (w : World)
          → let r = rest_pull o number c w in
            HandsOver w
              (λ e.
                (e.type ≡ bulk_insert)
                × (e.project_id ≡ c.project.id)
                × (read_rows p type e.source job_source r.1.objects ≡ ok (arr (of_list xs))))
              r
      unfolding parse_rows json_rows get_field spread
      rest_pull-read_rows p parsed some_bucket no_slash line type job_source w =
          let (last, w', same, outbox, objects) = pulls_all w in
          let some_key : is_some_text (staged_key o number c) ≡ true =
            rw (cons-append "r" "est-pull/" (append c.job.id ".json")) in
          let text = o.stringify (arr (of_list xs)) in
          let left : (rest_pull o number c w).1.objects ≡ (staged xs w').objects =
            ap (λ t. t.1.objects) same ∙ hand_over-objects xs last w' stored in
          HandsOver-map w
            (λ e.
              e ≡ envelope (next_input o c bulk_insert "json" (staged_location o number c)) o.fresh)
            (λ e.
              (e.type ≡ bulk_insert)
              × (e.project_id ≡ c.project.id)
              × (read_rows p type e.source job_source (rest_pull o number c w).1.objects
                  ≡ ok (arr (of_list xs))))
            (rest_pull o number c w)
            (λ e own. (
              ap (λ x. x.type) own,
              ap (λ x. x.project_id) own,
              ap (λ x. read_rows p type x.source job_source (rest_pull o number c w).1.objects) own
                  ∙ (ap
                        (read_rows p type
                          (envelope (next_input o c bulk_insert "json" (staged_location o number c))
                            o.fresh).source
                          job_source)
                        left
                      ∙ (read_rows-put_object o c bulk_insert "json" (staged_key o number c)
                            some_bucket no_slash some_key line p type job_source text w'.objects
                          ∙ rw parsed)),
            ))
            (HandsOver-same w w'
              (λ e.
                e
                ≡ envelope (next_input o c bulk_insert "json" (staged_location o number c)) o.fresh)
              (rest_pull o number c w) (hand_over o number c xs last w') same outbox
              (hand_over-HandsOver xs last w' stored))
