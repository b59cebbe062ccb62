-- ===== src/Edge/Staging.antt =====
-- Records that a handler stages, and what the job that takes over reads of them.
use text.Mathlib.TextLemmas.{cons-append}
use task_schedular.Prelude.{
  String, Bool, true, false, some, List, [], ◌∷◌, ◌++◌, ◌≡◌, ◌⊎◌, inl, inr, ap, ◌∙◌, none, refl,
  arith, if◌then◌else◌,
}
use task_schedular.Prelude.Act.{Result, ok, err, Act, and_then, is_ok}
use task_schedular.Contracts.Envelope.{JobEnvelope}
use task_schedular.Store.{OutboxRow}
use task_schedular.Reporter.{complete_job, record_event}
use task_schedular.Contracts.Common.{JobType, truthy_text}
use task_schedular.Contracts.Json.{Fields, get_field, spread}
use task_schedular.Enqueue.{EnqueueInput, EnqueueResult, envelope, outbox_row, routing_key_of}
use task_schedular.Enqueue.Atomic.{enqueue_job_without_key}
use task_schedular.Enqueue.Cache.{tier_used, enqueue-cases}
use task_schedular.Storage.{
  Object, put_object, parse_s3_url, s3_path, s3_url, is_some_text, is_one_line,
}
use task_schedular.Storage.Urls.{parse_s3_url_iff, has_no_slash, get_object_text-put_object}
use task_schedular.Worker.{JobContext}
use task_schedular.Source.{Parsers, read_rows, parse_rows}
use task_schedular.Edge.{
  World, Outside, location_of, report, log, enqueue_next, complete, next_input,
}

if_same {ℓ} : {A : Type ℓ} (b : Bool) (x : A) → (if b then x else x) ≡ x
if_same true x = refl
if_same false x = refl

pub and_then-objects {ℓ} :
    {A : Type ℓ} (r : Result A) (f : A → Act World (Unit {0})) (w : World)
    → ((a : A) → (f a w).1.objects ≡ w.objects)
    → (and_then r f w).1.objects ≡ w.objects
and_then-objects (ok a) f w h = h a
and_then-objects (err e) f w h = refl

-- The run throws and hands nothing over, or it has put one more message into the outbox, for which P holds.
abbrev pub HandsOver : World → (JobEnvelope → Type 0) → Result (Unit {0}) × World → Type 0
HandsOver w P r =
    (is_ok r.0 ≡ false) × (r.1.process.db.outbox ≡ w.process.db.outbox)
    ⊎ ((row : OutboxRow) × (r.1.process.db.outbox ≡ w.process.db.outbox ++ row ∷ [])
        × P row.payload)

pub HandsOver-map :
    (w : World) (P Q : JobEnvelope → Type 0) (r : Result (Unit {0}) × World)
    → ((e : JobEnvelope) → P e → Q e)
    → HandsOver w P r
    → HandsOver w Q r
HandsOver-map w P Q r f (inl none_handed) = inl none_handed
HandsOver-map w P Q r f (inr (row, e, h)) = inr (row, e, f row.payload h)

pub HandsOver-same :
    (w w' : World) (P : JobEnvelope → Type 0) (r r' : Result (Unit {0}) × World)
    → r ≡ r'
    → w'.process.db.outbox ≡ w.process.db.outbox
    → HandsOver w' P r'
    → HandsOver w P r
HandsOver-same w w' P r r' e same (inl (thrown, nothing)) =
    inl (ap (λ t. is_ok t.0) e ∙ thrown, ap (λ t. t.1.process.db.outbox) e ∙ nothing ∙ same)
HandsOver-same w w' P r r' e same (inr (row, grown, h)) =
    inr (row, ap (λ t. t.1.process.db.outbox) e ∙ grown ∙ ap (λ l. l ++ row ∷ []) same, h)

module _ {RuleSet : Type 0} (o : Outside) (c : JobContext RuleSet) where
  pub complete-objects :
      (summary : String) (w : World) → (complete o c summary w).1.objects ≡ w.objects
  unfolding complete report log
  complete-objects summary w = ground arith

  pub enqueue_next-objects :
      (input : EnqueueInput) (w : World) → (enqueue_next o input w).1.objects ≡ w.objects
  unfolding enqueue_next
  enqueue_next-objects input w = refl

  complete-outbox :
      (summary : String) (w : World)
      → (complete o c summary w).1.process.db.outbox ≡ w.process.db.outbox
  unfolding complete report log complete_job record_event
  complete-outbox summary w = ground arith

  enqueue_next-cases :
      (input : EnqueueInput) (w : World)
      → input.idempotency_key ≡ none
      → let (r, w') = enqueue_next o input w in
        (is_ok r ≡ false) × (w'.process.db.outbox ≡ w.process.db.outbox)
        ⊎ ((row : OutboxRow) × (w'.process.db.outbox ≡ w.process.db.outbox ++ row ∷ [])
            × (row.payload ≡ envelope input o.fresh))
  unfolding enqueue_next
  enqueue_next-cases input w no_key =
      let i = tier_used o.fresh.now input.project_id w.process in
      elim (enqueue-cases input o.fresh o.tier_fails o.statement_fails w.process) [
        | inr (thrown, same) ↦ inl (thrown, ap (λ d. d.outbox) same)
        | inl (result, left) ↦
            elim (enqueue_job_without_key input i o.fresh o.statement_fails w.process.db no_key) [
              | inr (thrown, same) ↦ inl (rw result thrown, ap (λ d. d.outbox) (left ∙ same))
              | inl written ↦ inr (
                outbox_row input o.fresh (routing_key_of input i),
                ap (λ d. d.outbox) (left ∙ written),
                refl,
              )
            ]
      ]

  -- An enqueue without a key, and the end of the job, of which neither touches the outbox any more
  pub and_then-HandsOver :
      (input : EnqueueInput) (summary : EnqueueResult → String) (w : World)
      → input.idempotency_key ≡ none
      → let (r, w') = enqueue_next o input w in
        HandsOver w
          (λ e. e ≡ envelope input o.fresh)
          (and_then r (λ res. complete o c (summary res)) w')
  and_then-HandsOver input summary w no_key =
      let (r, w') = enqueue_next o input w in finished r w' (enqueue_next-cases input w no_key)
    where
      finished :
          (r : Result EnqueueResult) (w' : World)
          → (is_ok r ≡ false) × (w'.process.db.outbox ≡ w.process.db.outbox)
            ⊎ ((row : OutboxRow) × (w'.process.db.outbox ≡ w.process.db.outbox ++ row ∷ [])
                × (row.payload ≡ envelope input o.fresh))
          → HandsOver w
              (λ e. e ≡ envelope input o.fresh)
              (and_then r (λ res. complete o c (summary res)) w')
      finished (ok res) w' (inl (thrown, same)) = cc thrown
      finished (err e) w' (inl (thrown, same)) = inl (refl, same)
      finished (ok res) w' (inr (row, grown, own)) =
          inr (row, complete-outbox (summary res) w' ∙ grown, own)
      finished (err e) w' (inr (row, grown, own)) = inr (row, grown, own)

  -- The source of the job that takes over
  abbrev pub next_source : JobType → String → String → Fields
  next_source type kind key =
      (envelope (next_input o c type kind (s3_url o.default_bucket key)) o.fresh).source

  module _ (type : JobType) (kind key : String) (some_bucket : is_some_text o.default_bucket ≡ true)
      (no_slash : has_no_slash o.default_bucket ≡ true) (some_key : is_some_text key ≡ true)
      (line : is_one_line key ≡ true) where
    -- What that job reads is what the parser of its kind makes of the staged text.
    pub read_rows-put_object :
        (p : Parsers) (name : String) (job_source : Fields) (text : String) (objects : List Object)
        → let source = next_source type kind key in
          let objects' = put_object o.default_bucket key text objects in
          read_rows p name source job_source objects'
          ≡ parse_rows p name source job_source objects' (ok text)
    unfolding read_rows get_field spread location_of
    read_rows-put_object p name job_source text objects =
        let url = s3_url o.default_bucket key in
        let found : parse_s3_url url ≡ ok (o.default_bucket, key) =
          (parse_s3_url_iff url o.default_bucket key).1
            (refl, some_bucket, no_slash, some_key, line) in
        let located : truthy_text (some url) ≡ some url =
          rw (cons-append "s" "3://" (s3_path o.default_bucket key)) in
        rw (located, found, get_object_text-put_object o.default_bucket key text objects)
          (if_same _ _)
