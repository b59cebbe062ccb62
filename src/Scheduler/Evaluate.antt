-- ===== src/Scheduler/Evaluate.antt =====
-- services/scheduler/src/scheduler.ts. The cron library is the argument `next`: the occurrence of
-- an expression in a time zone after a time, `none` where the library throws. `iso` prints a time.
use Prim.Native.String.{◌++◌}
use task_schedular.Prelude.{
  ℕ, ◌+◌, String, Bool, true, false, Option, none, some, List, [], ◌∷◌, str_eq, keep, update_where,
  leb, if◌then◌else◌,
}
use task_schedular.Prelude.Act.{error, ok, err, Act, pure, throw, ◌>>=◌, ◌>>◌}
use task_schedular.Contracts.Common.{truthy_text}
use task_schedular.Store.{JobDefinition, one_time}
use task_schedular.Enqueue.{EnqueueInput, enqueued, skipped, Fresh, Statement}
use task_schedular.Enqueue.Cache.{Process, enqueue}

-- What a run takes from outside, for each definition: the new ids, failing reads and statements.
pub record Outside : Type 0 where
  pub now : ℕ
  pub next : String → String → ℕ → Option ℕ
  pub iso : ℕ → String
  pub fresh : String → Fresh
  pub read_fails : String → Bool
  pub fails : String → Statement → Bool
  pub update_fails : String → Bool

-- UPDATE job_definitions SET f WHERE id=$1
abbrev pub update_definition : String → (JobDefinition → JobDefinition) → Process → Process
update_definition id f s = record s {
  db = record (s.db) { definitions = update_where (λ x. str_eq x.id id) f s.db.definitions };
}

unfoldable pub idempotency_key : (ℕ → String) → String → ℕ → String
idempotency_key iso id time = "sched:" ++ (id ++ (":" ++ iso time))

unfoldable pub fire_input : (ℕ → String) → JobDefinition → ℕ → EnqueueInput
fire_input iso def time = record {
  project_id = def.project_id;
  entity = def.entity;
  type = def.type;
  idempotency_key = some (idempotency_key iso def.id time);
  source = some def.source;
  destination = some def.destination;
  rule_set_id = none;
  mapping = none;
  options = some def.options;
  priority = none;
  definition_id = some def.id;
  parameters = none;
  correlation_id = none;
}

module _ (o : Outside) where
  unfoldable pub set_definition :
      JobDefinition → (JobDefinition → JobDefinition) → Act Process (Unit {0})
  set_definition def f s =
      if o.update_fails def.id
      then (err (error "database"), s)
      else (ok tt, update_definition def.id f s)

  -- nextOccurrence(def.cron, def.timezone, now)
  unfoldable pub next_occurrence : String → JobDefinition → Act Process ℕ
  next_occurrence expression def = elim (o.next expression def.timezone o.now) [
    | none ↦ throw (error "cron")
    | some t ↦ pure t
  ]

  -- An unset next run is set from the cron expression, and nothing is fired.
  unfoldable pub initialize : JobDefinition → Act Process Bool
  initialize def = elim (truthy_text def.cron) [
    | none ↦ pure false
    | some expression ↦ do
      t ← next_occurrence expression def
      set_definition def (λ x. record x { next_run_at = some t })
      pure false
  ]

  unfoldable pub advance_cron : JobDefinition → Act Process (Unit {0})
  advance_cron def = elim (truthy_text def.cron) [
    | none ↦ pure tt
    | some expression ↦ do
      t ← next_occurrence expression def
      set_definition def (λ x. record x { last_run_at = some o.now; next_run_at = some t })
  ]

  unfoldable pub advance : JobDefinition → Act Process (Unit {0})
  advance def = elim def.schedule_kind [
    | one_time ↦
        set_definition def
          (λ x. record x { enabled = false; next_run_at = none; last_run_at = some o.now })
    | _ ↦ advance_cron def
  ]

  unfoldable pub fire : JobDefinition → ℕ → Act Process Bool
  fire def time = do
    r ← enqueue (fire_input o.iso def time) (o.fresh def.id) (o.read_fails def.id) (o.fails def.id)
    advance def
    pure (elim r [ enqueued id ↦ true | skipped ↦ false ])

  -- The body of the loop; the result says whether a job was enqueued.
  unfoldable pub visit_at : JobDefinition → Option ℕ → Act Process Bool
  visit_at def none = initialize def
  visit_at def (some time) = if leb time o.now then fire def time else pure false

  unfoldable pub visit : JobDefinition → Act Process Bool
  visit def = visit_at def def.next_run_at

  unfoldable pub visit_all : ℕ → List JobDefinition → Act Process ℕ
  visit_all fired [] = pure fired
  visit_all fired (def ∷ rows) = do
    hit ← visit def
    visit_all (if hit then fired + 1 else fired) rows

  -- The SELECT: every kind of schedule that the table's CHECK admits is asked for.
  unfoldable pub evaluate_schedules : Act Process ℕ
  evaluate_schedules s = visit_all 0 (keep (λ x. x.enabled) s.db.definitions) s
