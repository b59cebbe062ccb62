-- ===== src/Scheduler/Fires.antt =====
-- What the schedule evaluation fires: the jobs it writes, and no occurrence twice.
use task_schedular.Prelude.{
  ℕ, ◌+◌, ◌≤◌, ◌≡◌, ◌≢◌, ◌⊎◌, ◌∙◌, refl, sym, ap, Bool, true, false, Option, none, some, List, [],
  ◌∷◌, arith, length, keep, if◌then◌else◌,
}
use mathlib.Core.Path.{subst₂}
use task_schedular.Prelude.Act.{Result, ok, err, is_ok, and_then}
use task_schedular.Store.{JobDefinition, Home, Job, Db}
use task_schedular.Enqueue.{
  EnqueueInput, enqueued, skipped, Fresh, Statement, job_row, home_of, key_taken,
}
use task_schedular.Enqueue.Atomic.{enqueue_job-atomic}
use task_schedular.Enqueue.Once.{enqueue_job_taken, key_taken_of_job_row}
use task_schedular.Enqueue.Cache.{Process, enqueue, tier_used, enqueue-cases}
use task_schedular.Scheduler.Evaluate.{
  Outside, idempotency_key, fire_input, set_definition, next_occurrence, initialize, advance_cron,
  advance, fire, visit, visit_at, visit_all, evaluate_schedules,
}

-- The jobs after an enqueue: the new row on top with an id returned, the same with none.
enqueue-jobs :
    (input : EnqueueInput) (f : Fresh) (read_fails : Bool) (fails : Statement → Bool) (s : Process)
    → let (r, s') = enqueue input f read_fails fails s in
      (r ≡ ok (enqueued f.uuid))
        × (s'.db.jobs ≡ job_row input f (home_of (tier_used f.now input.project_id s)) ∷ s.db.jobs)
      ⊎ (r ≡ ok skipped) × (s'.db.jobs ≡ s.db.jobs)
      ⊎ (is_ok r ≡ false) × (s'.db.jobs ≡ s.db.jobs)
enqueue-jobs input f read_fails fails s = ground (
  arith,
  enqueue-cases input f read_fails fails s,
  enqueue_job-atomic input (tier_used f.now input.project_id s) f fails s.db,
)

enqueue_taken :
    (input : EnqueueInput) (f : Fresh) (read_fails : Bool) (fails : Statement → Bool) (s : Process)
    → key_taken input f
        (home_of (tier_used f.now input.project_id s))
        input.idempotency_key
        s.db.jobs
      ≡ true
    → let (r, s') = enqueue input f read_fails fails s in
      (r ≢ ok (enqueued f.uuid)) × (s'.db.jobs ≡ s.db.jobs)
enqueue_taken input f read_fails fails s taken =
    let (no_id, same) =
      enqueue_job_taken input (tier_used f.now input.project_id s) f fails s.db taken in
    ground (arith, enqueue-cases input f read_fails fails s, no_id f.uuid, same)

module _ (o : Outside) where
  jobs-initialize :
      (def : JobDefinition) (s : Process)
      → ((initialize o def s).1.db.jobs ≡ s.db.jobs)
        × (((initialize o def s).0 ≡ ok false) ⊎ (is_ok (initialize o def s).0 ≡ false))
  unfolding initialize next_occurrence set_definition
  jobs-initialize def s = ground arith

  jobs-advance : (def : JobDefinition) (s : Process) → (advance o def s).1.db.jobs ≡ s.db.jobs
  unfolding advance advance_cron next_occurrence set_definition
  jobs-advance def s = ground arith

  -- What a visit of one definition does to the jobs.
  abbrev Visited : Process → Result Bool × Process → Type 0
  Visited s (r, s') =
      (r ≡ ok true) × (length s'.db.jobs ≡ length s.db.jobs + 1)
      ⊎ (r ≡ ok false) × (length s'.db.jobs ≡ length s.db.jobs)
      ⊎ (is_ok r ≡ false) × (length s.db.jobs ≤ length s'.db.jobs)

  fire-Visited : (def : JobDefinition) (time : ℕ) (s : Process) → Visited s (fire o def time s)
  unfolding fire
  fire-Visited def time s =
      let run =
        enqueue (fire_input o.iso def time) (o.fresh def.id) (o.read_fails def.id) (o.fails def.id)
          s in
      ground (
        arith,
        enqueue-jobs (fire_input o.iso def time) (o.fresh def.id) (o.read_fails def.id)
            (o.fails def.id) s,
        jobs-advance def run.1,
        ap (length {A = Job}) (jobs-advance def run.1),
      )

  visit-Visited :
      (def : JobDefinition) (time : Option ℕ) (s : Process) → Visited s (visit_at o def time s)
  unfolding visit_at
  visit-Visited def none s =
      let (jobs, r) = jobs-initialize def s in ground (arith, ap (length {A = Job}) jobs)
  visit-Visited def (some time) s = ground (arith, fire-Visited def time s)

  -- The loop, whatever it meets on the way: a result counts the new jobs.
  abbrev Counted : ℕ → Process → Result ℕ × Process → Type 0
  Counted fired s (r, s') =
      ((n : ℕ) → r ≡ ok n → length s'.db.jobs + fired ≡ length s.db.jobs + n)
      × (length s.db.jobs ≤ length s'.db.jobs)

  count_next :
      (fired : ℕ) (rows : List JobDefinition) (s : Process) (v : Result Bool × Process)
      → ((f : ℕ) (s' : Process) → Counted f s' (visit_all o f rows s'))
      → Visited s v
      → Counted fired s
          (and_then v.0 (λ hit. visit_all o (if hit then fired + 1 else fired) rows) v.1)
  count_next fired rows s (ok true, s') ih h =
      let (total, more) = ih (fired + 1) s' in
      let one : length s'.db.jobs ≡ length s.db.jobs + 1 = ground arith in
      ((λ n e. omega (arith, total n e, one)), omega (arith, more, one))
  count_next fired rows s (ok false, s') ih h =
      let (total, more) = ih fired s' in
      let none_new : length s'.db.jobs ≡ length s.db.jobs = ground arith in
      ((λ n e. omega (arith, total n e, none_new)), omega (arith, more, none_new))
  count_next fired rows s (err e, s') ih h = ((λ n e'. ground arith), ground arith)

  visit_all-Counted :
      (fired : ℕ) (rows : List JobDefinition) (s : Process)
      → Counted fired s (visit_all o fired rows s)
  unfolding visit_all visit
  visit_all-Counted fired [] s = ((λ n e. ground arith), omega arith)
  visit_all-Counted fired (def ∷ rows) s =
      count_next fired rows s (visit_at o def def.next_run_at s)
        (λ f s'. visit_all-Counted f rows s') (visit-Visited def def.next_run_at s)

counted_run :
    (o : Outside) (s : Process)
    → let (r, s') = evaluate_schedules o s in
      ((n : ℕ) → r ≡ ok n → length s'.db.jobs ≡ length s.db.jobs + n)
      × (length s.db.jobs ≤ length s'.db.jobs)
unfolding evaluate_schedules
counted_run o s =
    let (total, more) = visit_all-Counted o 0 (keep (λ x. x.enabled) s.db.definitions) s in
    ((λ n e. omega (arith, total n e)), more)

-- A run of the schedule evaluation that returns a number has written that many jobs.
pub evaluate_schedules_counts :
    (o : Outside) (s : Process) (n : ℕ)
    → (evaluate_schedules o s).0 ≡ ok n
    → length (evaluate_schedules o s).1.db.jobs ≡ length s.db.jobs + n
evaluate_schedules_counts o s n h = (counted_run o s).0 n h

-- The home that a firing of a definition enqueues into.
abbrev pub fire_home : Outside → JobDefinition → Process → Home
fire_home o def s = home_of (tier_used (o.fresh def.id).now def.project_id s)

fired_row :
    (o : Outside) (def : JobDefinition) (time : ℕ) (s : Process)
    → (fire o def time s).0 ≡ ok true
    → (fire o def time s).1.db.jobs
      ≡ job_row (fire_input o.iso def time) (o.fresh def.id) (fire_home o def s) ∷ s.db.jobs
unfolding fire fire_input
fired_row o def time s won =
    let input = fire_input o.iso def time in
    let run = enqueue input (o.fresh def.id) (o.read_fails def.id) (o.fails def.id) s in
    ground (
      arith,
      enqueue-jobs input (o.fresh def.id) (o.read_fails def.id) (o.fails def.id) s,
      jobs-advance o def run.1,
    )

fire_taken :
    (o : Outside) (def : JobDefinition) (time : ℕ) (s : Process)
    → key_taken
        (fire_input o.iso def time)
        (o.fresh def.id)
        (fire_home o def s)
        (some (idempotency_key o.iso def.id time))
        s.db.jobs
      ≡ true
    → ((fire o def time s).1.db.jobs ≡ s.db.jobs) × ((fire o def time s).0 ≢ ok true)
unfolding fire fire_input
fire_taken o def time s held =
    let input = fire_input o.iso def time in
    let (no_id, jobs) =
      enqueue_taken input (o.fresh def.id) (o.read_fails def.id) (o.fails def.id) s held in
    let run = enqueue input (o.fresh def.id) (o.read_fails def.id) (o.fails def.id) s in
    ground (
      arith,
      no_id,
      jobs,
      jobs-advance o def run.1,
      enqueue-jobs input (o.fresh def.id) (o.read_fails def.id) (o.fails def.id) s,
    )

-- Once an occurrence of a definition has been fired, another firing of that occurrence (by this or
-- another leader, from whatever copy of the row, with whatever failures) on the database that the
-- first left behind writes no job and counts none, provided that it goes by the same schema.
pub fire_at_most_once :
    (o o' : Outside) (def def' : JobDefinition) (time : ℕ) (s s' : Process)
    → o'.iso ≡ o.iso
    → def'.id ≡ def.id
    → (fire o def time s).0 ≡ ok true
    → s'.db ≡ (fire o def time s).1.db
    → fire_home o' def' s' ≡ fire_home o def s
    → ((fire o' def' time s').1.db.jobs ≡ s'.db.jobs) × ((fire o' def' time s').0 ≢ ok true)
unfolding fire_input
fire_at_most_once o o' def def' time s s' same_iso same_id won same_db same_home =
    let first = fire_input o.iso def time in
    let again = fire_input o'.iso def' time in
    let k = idempotency_key o.iso def.id time in
    let same_key : idempotency_key o'.iso def'.id time ≡ k = cc in
    let rows : s'.db.jobs ≡ job_row first (o.fresh def.id) (fire_home o def s) ∷ s.db.jobs =
      ap (λ (db : Db). db.jobs) same_db ∙ fired_row o def time s won in
    let held =
      key_taken_of_job_row first again (fire_home o def s) (o.fresh def.id) (o'.fresh def'.id)
        s.db.jobs k refl (ap some same_key) in
    fire_taken o' def' time s' (
      subst₂
        (λ (h : Home) (js : List Job).
          key_taken again (o'.fresh def'.id) h (some (idempotency_key o'.iso def'.id time)) js
          ≡ true)
        (sym same_home) (sym rows) held)
