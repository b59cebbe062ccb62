-- ===== src/Edge/Push/Endless.antt =====
-- A push with the batch size 0.
use task_schedular.Prelude.{
  ℕ, zero, suc, String, false, none, some, List, [], ◌∷◌, length, ◌≡◌, refl,
}
use task_schedular.Prelude.Act.{ok, is_ok}
use task_schedular.Contracts.Common.{truthy_text}
use task_schedular.Contracts.Json.{Json, Fields}
use task_schedular.Worker.{JobContext}
use task_schedular.Edge.{World, Outside, Report, started, text_field, job_event}
use task_schedular.Edge.Reports.{start-passed, on_db}
use task_schedular.Edge.Push.{
  Table, Pushed, BatchLogs, live_rows, push_batches, report_pushed, batch_size, rest_push,
  push_start,
}
use task_schedular.Edge.Push.Counts.{push_batch-counted, counted, post}

module _ {RuleSet : Type 0} (o : Outside) (logs : BatchLogs) (text : Json → String)
    (c : JobContext RuleSet)
    (quiet : (k : ℕ) → (logs.pushed_fails k ≡ false) × (logs.failed_fails k ≡ false)) where
  push_batches-endless :
      (url : String) (r : Fields) (rs : List Fields) (fuel k : ℕ) (counts : Pushed) (w : World)
      → (w' : World) × (push_batches o logs text c url 0 fuel k (r ∷ rs) counts w ≡ (ok none, w'))
  unfolding push_batches
  push_batches-endless url r rs zero k counts w = (w, refl)
  push_batches-endless url r rs (suc fuel) k counts w =
      let (res, wire) = post o logs text c url 0 [] w.wire in
      let counts' = counted 0 (is_ok res) counts in
      let e = push_batch-counted o logs text c url 0 quiet k [] counts w in
      let (w', e') =
        push_batches-endless url r rs fuel (suc k) counts' (record w { wire = wire }) in
      (w', rw (e, e'))

  -- A push with the batch size 0 of a table with a live row has not ended after any number of rounds,
  -- where the statements of its reports do not fail.
  pub rest_push_endless :
      ((q : Report) → o.report_fails q ≡ false)
      → (number : Json → ℕ) (t : Table) (url : String) (r : Fields) (rs : List Fields) (w : World)
      → truthy_text (text_field "location" c.envelope.destination) ≡ some url
      → batch_size o logs text number c (ok t) ≡ 0
      → live_rows t ≡ r ∷ rs
      → (fuel : ℕ) → (rest_push o logs text number c (ok t) fuel w).0 ≡ ok none
  unfolding rest_push report_pushed
  rest_push_endless sound number t url r rs w located none_each rows fuel =
      let message = push_start o logs text c url 0 (length (r ∷ rs)) in
      let (w', e) =
        push_batches-endless url r rs fuel 1 (record { pushed = 0; failed = 0 })
          (on_db (job_event o c "job.started" message) w) in
      rw (located, none_each, rows, start-passed o c message w (sound started), e)
