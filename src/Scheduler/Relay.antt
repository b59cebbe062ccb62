-- ===== src/Scheduler/Relay.antt =====
-- services/scheduler/src/relay.ts: one drain of the outbox. The broker answers each publish on its
-- own; a row that another instance has locked is skipped; an UPDATE may fail, which aborts the
-- transaction. What the broker accepted stays published after a rollback.
pub mod Drains
use task_schedular.Prelude.{
  ℕ, ◌+◌, String, Bool, true, false, ◌&&◌, not, Option, none, some, List, [], ◌∷◌, str_eq, keep,
  take, update_where, leb, if◌then◌else◌,
}
use task_schedular.Prelude.Act.{error, Result, ok, err, Act, and_then}
use task_schedular.Messaging.Publisher.{Publication, Confirm, publication, confirmed, accepted}
use task_schedular.Store.{OutboxStatus, pending, sent, gave_up, OutboxRow}

-- A publication with the id of the outbox row that it came from.
pub record Sending : Type 0 where
  pub row : String
  pub message : Publication

pub record Channel : Type 0 where
  pub outbox : List OutboxRow
  pub published : List Sending

pub record Drain : Type 0 where
  pub now : ℕ
  pub batch : ℕ
  pub max_attempts : ℕ
  pub locked : String → Bool
  pub confirm : String → Confirm
  pub update_fails : String → Bool

unfoldable pub is_pending : OutboxStatus → Bool
is_pending pending = true
is_pending _ = false

unfoldable pub message_of : OutboxRow → Publication
message_of row = publication row.routing_key row.payload (record {
  delay_ms = none;
  priority = some row.payload.priority;
  message_id = some row.payload.job_id;
  correlation_id = some row.payload.correlation_id;
})

abbrev pub marked_sent : ℕ → OutboxRow → OutboxRow
marked_sent now row = record row { status = sent; sent_at = some now; attempts = row.attempts + 1 }

-- UPDATE outbox SET attempts=$2, status=$3
abbrev pub marked_failed : ℕ → ℕ → OutboxRow → OutboxRow
marked_failed max_attempts attempts row = record row {
  attempts = attempts;
  status = if leb max_attempts attempts then gave_up else pending;
}

-- A message that was handed to the broker, which accepts it or not
abbrev pub handed : OutboxRow → Bool → Channel → Channel
handed row false c = c
handed row true c = record c {
  published = record { row = row.id; message = message_of row } ∷ c.published;
}

module _ (d : Drain) where
  abbrev pub update_row : String → (OutboxRow → OutboxRow) → Channel → Result (Unit {0}) × Channel
  update_row id f c =
      if d.update_fails id
      then (err (error "database"), c)
      else (ok tt, record c { outbox = update_where (λ x. str_eq x.id id) f c.outbox })

  -- One row of the batch; the result is whether it counts as sent.
  unfoldable pub relay_row : OutboxRow → Act Channel Bool
  relay_row row c =
      let c' = handed row (accepted (d.confirm row.id)) c in
      if confirmed (d.confirm row.id)
      then (let (r, c'') = update_row row.id (marked_sent d.now) c' in
          and_then r (λ u s. (ok true, s)) c'')
      else (let (r, c'') = update_row row.id (marked_failed d.max_attempts (row.attempts + 1)) c' in
          and_then r (λ u s. (ok false, s)) c'')

  unfoldable pub relay_rows : ℕ → List OutboxRow → Act Channel ℕ
  relay_rows count [] c = (ok count, c)
  relay_rows count (row ∷ rows) c =
      let (r, c') = relay_row row c in
      and_then r (λ hit. relay_rows (if hit then count + 1 else count) rows) c'

  -- SELECT … WHERE status = 'pending' … FOR UPDATE SKIP LOCKED LIMIT batch
  unfoldable pub selected : List OutboxRow → List OutboxRow
  selected outbox = take d.batch (keep (λ x. is_pending x.status && not (d.locked x.id)) outbox)

  -- The transaction: a throw restores the table, and not what was published.
  unfoldable pub tick : Act Channel ℕ
  tick c =
      let (r, c') = relay_rows 0 (selected c.outbox) c in
      elim r [ ok n ↦ (ok n, c') | err e ↦ (err e, record c' { outbox = c.outbox }) ]
