-- ===== src/Edge/Push.antt =====
-- services/worker-edge/src/handlers/restPush.ts: the rows of a target table, posted in batches. The
-- table is an argument; a failure to read it is an error in its place. A batch size that is no natural
-- number is not modelled.
pub mod Counts
pub mod Ended
pub mod Endless
use Prim.Native.String.{◌++◌ as append}
use task_schedular.Prelude.{
  ℕ, zero, suc, ◌+◌, String, Bool, true, false, Option, none, some, List, [], ◌∷◌, map, take,
  length, keep, any, str_eq, ltb, if◌then◌else◌,
}
use task_schedular.Prelude.Show.{show}
use task_schedular.Prelude.Act.{Result, ok, err, error, Act, pure, throw, and_then, ◌>>=◌, ◌>>◌}
use task_schedular.Contracts.Common.{truthy_text}
use task_schedular.Contracts.Json.{Json, null, num, arr, obj, Fields, end, get_field, or_default}
use task_schedular.Csv.{row_to_source}
use task_schedular.Targets.Batches.{drop}
use task_schedular.Worker.{JobContext}
use task_schedular.Edge.Http.{post_json}
use task_schedular.Edge.{
  World, Outside, as_fields, text_field, of_list, on_wire, start, complete, fail,
}

-- A table of the target database
pub record Table : Type 0 where
  pub columns : List String
  pub rows : List Fields

abbrev pub is_null : Option Json → Bool
is_null none = true
is_null (some null) = true
is_null (some v) = false

abbrev pub is_live : Fields → Bool
is_live r = is_null (get_field "deleted_at" r)

-- The SELECT: soft-deleted rows are left out where the table has `deleted_at`.
unfoldable pub live_rows : Table → List Fields
live_rows t = if any (str_eq "deleted_at") t.columns then keep is_live t.rows else t.rows

pub record Pushed : Type 0 where
  pub pushed : ℕ
  pub failed : ℕ

-- Which of the log lines of the batches fail
pub record BatchLogs : Type 0 where
  pub pushed_fails : ℕ → Bool
  pub failed_fails : ℕ → Bool

module _ {RuleSet : Type 0} (o : Outside) (logs : BatchLogs) (text : Json → String)
    (c : JobContext RuleSet) (url : String) (size : ℕ) where
  abbrev pub push_options : Fields
  push_options = as_fields (get_field "options" c.envelope.destination)

  abbrev pub source_row : Fields → Json
  source_row r = obj (row_to_source text c.entity.mapping r end)

  -- The `catch` of a batch of `n` rows
  abbrev pub count_failed : ℕ → ℕ → Pushed → Act World Pushed
  count_failed k n counts =
      if logs.failed_fails k
      then throw (error "database")
      else pure (record counts { failed = counts.failed + n })

  -- A batch that was posted counts as such before its log line is written.
  abbrev pub count_posted : ℕ → ℕ → Pushed → Result (Unit {0}) → Act World Pushed
  count_posted k n counts (err e) = count_failed k n counts
  count_posted k n counts (ok _) =
      let counts' : Pushed = record counts { pushed = counts.pushed + n } in
      if logs.pushed_fails k then count_failed k n counts' else pure counts'

  unfoldable pub push_batch : ℕ → List Fields → Pushed → Act World Pushed
  push_batch k batch counts w =
      let (r, w') =
        on_wire o
          (post_json o.net url (arr (of_list (map source_row batch)))
            (text_field "token" push_options) c.project.allowlist_hosts)
          w in
      count_posted k (length batch) counts r w'

  -- The loop over the rows that are left, with fuel; `none` means that it has not ended.
  unfoldable pub push_batches : ℕ → ℕ → List Fields → Pushed → Act World (Option Pushed)
  unfolding push_batch
  push_batches zero k rows counts = pure none
  push_batches (suc fuel) k [] counts = pure (some counts)
  push_batches (suc fuel) k (r ∷ rs) counts =
      push_batch k (take size (r ∷ rs)) counts >>= push_batches fuel (suc k) (drop size (r ∷ rs))

  abbrev pub push_summary : ℕ → Pushed → String
  push_summary total counts = append "pushed " (
      append (show counts.pushed) (
        append "/"
          (append (show total) (append " records, " (append (show counts.failed) " failed")))))

  -- The end of the job, once the loop has ended
  unfoldable pub report_pushed : ℕ → Option Pushed → Act World (Option Pushed)
  report_pushed total none = pure none
  report_pushed total (some counts) =
      (if ltb 0 counts.failed
        then fail o c (push_summary total counts)
        else complete o c (push_summary total counts))
      >> pure (some counts)

  abbrev pub push_start : ℕ → String
  push_start total = append "rest_push " (append (show total) (append " rows → " url))

  abbrev pub push_rows : ℕ → List Fields → Act World (Option Pushed)
  push_rows fuel rows = do
    start o c (push_start (length rows))
    ended ← push_batches fuel 1 rows (record { pushed = 0; failed = 0 })
    report_pushed (length rows) ended

  abbrev pub push_table : ℕ → Result Table → Act World (Option Pushed)
  push_table fuel (err e) = throw e
  push_table fuel (ok t) = push_rows fuel (live_rows t)

-- `number` is Number(…) of the option.
module _ {RuleSet : Type 0} (o : Outside) (logs : BatchLogs) (text : Json → String)
    (number : Json → ℕ) (c : JobContext RuleSet) (table : Result Table) where
  abbrev pub batch_size : ℕ
  batch_size = number (
      or_default (get_field "batchSize" (as_fields (get_field "options" c.envelope.destination)))
        (num 50))

  abbrev pub push_to : ℕ → Option String → Act World (Option Pushed)
  push_to fuel none = throw (error "rest_push: no destination.location (API URL)")
  push_to fuel (some url) = push_table o logs text c url batch_size fuel table

  unfoldable pub rest_push : ℕ → Act World (Option Pushed)
  unfolding push_batches report_pushed live_rows
  rest_push fuel = push_to fuel (truthy_text (text_field "location" c.envelope.destination))
