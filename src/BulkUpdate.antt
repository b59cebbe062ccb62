-- ===== src/BulkUpdate.antt =====
-- services/worker-core/src/handlers/bulkUpdate.ts: the work on one row. The target table is a list
-- of rows with the values of the match column and of the optimistic column; what the SET clause
-- writes into a row, and the coerced values of the source row, are arguments.
pub mod Optimistic
use task_schedular.Prelude.{
  String, Bool, true, false, ◌&&◌, Option, none, some, List, any, update_where, str_eq, sql_eq,
  if◌then◌else◌,
}
use task_schedular.RowPipeline.{RowFault, RowOutcome}

pub record VersionedRow : Type 0 where
  pub key : String
  pub version : Option String
  pub payload : List (String × Option String)

-- The source row: the coerced key (NULL matches nothing), and the version read before, where the job
-- has an optimistic column and the row has its value (`some none` is NULL).
pub record Change : Type 0 where
  pub key : Option String
  pub seen_version : Option (Option String)
  pub match_col : String
  pub optimistic_col : String
  pub write : VersionedRow → VersionedRow

-- `col = ?`, where the parameter may be NULL
abbrev pub equals : Option String → Option String → Bool
equals column none = false
equals column (some v) = sql_eq column v

abbrev pub has_key : Change → VersionedRow → Bool
has_key c r = equals (some r.key) c.key

abbrev pub has_version : Option (Option String) → VersionedRow → Bool
has_version none r = true
has_version (some v) r = equals r.version v

-- The WHERE clause of the UPDATE
abbrev pub selects : Change → VersionedRow → Bool
selects c r = has_key c r && has_version c.seen_version r

abbrev pub not_updated : String → String → String → RowOutcome
not_updated column rule message = record {
  processed = false;
  error = some (record { field = some column; rule = rule; message = message });
}

-- What is reported where no row was updated: a conflict, or a missing row.
unfoldable pub unmatched : Change → List VersionedRow → RowOutcome
unmatched c table = elim c.seen_version [
  | none ↦ not_updated c.match_col "not_found" "no row with this key"
  | some v ↦
      if any (has_key c) table
      then not_updated c.optimistic_col "optimistic_conflict" "row changed since read"
      else not_updated c.match_col "not_found" "no row with this key"
]

-- The callback of runRowJob.
unfoldable pub update_target_row : Change → List VersionedRow → RowOutcome × List VersionedRow
update_target_row c table =
    if any (selects c) table
    then (record { processed = true; error = none }, update_where (selects c) c.write table)
    else (unmatched c table, table)
