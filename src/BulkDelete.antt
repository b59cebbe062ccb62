-- ===== src/BulkDelete.antt =====
-- services/worker-core/src/handlers/bulkDelete.ts: the threshold of a hard delete, and the work on
-- one row. The target table is a list of rows with the match column's value and the mark of
-- `deleted_at`; the coerced key of a source row is an argument.
pub mod DryRun
pub mod Order
use task_schedular.Prelude.{
  ℕ, String, Bool, true, false, not, ◌&&◌, Option, none, some, List, keep, any, update_where,
  str_eq, ltb, if◌then◌else◌,
}
use task_schedular.Prelude.Act.{Act, Result, ok, err, error, pure}
use task_schedular.RowPipeline.{RowFault, RowOutcome}

pub record TargetRow : Type 0 where
  pub key : String
  pub deleted : Bool

pub record DeleteOptions : Type 0 where
  pub dry_run : Bool
  pub hard : Bool
  pub confirm : Bool
  pub max_delete : ℕ
  pub soft_capable : Bool
  pub match_col : String

-- Whether the job is refused before any row is read for deletion.
unfoldable pub refuses : DeleteOptions → ℕ → Bool
refuses o count = (o.hard && not o.confirm) && ltb o.max_delete count

abbrev pub matches : String → TargetRow → Bool
matches k t = str_eq t.key k

abbrev pub live_match : String → TargetRow → Bool
live_match k t = str_eq t.key k && not t.deleted

abbrev pub outcome : Bool → RowOutcome
outcome b = record { processed = b; error = none }

abbrev pub refused_row : DeleteOptions → String → String → RowOutcome
refused_row o rule message = record {
  processed = false;
  error = some (record { field = some o.match_col; rule = rule; message = message });
}

-- SELECT … that a dry run asks instead of the DELETE or UPDATE
unfoldable pub would_delete : DeleteOptions → String → List TargetRow → RowOutcome × List TargetRow
would_delete o k table =
    (outcome (if o.soft_capable then any (live_match k) table else any (matches k) table), table)

unfoldable pub hard_delete : String → List TargetRow → RowOutcome × List TargetRow
hard_delete k table = (outcome (any (matches k) table), keep (λ t. not (matches k t)) table)

unfoldable pub soft_delete : String → List TargetRow → RowOutcome × List TargetRow
soft_delete k table = (
  outcome (any (live_match k) table),
  update_where (live_match k) (λ t. record t { deleted = true }) table,
)

-- A statement on the target that fails, for instance on a foreign key, changes nothing and throws.
abbrev pub statement :
    Bool → (List TargetRow → RowOutcome × List TargetRow) → Act (List TargetRow) RowOutcome
statement fails run table =
    if fails
    then (err (error "target"), table)
    else let (out, table') = run table in (ok out, table')

-- The callback of runRowJob; `fails` says whether its statement fails.
unfoldable pub delete_row : Bool → DeleteOptions → Option String → Act (List TargetRow) RowOutcome
unfolding would_delete hard_delete soft_delete
delete_row fails o none = pure (refused_row o "missing_key" "no delete key")
delete_row fails o (some k) =
    if o.dry_run
    then statement fails (would_delete o k)
    else if o.hard
    then statement fails (hard_delete k)
    else if o.soft_capable
    then statement fails (soft_delete k)
    else pure
        (refused_row o "no_soft_delete" "target has no deleted_at column; pass options.hardDelete")
