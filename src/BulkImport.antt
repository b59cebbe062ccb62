-- ===== src/BulkImport.antt =====
-- services/worker-core/src/handlers/bulkImport.ts: the work on a chunk of source rows (validation,
-- then multi-row INSERTs into the staging table, row by row where one fails). The staging table is a
-- list of its rows, the last one first; what the database reports for the INSERT of a row into a
-- table, and what it stores of a value in a column, are arguments. A statement that fails changes
-- nothing.
pub mod Lookups
pub mod Run
pub mod Staging
pub mod Statements
use Prim.Native.String.{◌++◌ as append}
use task_schedular.Prelude.{
  ℕ, zero, suc, ◌+◌, ◌-◌, ◌*◌, ◌/◌, String, Bool, true, false, not, ◌&&◌, ◌||◌, Option, none, some,
  List, [], ◌∷◌, ◌++◌, max, min, length, if◌then◌else◌, str_eq,
}
use task_schedular.Prelude.Act.{Act, Result, ok, err, error, pure, throw, ◌>>◌, ◌>>=◌}
use task_schedular.Contracts.Json.{Json, Fields, get_field}
use task_schedular.RowPipeline.{RowFault, Evaluation, RowError, Work, reject}
use task_schedular.Targets.{DbError, Dialect}
use task_schedular.Targets.Promotion.{Cells}
use task_schedular.Targets.Batches.{slices}

pub record Staged : Type 0 where
  pub row_number : ℕ
  pub cells : Cells
  pub source : Fields

-- What the handler fixes before the chunks: the dialect, the mapping from source fields to columns,
-- the unique columns joined by commas, the rule set's verdict, the stored form of a value in a
-- column, and the answer to an INSERT of a row.
pub record Plan : Type 0 where
  pub dialect : Dialect
  pub mapping : List (String × String)
  pub unique_columns : Option String
  pub evaluate : Fields → Evaluation
  pub stored : Option Json → String → Option String
  pub fault : Staged → List Staged → Option DbError

abbrev pub Chunking : Type 0
Chunking = Work (List Staged)

abbrev pub row_cells :
    (Option Json → String → Option String) → List (String × String) → Fields → Cells
row_cells stored [] value = []
row_cells stored ((src, tgt) ∷ m) value =
    (tgt, stored (get_field src value) tgt) ∷ row_cells stored m value

-- Rows per statement, so that the bound parameters stay below the dialect's limit; each row has a
-- parameter for its number and one for each column.
unfoldable pub rows_per_statement : Dialect → ℕ → ℕ
rows_per_statement d columns = max 1 (min 1000 ((d.max_bind_params - 1) / (columns + 1)))

abbrev pub as_fault : Option String → String → String → RowFault
as_fault column rule message = record { field = column; rule = rule; message = message }

-- A multi-row INSERT: all rows, or none and the first error.
pub data Inserted : Type 0 where
  inserted : List Staged → Inserted
  refused : DbError → Inserted

module _ (p : Plan) where
  -- Phase 1 on one row, before the others
  abbrev pub add_valid : ℕ → Fields → List Staged × Chunking → List Staged × Chunking
  add_valid n source (valid, w) =
      let e = p.evaluate source in
      if e.valid
      then (
        record { row_number = n; cells = row_cells p.stored p.mapping e.value; source = source }
            ∷ valid,
        w,
      )
      else (valid, reject n source e.errors w)

  -- Phase 1: the rows that pass, in reverse order, and the errors of the others
  unfoldable pub validate : ℕ → List Fields → List Staged × Chunking → List Staged × Chunking
  validate n [] s = s
  validate n (r ∷ rs) s = validate (suc n) rs (add_valid n r s)

  unfoldable pub insert_rows : List Staged → List Staged → Inserted
  insert_rows [] st = inserted st
  insert_rows (r ∷ rs) st =
      let rest = insert_rows rs (r ∷ st) in elim (p.fault r st) [ none ↦ rest | some e ↦ refused e ]

  -- The INSERT of one row, and what is recorded when it is refused
  unfoldable pub stage_row : Staged → Act Chunking (Unit {0})
  stage_row r w = elim (p.fault r w.target) [
    | none ↦ (ok tt, record w { target = r ∷ w.target; processed = w.processed + 1 })
    | some e ↦
        if p.dialect.is_unique_violation e
        then (
          ok tt,
          reject r.row_number r.source
              (as_fault p.unique_columns "unique" "duplicate business key (DB-enforced)" ∷ []) w,
        )
        else if p.dialect.is_data_error e
        then (ok tt, reject r.row_number r.source (as_fault none "data_error" e.message ∷ []) w)
        else (err (error e.message), w)
  ]

  unfoldable pub stage_each : List Staged → Act Chunking (Unit {0})
  unfolding stage_row
  stage_each [] = pure tt
  stage_each (r ∷ rs) = stage_row r >> stage_each rs

  -- One slice: in one statement, or row by row if that statement reports an error of the data
  unfoldable pub stage_slice : List Staged → Act Chunking (Unit {0})
  unfolding insert_rows stage_each
  stage_slice rows w = elim (insert_rows rows w.target) [
    | inserted st ↦ (ok tt, record w { target = st; processed = w.processed + length rows })
    | refused e ↦
        if not (p.dialect.is_unique_violation e) && not (p.dialect.is_data_error e)
        then (err (error e.message), w)
        else stage_each rows w
  ]

  unfoldable pub stage_slices : List (List Staged) → Act Chunking (Unit {0})
  unfolding stage_slice
  stage_slices [] = pure tt
  stage_slices (rows ∷ more) = stage_slice rows >> stage_slices more

  -- Phase 2
  unfoldable pub stage_valid : List Staged → Act Chunking (Unit {0})
  unfolding stage_slices
  stage_valid rows = stage_slices (slices (rows_per_statement p.dialect (length p.mapping)) rows)

abbrev reverse_onto : List Staged → List Staged → List Staged
reverse_onto [] ys = ys
reverse_onto (x ∷ xs) ys = reverse_onto xs (x ∷ ys)

-- The work on a chunk whose first row has the number `n`
unfoldable pub process_chunk : Plan → ℕ → List Fields → Act Chunking (Unit {0})
unfolding validate stage_valid
process_chunk p n rows w =
    let (valid, w') = validate p n rows ([], w) in stage_valid p (reverse_onto valid []) w'
