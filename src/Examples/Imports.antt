-- ===== src/Examples/Imports.antt =====
-- The theorems on bulk imports and target databases at concrete inputs.
use task_schedular.Prelude.{
  ◌⊎◌, inr, ℕ, String, true, false, Option, none, some, List, [], ◌∷◌, any, length, ◌==◌, ◌≡◌, refl,
  arith, inl, All, if◌then◌else◌, ◌≤◌,
}
use task_schedular.Prelude.Act.{ok}
use task_schedular.Contracts.Json.{Json, Fields, field, str, end, get_field}
use task_schedular.Targets.{DbError, postgres, sqlserver}
use task_schedular.Targets.Promotion.{Cells, clash, promote_on_conflict}
use task_schedular.Targets.Batches.{delete_staging_rows}
use task_schedular.BulkImport.{
  Staged, Plan, Chunking, stage_valid, stage_each, rows_per_statement, process_chunk,
}
use task_schedular.BulkImport.Staging.{Alike, stage_valid-each}
use task_schedular.BulkImport.Statements.{
  placeholders, tuples_text, statement_params, tuples_text-fits,
}
use task_schedular.RowPipeline.{chunks}
use task_schedular.Targets.Batches.{slices}
use task_schedular.BulkImport.Lookups.{column_of, Lookup, enforce_lookups, dangling_any}
use task_schedular.BulkImport.Lookups.Resolved.{enforce_lookups-resolved}
use task_schedular.BulkImport.Run.{Import, Site, empty_work, bulk_import}
use task_schedular.BulkImport.Run.Outcome.{bulk_import-untouched}

abbrev customer : String → String → Fields
customer code country = field "code" (str code) (field "country" (str country) end)

abbrev stored : Option Json → String → Option String
stored (some (str s)) column = some s
stored v column = none

abbrev staged : ℕ → String → String → Staged
staged n code country = record {
  row_number = n;
  cells = ("code", some code) ∷ ("country", some country) ∷ [];
  source = customer code country;
}

abbrev duplicate : DbError
duplicate = record { code = "23505"; number = 0; message = "duplicate key" }

-- The unique index on `code` of the staging table
abbrev index_fault : Staged → List Staged → Option DbError
index_fault r st =
    if any (λ s. clash ("code" ∷ []) r.cells s.cells) st then some duplicate else none

abbrev plan : Plan
plan = record {
  dialect = postgres;
  mapping = ("code", "code") ∷ ("country", "country") ∷ [];
  unique_columns = some "code";
  evaluate = λ row. record { valid = true; errors = []; value = row };
  stored = stored;
  fault = index_fault;
}

abbrev three_rows : List Staged
three_rows = staged 1 "a" "AT" ∷ staged 2 "b" "XX" ∷ staged 3 "a" "CH" ∷ []

stage_valid-each_example :
    Alike (stage_valid plan three_rows empty_work) (stage_each plan three_rows empty_work)
stage_valid-each_example = stage_valid-each plan three_rows empty_work

tuples_text-fits_example :
    (placeholders (tuples_text three_rows) ≡ length (statement_params three_rows))
    × (length (statement_params three_rows) ≤ 2000)
unfolding rows_per_statement
tuples_text-fits_example =
    tuples_text-fits sqlserver 2 three_rows (omega arith) (refl, (refl, (refl, tt))) (omega arith)

abbrev entities : String → Option (String × String)
entities name = some ("countries", "iso")

abbrev country_keys : String → String → List (Option String)
country_keys table key = some "AT" ∷ some "CH" ∷ []

abbrev country_lookup : List Lookup
country_lookup = record { field_name = "country"; entity = "country" } ∷ []

abbrev two_staged : Chunking
two_staged = record empty_work { target = staged 2 "b" "XX" ∷ staged 1 "a" "AT" ∷ [] }

enforce_lookups-resolved_example :
    All
      (λ r. dangling_any plan.mapping entities country_keys country_lookup r ≡ false)
      (enforce_lookups plan.mapping entities country_keys country_lookup two_staged).1.target
unfolding enforce_lookups column_of
enforce_lookups-resolved_example =
    enforce_lookups-resolved plan.mapping entities country_keys country_lookup two_staged refl

abbrev real_import : Import
real_import = record {
  plan = plan;
  dry_run = false;
  chunk_size = 2;
  lookups = country_lookup;
  entities = entities;
  keys = λ table. country_keys;
  is_cancelled = λ chunk. false;
  create_staging = ok tt;
  report_fails = λ q. false;
  drop_fails = false;
  promote = λ rows table. ok (promote_on_conflict ("code" ∷ []) rows table);
}

abbrev cancelled_import : Import
cancelled_import = record real_import { is_cancelled = λ chunk. chunk == 1 }

abbrev records : List Fields
records = customer "a" "AT" ∷ customer "b" "XX" ∷ customer "a" "CH" ∷ customer "c" "CH" ∷ []

abbrev empty_site : Site
empty_site = record { table = []; staging = false; job_errors = []; summary = none }

bulk_import-untouched_example :
    ((bulk_import cancelled_import records empty_site).1.table ≡ [])
    × ((cancelled_import.drop_fails ≡ true)
        ⊎ ((bulk_import cancelled_import records empty_site).1.staging ≡ false))
unfolding bulk_import chunks process_chunk slices rows_per_statement clash get_field
bulk_import-untouched_example =
    bulk_import-untouched cancelled_import records empty_site (inr (inl refl))

imported_codes :
    (bulk_import real_import records empty_site).1.table
    ≡ (("code", some "a") ∷ ("country", some "AT") ∷ [])
      ∷ ((("code", some "c") ∷ ("country", some "CH") ∷ []) ∷ [])
unfolding bulk_import promote_on_conflict chunks process_chunk slices rows_per_statement clash
    get_field enforce_lookups column_of delete_staging_rows
imported_codes = refl

abbrev cells_of : String → Cells
cells_of code = ("code", some code) ∷ []

abbrev text_of : Json → String
text_of (str s) = s
text_of v = ""

abbrev reason_of : ℕ → Option String
reason_of n = if n == 2 then some "country: value 'XX' not found" else none
