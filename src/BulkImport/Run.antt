-- ===== src/BulkImport/Run.antt =====
-- services/worker-core/src/handlers/bulkImport.ts: the handler `bulkImport` as a whole, with its
-- chunks one after the other. The statements on the target database may fail, and so may the reports
-- behind the promotion; reports in front of it do not fail here.
pub mod Outcome
use task_schedular.Prelude.{
  ℕ, zero, suc, ◌+◌, ◌-◌, String, Bool, true, false, Option, none, some, List, [], ◌∷◌, ◌++◌, take,
  length, map, if◌then◌else◌,
}
use task_schedular.Prelude.Act.{
  Act, Result, ok, err, Thrown, job_cancelled, error, pure, throw, ◌>>◌, ◌>>=◌,
}
use task_schedular.Contracts.Json.{Fields}
use task_schedular.RowPipeline.{Chunk, chunks, Work, RowError}
use task_schedular.Targets.Promotion.{Cells}
use task_schedular.Targets.Batches.{drop}
use task_schedular.BulkImport.{Staged, Plan, Chunking, process_chunk}
use task_schedular.BulkImport.Lookups.{Lookup, enforce_lookups}

-- The reports behind the promotion, and the query that counts the errors
pub data ImportReport : Type 0 where
  promotion_log batch_end error_count rejects_log rejects_warning : ImportReport
  completion progress_end completed_event summary_log : ImportReport

-- `keys` are the keys of a table of the target database, whose imported table holds these rows. A
-- rejects file that cannot be written counts as a failure of its log line.
pub record Import : Type 0 where
  pub plan : Plan
  pub dry_run : Bool
  pub chunk_size : ℕ
  pub lookups : List Lookup
  pub entities : String → Option (String × String)
  pub keys : List Cells → String → String → List (Option String)
  pub is_cancelled : ℕ → Bool
  pub create_staging : Result (Unit {0})
  pub report_fails : ImportReport → Bool
  pub drop_fails : Bool
  pub promote : List Cells → List Cells → Result (ℕ × List Cells)

pub data Summary : Type 0 where
  dry : (rows errors : ℕ) → Summary
  imported : (promoted rows errors : ℕ) → Summary

-- The target table, whether the staging table exists, the errors recorded for the job, and the
-- summary it was completed with.
pub record Site : Type 0 where
  pub table : List Cells
  pub staging : Bool
  pub job_errors : List RowError
  pub summary : Option Summary

abbrev pub empty_work : Chunking
empty_work = record { target = []; row_errors = []; processed = 0; errors = 0 }

-- The rows of a chunk
abbrev rows_of : Chunk → List Fields → List Fields
rows_of c records = take (c.end - c.start) (drop c.start records)

module _ (i : Import) where
  -- The loop over the chunks, which asks before each whether the job is cancelled.
  unfoldable pub run_chunks : List Fields → List Chunk → Act Chunking (Unit {0})
  run_chunks records [] = pure tt
  run_chunks records (c ∷ cs) =
      if i.is_cancelled c.index
      then throw job_cancelled
      else process_chunk i.plan (suc c.start) (rows_of c records) >> run_chunks records cs

  -- All that happens to the staging table before the promotion, over the rows of the imported table
  unfoldable pub stage_records : List Cells → List Fields → Act Chunking (Unit {0})
  unfolding run_chunks
  stage_records table records =
      run_chunks records (chunks (length records) i.chunk_size)
      >> enforce_lookups i.plan.mapping i.entities (i.keys table) i.lookups

  abbrev pub promotable : List Staged → List Cells
  promotable = map λ r. r.cells

  abbrev pub report : ImportReport → (Site → Site) → Act Site (Unit {0})
  report q run site = if i.report_fails q then (err (error "database"), site) else (ok tt, run site)

  abbrev pub unchanged : Site → Site
  unchanged site = site

  -- The file of the rejected rows, if there are any: what fails there is logged as a warning.
  abbrev pub report_rejects : List RowError → Act Site (Unit {0})
  report_rejects [] = pure tt
  report_rejects (e ∷ es) =
      if i.report_fails rejects_log then report rejects_warning unchanged else pure tt

  abbrev pub completed : (ℕ → Summary) → Site → Site
  completed summary site = record site { summary = some (summary (length site.job_errors)) }

  -- All reports behind the promotion
  unfoldable pub close : (ℕ → Summary) → Act Site (Unit {0})
  close summary = do
    report promotion_log unchanged
    report batch_end unchanged
    report error_count unchanged
    λ site. report_rejects site.job_errors site
    report completion (completed summary)
    report progress_end unchanged
    report completed_event unchanged
    report summary_log unchanged

  -- From the promotion on
  unfoldable pub finish : ℕ → List Staged → Act Site (Unit {0})
  unfolding close
  finish rows staged site =
      if i.dry_run then close (dry rows) site else elim (i.promote (promotable staged) site.table) [
        | err e ↦ (err e, site)
        | ok (n, table) ↦ close (imported n rows) (record site { table = table })
      ]

  -- What follows the staging: an error is thrown on.
  unfoldable pub with_staged : ℕ → List Staged → Result (Unit {0}) → Act Site (Unit {0})
  unfolding finish
  with_staged rows staged (err e) site = (err e, site)
  with_staged rows staged (ok u) site = finish rows staged site

  -- The site once the rows are staged, with the errors that were recorded
  abbrev pub staged_site : Chunking → Site → Site
  staged_site w site = record site { staging = true; job_errors = w.row_errors ++ site.job_errors }

  unfoldable pub with_staging : List Fields → Result (Unit {0}) → Act Site (Unit {0})
  unfolding stage_records with_staged
  with_staging records (err e) site = (err e, site)
  with_staging records (ok u) site =
      let (r, w) = stage_records site.table records empty_work in
      with_staged (length records) w.target r (staged_site w site)

  unfoldable pub attempt : List Fields → Act Site (Unit {0})
  unfolding with_staging
  attempt records = with_staging records i.create_staging

  -- `finally`: the staging table is dropped, whatever happened; a DROP that fails is ignored.
  unfoldable pub bulk_import : List Fields → Act Site (Unit {0})
  unfolding attempt
  bulk_import records site =
      let (r, site') = attempt records site in
      (r, if i.drop_fails then site' else record site' { staging = false })
