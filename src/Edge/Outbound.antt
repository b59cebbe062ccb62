-- ===== src/Edge/Outbound.antt =====
-- services/worker-edge/src/handlers/fileOutbound.ts: the live rows of a target table, as a file in
-- object storage.
pub mod Stored
use Prim.Native.String.{◌++◌ as append}
use task_schedular.Prelude.{
  String, Bool, true, false, Option, none, some, List, [], ◌∷◌, map, length, str_eq, or_else,
  if◌then◌else◌,
}
use task_schedular.Prelude.Show.{show}
use task_schedular.Prelude.Act.{Result, ok, err, error, Act, pure, throw, and_then, ◌>>=◌, ◌>>◌}
use task_schedular.Contracts.Common.{truthy_text}
use task_schedular.Contracts.Json.{Json, obj, arr, Fields, end, get_field}
use task_schedular.Csv.{row_to_source, to_csv}
use task_schedular.Storage.{parse_s3_url, s3_url}
use task_schedular.Worker.{JobContext}
use task_schedular.Edge.{
  World, Outside, progress_log, as_fields, text_field, of_list, log, put, start, complete,
}
use task_schedular.Edge.Push.{Table, live_rows}

module _ {RuleSet : Type 0} (o : Outside) (text : Json → String) (c : JobContext RuleSet) where
  -- dest.options?.format || 'csv'
  abbrev pub format : String
  format =
      or_else
        (truthy_text (text_field "format" (as_fields (get_field "options" c.envelope.destination))))
        "csv"

  -- The rows by their source fields, as toJson writes them
  abbrev pub source_rows : List Fields → List Json
  source_rows = map (λ r. obj (row_to_source text c.entity.mapping r end))

  unfoldable pub file_body : List Fields → String
  file_body rows =
      if str_eq format "json"
      then o.stringify (arr (of_list (source_rows rows)))
      else to_csv text c.entity.mapping rows

  unfoldable pub target_url : String
  target_url = or_else (text_field "location" c.envelope.destination) (
      s3_url o.default_bucket (
        append "exports/"
          (append c.entity.name (append "-" (append c.job.id (append "." format))))))

  abbrev pub export_summary : List Fields → String
  export_summary rows =
      append "exported "
        (append (show (length rows)) (append " rows (" (append format (append ") → " target_url))))

  abbrev pub store_file : List Fields → Result (String × String) → Act World (Unit {0})
  store_file rows (err e) = throw e
  store_file rows (ok (bucket, key)) = do
    put o bucket key (file_body rows)
    complete o c (export_summary rows)

  abbrev pub export_table : Result Table → Act World (Unit {0})
  export_table (err e) = throw e
  export_table (ok t) = do log o progress_log; store_file (live_rows t) (parse_s3_url target_url)

  -- `columns_fail` is a failure of the first look at the table, in front of the first report.
  unfoldable pub file_outbound : Bool → Result Table → Act World (Unit {0})
  unfolding target_url file_body live_rows
  file_outbound columns_fail table =
      if columns_fail
      then throw (error "database")
      else start o c "file_outbound querying target" >> export_table table
