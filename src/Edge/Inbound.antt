-- ===== src/Edge/Inbound.antt =====
-- services/worker-edge/src/handlers/fileInbound.ts: a file, staged for an import.
pub mod Staged
use Prim.Native.String.{◌++◌ as append}
use task_schedular.Prelude.{
  String, Bool, true, false, Option, none, some, List, [], ◌∷◌, str_eq, if◌then◌else◌,
}
use task_schedular.Prelude.Act.{Result, ok, err, error, Act, pure, throw, and_then, ◌>>=◌, ◌>>◌}
use task_schedular.Contracts.Common.{JobType, bulk_import, xml_integration, type_name}
use task_schedular.Contracts.Json.{Json}
use task_schedular.Enqueue.{EnqueueResult}
use task_schedular.Storage.{behind, parse_s3_url, s3_url}
use task_schedular.Worker.{JobContext}
use task_schedular.Source.{path_parts}
use task_schedular.Edge.{
  World, Outside, progress_log, location_of, text_field, id_text, log, put, fetch_object,
  enqueue_next, start, complete, next_input,
}

abbrev pub last_part : List String → String
last_part [] = ""
last_part (s ∷ []) = s
last_part (s ∷ (t ∷ ts)) = last_part (t ∷ ts)

abbrev pub import_kind : String → String
import_kind ext = if str_eq ext "xml" then "xml" else if str_eq ext "json" then "json" else "csv"

abbrev pub import_type : String → JobType
import_type ext = if str_eq ext "xml" then xml_integration else bulk_import

abbrev pub lift_result {ℓ} : {A : Type ℓ} → Result A → Act World A
lift_result r w = (r, w)

-- `lower` is toLowerCase.
module _ {RuleSet : Type 0} (o : Outside) (lower : String → String) (c : JobContext RuleSet) where
  -- (key.split('.').pop() ?? 'csv').toLowerCase()
  unfoldable pub extension : String → String
  unfolding path_parts
  extension key = lower (last_part (path_parts key))

  abbrev pub staged_file : String → String
  staged_file ext = append "inbound-staged/" (append c.job.id (append "." ext))

  abbrev pub staged_url : String → String
  staged_url ext = s3_url o.default_bucket (staged_file ext)

  abbrev pub inbound_summary : String → EnqueueResult → String
  inbound_summary ext res =
      append "fetched + staged; enqueued "
        (append (type_name (import_type ext)) (append " job " (id_text res)))

  -- Staging, the job that takes over, and the end
  unfoldable pub stage_file : String → String → Act World (Unit {0})
  stage_file ext text = do
    put o o.default_bucket (staged_file ext) text
    log o progress_log
    res ← enqueue_next o (next_input o c (import_type ext) (import_kind ext) (staged_url ext))
    complete o c (inbound_summary ext res)

  abbrev pub fetch_file : String × String → Act World (Unit {0})
  fetch_file (bucket, key) = do text ← fetch_object o bucket key; stage_file (extension key) text

  -- Only URLs of object storage are served.
  abbrev pub file_at : String → Option String → Act World (Unit {0})
  file_at location none = throw (error "file_inbound: only s3:// sources supported in this build")
  file_at location (some _) = lift_result (parse_s3_url location) >>= fetch_file

  abbrev pub inbound_from : Option String → Act World (Unit {0})
  inbound_from none = throw (error "file_inbound: no source.location")
  inbound_from (some location) = do
    start o c (append "file_inbound fetching " location)
    log o progress_log
    file_at location (behind "s3://" location)

  unfoldable pub file_inbound : Act World (Unit {0})
  unfolding stage_file location_of extension
  file_inbound = inbound_from (location_of c.envelope.source c.job.source)
