-- ===== src/Examples/Handlers.antt =====
-- The theorems on the handlers of the integration pool, and on what they work with, at concrete inputs.
use task_schedular.Prelude.{
  ℕ, zero, suc, ◌+◌, ◌*◌, ◌^◌, ◌↔◌, ◌≤◌, String, true, false, none, some, List, [], ◌∷◌, length,
  ltb, str_eq, ◌≡◌, refl, arith, if◌then◌else◌,
}
use task_schedular.Prelude.Act.{ok, is_ok}
use task_schedular.Prelude.Show.{show}
use task_schedular.Contracts.Common.{bulk_insert, bulk_update, completed, failed}
use task_schedular.Contracts.Json.{Json, num, str, arr, field, end, get_field}
use task_schedular.Store.{Job}
use task_schedular.Security.{Addresses, ip_is_denied, check_addresses, assert_host_allowed}
use task_schedular.Storage.{s3_url, parse_s3_url, is_some_text, is_one_line, get_object_text}
use task_schedular.Storage.Urls.{has_no_slash, parse_s3_url_iff}
use task_schedular.Worker.{Connection, Catalog, JobContext, resolve_context}
use task_schedular.Worker.Own.{IsOwn, resolve_context-IsOwn}
use task_schedular.Source.{Parsers, read_rows, parse_rows}
use task_schedular.Edge.{World, Outside, of_list, location_of}
use task_schedular.Edge.Staging.{HandsOver}
use task_schedular.Reporter.{job_status}
use task_schedular.Edge.Http.{
  Net, Wire, Answer, response, guard, get_request, post_request, fetch_json, post_json,
}
use task_schedular.Edge.Http.Sends.{Guarded, fetch_json-Guarded}
use task_schedular.Edge.Http.Waits.{fetch_json_waited}
use task_schedular.Edge.Pull.{PageSize, page_url, rest_pull}
use task_schedular.Edge.Pull.Complete.{Serves, page_of}
use task_schedular.Edge.Pull.Staged.{rest_pull-read_rows}
use task_schedular.Edge.Push.Counts.{posts, accepted_rows, refused_rows}
use task_schedular.Targets.Batches.{slices}
use task_schedular.Edge.Push.{Table, Pushed, BatchLogs, live_rows, rest_push}
use task_schedular.Edge.Push.Ended.{rest_push-ends}
use task_schedular.Edge.Push.Endless.{rest_push_endless}
use task_schedular.Edge.Webhook.{hook_body, webhook}
use task_schedular.Edge.Webhook.Ended.{webhook-post_json}
use task_schedular.Edge.Inbound.{import_type, import_kind, extension, file_inbound}
use task_schedular.Edge.Inbound.Staged.{file_inbound-read_rows}
use task_schedular.Examples.Data.{job, db_with, envelope_one, fresh_one}

abbrev open_dns : Addresses
open_dns = record {
  lookup = λ h. some ("93.184.216.34" ∷ []);
  range = λ ip. some "unicast";
  is_block = λ s. false;
  in_block = λ b ip. none;
}

abbrev first_page : Json
first_page = arr (of_list (num 1 ∷ num 2 ∷ []))

abbrev second_page : Json
second_page = arr (of_list (num 3 ∷ []))

-- A server of two pages; the second is not full.
abbrev serve : String → Answer
serve url =
    response 200
      (some (if str_eq url "https://api/items?page=1&pageSize=2" then first_page else second_page))

abbrev net : Net
net = record {
  parse_url = λ s. some (record { protocol = "https:"; hostname = "api" });
  addresses = open_dns;
  env_allowlist = [];
  retries = 2;
  backoff_base_ms = 500;
  jitter = λ n. 100;
  answer = λ n r. serve r.url;
}

-- Nothing fails.
abbrev outside : Outside
outside = record {
  net = net;
  default_bucket = "uploads";
  home = none;
  fresh = fresh_one;
  tier_fails = false;
  statement_fails = λ s. false;
  report_fails = λ q. false;
  get_fails = false;
  put_fails = false;
  stringify = λ j. "[1,2,3]";
}

abbrev wire : Wire
wire = record { requests = []; waited = 0 }

abbrev world : World
world = record {
  process = record { cache = []; db = db_with (job ∷ []) };
  objects = record { bucket = "in"; key = "a.json"; text = "[1,2,3]" } ∷ [];
  wire = wire;
}

abbrev connection : Connection
connection = record { id = "p1"; deleted = false; schema = none; allowlist_hosts = [] }

abbrev context_at : String → String → JobContext (Unit {0})
context_at source target = record {
  envelope = record envelope_one {
    source = field "location" (str source) end;
    destination = field "location" (str target) end;
  };
  job = job;
  project = connection;
  entity = record {
    name = "orders";
    target_table = "orders";
    primary_key = "id";
    mapping = ("a", "b") ∷ [];
    rule_set_id = none;
  };
  rule_set = tt;
}

abbrev parsers : Parsers
parsers = record {
  parse_json = λ t. ok (arr (of_list (num 1 ∷ num 2 ∷ num 3 ∷ [])));
  parse_xml = λ t. ok (str t);
  parse_csv = λ t. ok (of_list []);
}

abbrev items : List Json
items = num 1 ∷ num 2 ∷ num 3 ∷ []

abbrev by_two : PageSize
by_two = record { text = "2"; exceeds = λ n. ltb n 2 }

guarded : (url : String) → guard net url [] ≡ ok tt
unfolding guard assert_host_allowed check_addresses ip_is_denied
guarded url = refl

answers :
    (n k : ℕ)
    → k * 2 ≤ length items
    → net.answer n (get_request net (page_url "https://api/items" by_two (suc k)) none)
      ≡ response 200 (some (arr (of_list (page_of 2 k items))))
unfolding page_url show
answers n zero h = refl
answers n (suc zero) h = refl
answers n (suc (suc k)) h = absurd (omega arith)

served : Serves net "https://api/items" none [] by_two 2 items
served = record {
  admitted = λ k. guarded (page_url "https://api/items" by_two (suc k));
  answers = answers;
}

rest_pull-read_rows_example :
    let r = rest_pull outside (λ j. by_two) (context_at "https://api/items" "") world in
    HandsOver world
      (λ e.
        (e.type ≡ bulk_insert)
        × (e.project_id ≡ "p1")
        × (read_rows parsers "bulk_insert" e.source end r.1.objects ≡ ok (arr (of_list items))))
      r
unfolding get_field location_of
rest_pull-read_rows_example =
    rest_pull-read_rows outside (context_at "https://api/items" "") (λ j. by_two) 2 items
      "https://api/items" refl (omega arith) (λ n. refl) refl refl refl (omega arith) served parsers
      refl refl refl refl "bulk_insert" end world

fetch_json-Guarded_example :
    Guarded net []
      (get_request net "https://api/items" none)
      wire
      (fetch_json net "https://api/items" none [] wire).1
    × Guarded net []
        (post_request net "https://api/items" (num 1) none)
        wire
        (post_json net "https://api/items" (num 1) none [] wire).1
fetch_json-Guarded_example = fetch_json-Guarded net [] "https://api/items" (num 1) none wire

fetch_json_waited_example :
    ((fetch_json net "https://api/items" none [] wire).1.waited + 500 ≤ 0 + (500 * 2 ^ 2 + 2 * 500))
    × ((post_json net "https://api/items" (num 1) none [] wire).1.waited + 500
        ≤ 0 + (500 * 2 ^ 2 + 2 * 500))
fetch_json_waited_example =
    fetch_json_waited net (λ n. omega arith) "https://api/items" (num 1) none [] wire

parse_s3_url_iff_example : (parse_s3_url "s3://in/a/b.csv" ≡ ok ("in", "a/b.csv")) ↔ (
    ("s3://in/a/b.csv" ≡ s3_url "in" "a/b.csv")
    × (is_some_text "in" ≡ true)
    × (has_no_slash "in" ≡ true)
    × (is_some_text "a/b.csv" ≡ true)
    × (is_one_line "a/b.csv" ≡ true))
parse_s3_url_iff_example = parse_s3_url_iff "s3://in/a/b.csv" "in" "a/b.csv"

-- A table with a row that is soft-deleted
abbrev table : Table
table = record {
  columns = "b" ∷ "deleted_at" ∷ [];
  rows = field "b" (num 7) end ∷ field "b" (num 8) (field "deleted_at" (str "now") end) ∷ [];
}

abbrev quiet_logs : BatchLogs
quiet_logs = record { pushed_fails = λ k. false; failed_fails = λ k. false }

abbrev to_text : Json → String
to_text j = "v"

abbrev sink : JobContext (Unit {0})
sink = context_at "s3://in/a.json" "https://api/items"

rest_push-ends_example :
    let (made, wire) =
      posts outside quiet_logs to_text sink "https://api/items" 50
        (slices 50 (live_rows table))
        world.wire in
    (after : Pushed) × (w' : World) × (rest_push outside quiet_logs to_text
        (λ j. 50)
        sink
        (ok table)
        2
        world
      ≡ (ok (some after), w'))
    × (after.pushed ≡ accepted_rows made)
    × (after.failed ≡ refused_rows made)
    × (after.pushed + after.failed ≡ length (live_rows table))
    × (w'.wire ≡ wire)
    × (job_status none "j1" w'.process.db ≡ some (if ltb 0 after.failed then failed else completed))
unfolding live_rows get_field
rest_push-ends_example =
    rest_push-ends outside quiet_logs to_text sink (λ q. refl) (λ j. 50) table "https://api/items" 2
      world job (λ k. (refl, refl)) refl (omega arith) (omega arith) refl

rest_push_endless_example :
    (rest_push outside quiet_logs to_text (λ j. 0) sink (ok table) 9 world).0 ≡ ok none
unfolding live_rows get_field
rest_push_endless_example =
    rest_push_endless outside quiet_logs to_text sink (λ k. (refl, refl)) (λ q. refl) (λ j. 0) table
      "https://api/items" (field "b" (num 7) end) [] world refl refl refl 9

webhook-post_json_example :
    let post =
      post_json net "https://api/items" (hook_body outside (λ j. j) sink end) none [] wire in
    (w' : World) × (webhook outside (λ j. j) sink world ≡ (post.0, w'))
    × (job_status none "j1" w'.process.db ≡ some (if is_ok post.0 then completed else failed))
    × (w'.wire ≡ post.1)
unfolding get_field
webhook-post_json_example =
    webhook-post_json outside (λ j. j) sink (λ q. refl) "https://api/items" world job refl refl

file_inbound-read_rows_example :
    let r = file_inbound outside (λ s. s) sink world in
    HandsOver world
      (λ e.
        (e.type ≡ import_type "json")
        × (e.project_id ≡ "p1")
        × (get_field "kind" e.source ≡ some (str (import_kind "json")))
        × (read_rows parsers "bulk_import" e.source end r.1.objects
            ≡ parse_rows parsers "bulk_import" e.source end r.1.objects (ok "[1,2,3]")))
      r
unfolding get_field extension location_of parse_s3_url get_object_text
file_inbound-read_rows_example =
    file_inbound-read_rows outside (λ s. s) sink refl refl "s3://in/a.json" "in" "a.json" "[1,2,3]"
      refl refl refl refl refl refl refl parsers "bulk_import" end world refl

abbrev catalog : Catalog
catalog = record {
  connections = connection ∷ [];
  entities =
      record {
        project_id = "p1";
        name = "orders";
        target_table = "orders";
        primary_key = "id";
        mapping = none;
        rule_set_id = none;
      }
      ∷ [];
  rule_sets = [];
}

abbrev update_one : Job
update_one = record job { type = bulk_update }

abbrev resolved : JobContext (Unit {0})
resolved = record {
  envelope = envelope_one;
  job = update_one;
  project = connection;
  entity = record {
    name = "orders";
    target_table = "orders";
    primary_key = "id";
    mapping = [];
    rule_set_id = none;
  };
  rule_set = tt;
}

resolve_context-IsOwn_example : IsOwn none "j1" (db_with (update_one ∷ [])) catalog resolved
unfolding resolve_context
resolve_context-IsOwn_example =
    resolve_context-IsOwn tt (λ id j. ok tt) envelope_one catalog none (db_with (update_one ∷ []))
      resolved refl
