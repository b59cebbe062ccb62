-- ===== src/Examples/Setup.antt =====
-- The theorems on migrations, entities, uploads and date formats at concrete inputs.
use task_schedular.Prelude.{
  ℕ, ◌+◌, String, Bool, false, Option, none, some, List, [], ◌∷◌, ◌≡◌, refl, arith, str_eq,
  if◌then◌else◌,
}
use task_schedular.Prelude.Act.{Result, ok}
use task_schedular.Prelude.Show.{show, pad2}
use task_schedular.Contracts.Common.{bulk_update}
use task_schedular.Store.{Job}
use task_schedular.Worker.{Connection, with_rules, rules_of, resolve_context}
use task_schedular.Migrations.{Base, migrate}
use task_schedular.Migrations.Resumed.{migrate-migrate}
use task_schedular.Gateway.Entities.{
  EntityBody, Site, EntityCall, new_entity, upserted, post_entity,
}
use task_schedular.Gateway.Entities.Resolved.{config_for, post_entity-resolve_context}
use task_schedular.Rules.Dates.{year, month, day, hour, minute, second, pieces, parse_with_format}
use task_schedular.Rules.Dates.Spelled.{Moment, IsMoment, iso_text, parse_with_format-spell}
use task_schedular.Contracts.Json.{Json, Fields, str}
use task_schedular.Csv.Reader.{read_csv}
use task_schedular.Gateway.Uploads.{
  SheetRow, ParsedUpload, other, nothing, date, cell_to_string, parse_upload,
}
use task_schedular.Gateway.Uploads.Stored.{read_csv-parse_upload}
use task_schedular.Enqueue.Schema.{codes}
use task_schedular.Examples.Data.{job, db_with, envelope_one}

-- The second script fails at first, and not when it is run again.
abbrev broken : String → ℕ → Option ℕ
broken f n = if str_eq f "2.sql" then none else some (n + 1)

abbrev mended : String → ℕ → Option ℕ
mended f n = some (n + 1)

extended : (f : String) (c d : ℕ) → broken f c ≡ some d → mended f c ≡ some d
extended f c d h = ground (arith, h)

abbrev files : List String
files = "1.sql" ∷ "2.sql" ∷ "3.sql" ∷ []

abbrev fresh_base : Base ℕ
fresh_base = record { contents = 0; migrations = [] }

migrate-migrate_example :
    migrate mended files (migrate broken files fresh_base).1 ≡ migrate mended files fresh_base
migrate-migrate_example =
    migrate-migrate broken mended files fresh_base extended (refl, (refl, (refl, tt)))

migrate_runs : (migrate mended files fresh_base).1.contents ≡ 3
unfolding migrate
migrate_runs = refl

abbrev connection : Connection
connection = record { id = "p1"; deleted = false; schema = none; allowlist_hosts = [] }

abbrev site : Site
site = record {
  catalog = record { connections = connection ∷ []; entities = []; rule_sets = [] };
  audits = [];
}

abbrev orders : EntityBody
orders = record {
  name = "orders";
  target_table = "shop_orders";
  primary_key = "id";
  mapping = ("a", "b") ∷ [];
  rule_set_id = none;
}

abbrev succeeds : EntityCall → Bool
succeeds q = false

abbrev update_one : Job
update_one = record job { type = bulk_update }

post_entity-resolve_context_example :
    let catalog = (post_entity succeeds "ann" "p1" (some orders) site).1.catalog in
    let config = config_for orders none in
    resolve_context tt (λ id j. ok tt) envelope_one catalog none (db_with (update_one ∷ []))
    ≡ with_rules tt
        (λ id j. ok tt)
        envelope_one
        catalog
        update_one
        connection
        config
        (rules_of tt (λ id j. ok tt) envelope_one catalog none)
unfolding post_entity upserted
post_entity-resolve_context_example =
    post_entity-resolve_context succeeds "ann" "p1" orders site tt (λ id j. ok tt) envelope_one none
      (db_with (update_one ∷ [])) (new_entity "p1" orders) update_one connection refl refl refl refl
      refl refl

-- 7 March 2024, 9:05:00
abbrev moment : Moment
moment year = 2024
moment month = 3
moment day = 7
moment hour = 9
moment minute = 5
moment second = 0

moment-IsMoment : IsMoment moment
moment-IsMoment = record {
  years = (omega arith, omega arith);
  months = (omega arith, omega arith);
  days = (omega arith, omega arith);
  hours = omega arith;
  minutes = omega arith;
  seconds = omega arith;
}

parse_with_format-spell_example :
    parse_with_format (λ s. s) "07.03.2024" "dd.MM.yyyy"
    ≡ some (iso_text moment (pieces (codes "dd.MM.yyyy")))
unfolding pieces
parse_with_format-spell_example =
    parse_with_format-spell (λ s. s) moment "07.03.2024" "dd.MM.yyyy" moment-IsMoment refl refl

parse_with_format_runs : parse_with_format (λ s. s) "7.3.2024" "d.MM.yyyy" ≡ none
unfolding parse_with_format
parse_with_format_runs = refl

parse_with_format_reads :
    parse_with_format (λ s. s) "7.3.2024 9" "dd.MM.yyyy HH" ≡ some "2024-03-07T09:00:00Z"
unfolding parse_with_format show pad2
parse_with_format_reads = refl

-- Two named columns with one between them that is not, and a row without texts
abbrev sheet : List SheetRow
sheet =
    (1, other "name" ∷ nothing ∷ other "note" ∷ [])
    ∷ (2, other "Ann" ∷ other "skipped" ∷ other "a,b" ∷ [])
    ∷ (3, nothing ∷ other "skipped" ∷ [])
    ∷ (5, date "2024-03-07" ∷ [])
    ∷ []

abbrev text_of : Json → String
text_of (str s) = s
text_of v = ""

abbrev load_sheet : ℕ → Result (List (List SheetRow))
load_sheet buf = ok (sheet ∷ [])

abbrev read_nothing : String → Result (List Fields)
read_nothing file = ok []

read_csv-parse_upload_example :
    let lines : List (List String) = ("Ann" ∷ "a,b" ∷ []) ∷ ("2024-03-07" ∷ "" ∷ []) ∷ [] in
    (u : ParsedUpload) × (parse_upload
        (λ s. s)
        text_of
        load_sheet
        read_nothing
        (λ s. s)
        (λ b. "")
        "people.xlsx"
        7
      ≡ ok u)
    × (u.columns ≡ "name" ∷ "note" ∷ [])
    × (u.row_count ≡ 2)
    × (read_csv u.csv_text ≡ ("name" ∷ "note" ∷ []) ∷ lines)
unfolding cell_to_string
read_csv-parse_upload_example =
    read_csv-parse_upload (λ s. s) text_of (λ s. refl) load_sheet read_nothing (λ s. s) (λ b. "")
      "people.xlsx" 7 sheet [] "name" ("note" ∷ []) refl refl refl (refl, (refl, tt))

-- A CSV file without records has the columns of its first line, also where a name is quoted.
abbrev header_file : String
header_file = "\"a,b\",c\r\n"

parse_upload_header :
    parse_upload (λ s. s) text_of load_sheet read_nothing (λ s. s) (λ b. header_file) "people.csv" 7
    ≡ ok (record {
      columns = "\"a" ∷ "b\"" ∷ "c" ∷ [];
      sample = [];
      csv_text = header_file;
      row_count = 0;
    })
unfolding parse_upload
parse_upload_header = refl
