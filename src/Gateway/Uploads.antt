-- ===== src/Gateway/Uploads.antt =====
-- services/gateway-api/src/lib/parseUpload.ts: an uploaded file as CSV text. The Excel and CSV readers
-- and the conversions of JavaScript are arguments.
pub mod Stored
use Prim.Native.Char.{Char, code}
use Prim.Native.String.{[] as empty, ◌∷◌ as ◌before◌, ◌++◌ as append}
use task_schedular.Prelude.{
  ℕ, String, Bool, true, false, not, ◌||◌, ◌&&◌, Option, none, some, List, [], ◌∷◌, map, keep, take,
  find, length, ◌==◌, if◌then◌else◌,
}
use task_schedular.Prelude.Act.{Result, ok, err, error}
use task_schedular.Contracts.Json.{Json, Fields, null, str, end, field, get_field, set_field}
use task_schedular.Csv.{cell_text, columns_of, lines_text}
use task_schedular.Enqueue.Schema.{codes}

-- The value of a cell: null, a date by its ISO text, an object by the properties that are read, with
-- their texts, or anything else with its text
pub record CellObject : Type 0 where
  pub text : Option String
  pub result : Option String
  pub rich_text : Option (List String)
  pub hyperlink : Option String

pub data CellValue : Type 0 where
  nothing : CellValue
  date : String → CellValue
  object : CellObject → CellValue
  other : String → CellValue

-- The first worksheet's rows that are not empty, with their numbers
abbrev pub SheetRow : Type 0
SheetRow = ℕ × List CellValue

pub record ParsedUpload : Type 0 where
  pub columns : List String
  pub sample : List Fields
  pub csv_text : String
  pub row_count : ℕ

abbrev pub concat : List String → String
concat [] = ""
concat (s ∷ more) = append s (concat more)

abbrev object_text : Option String → Option String → Option (List String) → Option String → String
object_text (some t) r rich link = t
object_text none (some r) rich link = r
object_text none none (some ts) link = concat ts
object_text none none none (some l) = l
object_text none none none none = ""

unfoldable pub cell_to_string : CellValue → String
cell_to_string nothing = ""
cell_to_string (date iso) = iso
cell_to_string (object o) = object_text o.text o.result o.rich_text o.hyperlink
cell_to_string (other s) = s

-- `h && h.length > 0`
abbrev pub is_named : String → Bool
is_named empty = false
is_named (c before s) = true

abbrev pub first_cell : List CellValue → CellValue
first_cell [] = nothing
first_cell (c ∷ cs) = c

abbrev pub later_cells : List CellValue → List CellValue
later_cells [] = []
later_cells (c ∷ cs) = cs

-- `obj[h] = …` where the header is named
abbrev pub put_cell : String → CellValue → Fields → Fields
put_cell h v out = if is_named h then set_field h (str (cell_to_string v)) out else out

-- The object of a row
unfoldable pub row_object : List String → List CellValue → Fields → Fields
row_object [] cells out = out
row_object (h ∷ hs) cells out =
    row_object hs (later_cells cells) (put_cell h (first_cell cells) out)

abbrev pub is_filled : Json → Bool
is_filled null = false
is_filled (str empty) = false
is_filled v = true

abbrev pub has_value : Fields → Bool
has_value end = false
has_value (field k v o) = is_filled v || has_value o

abbrev pub same_codes : List ℕ → List ℕ → Bool
same_codes [] [] = true
same_codes (a ∷ s) (b ∷ t) = a == b && same_codes s t
same_codes _ _ = false

abbrev pub ends_with : List ℕ → List ℕ → Bool
ends_with s [] = same_codes s []
ends_with s (c ∷ t) = same_codes s (c ∷ t) || ends_with s t

abbrev pub is_header : SheetRow → Bool
is_header (n, cells) = n == 1

abbrev pub cells_of : Option SheetRow → List CellValue
cells_of none = []
cells_of (some (n, cells)) = cells

abbrev pub headers_of : (String → String) → List SheetRow → List String
headers_of trim sheet = map (λ v. trim (cell_to_string v)) (cells_of (find is_header sheet))

abbrev pub objects_of : List String → List SheetRow → List Fields
objects_of headers sheet =
    keep has_value
      (map (λ (n, cells). row_object headers cells end) (keep (λ r. not (is_header r)) sheet))

abbrev pub upload_of : List String → List Fields → String → ParsedUpload
upload_of columns rows csv = record {
  columns = columns;
  sample = take 5 rows;
  csv_text = csv;
  row_count = length rows;
}

abbrev pub need_columns : String → List String → Result ParsedUpload → Result ParsedUpload
need_columns message [] r = err (error message)
need_columns message (c ∷ cs) r = r

-- `text.split(/\r?\n/)[0]` and `.split(',')`
abbrev pub first_line : String → String
first_line empty = ""
first_line (c before empty) = if code c == b'\n' then "" else c before empty
first_line (c before (d before s)) =
    let rest = first_line (d before s) in
    if code c == b'\n' || (code c == b'\r' && code d == b'\n') then "" else c before rest

abbrev add_char : Char → List String → List String
add_char c [] = (c before empty) ∷ []
add_char c (s ∷ more) = (c before s) ∷ more

abbrev pub split_commas : String → List String
split_commas empty = "" ∷ []
split_commas (c before s) =
    let rest = split_commas s in if code c == b',' then "" ∷ rest else add_char c rest

abbrev pub is_excel : String → Bool
is_excel lower = ends_with (codes ".xlsx") (codes lower) || ends_with (codes ".xlsm") (codes lower)

module _ (trim : String → String) (text : Json → String) where
  -- toCsv
  unfoldable pub to_csv_text : List String → List Fields → String
  to_csv_text headers rows =
      lines_text (headers ∷ map (λ r. map (λ h. cell_text text (get_field h r)) headers) rows)

  unfoldable pub parse_sheet : List SheetRow → Result ParsedUpload
  unfolding row_object to_csv_text
  parse_sheet sheet =
      let headers = headers_of trim sheet in
      let columns = keep is_named headers in
      let rows = objects_of headers sheet in
      need_columns "no header row found in the first sheet" columns
        (ok (upload_of columns rows (to_csv_text columns rows)))

  abbrev pub first_sheet : Result (List (List SheetRow)) → Result ParsedUpload
  first_sheet (err e) = err e
  first_sheet (ok []) = err (error "the Excel file has no worksheets")
  first_sheet (ok (sheet ∷ more)) = parse_sheet sheet

  abbrev pub csv_columns : String → List Fields → List String
  csv_columns file [] = keep is_named (map trim (split_commas (first_line file)))
  csv_columns file (r ∷ rs) = columns_of text (r ∷ rs)

  abbrev pub parse_csv : String → Result (List Fields) → Result ParsedUpload
  parse_csv file (err e) = err e
  parse_csv file (ok records) =
      let columns = csv_columns file records in
      need_columns "no columns detected (is the file empty?)" columns
        (ok (upload_of columns records file))

  -- The readers take the file; `to_lower` and `utf8` are conversions.
  unfoldable pub parse_upload :
      {Bytes : Type 0} (load : Bytes → Result (List (List SheetRow)))
      (read_records : String → Result (List Fields)) (to_lower : String → String)
      (utf8 : Bytes → String)
      → String
      → Bytes
      → Result ParsedUpload
  unfolding parse_sheet
  parse_upload load read_records to_lower utf8 filename buf =
      if is_excel (to_lower filename)
      then first_sheet (load buf)
      else parse_csv (utf8 buf) (read_records (utf8 buf))
