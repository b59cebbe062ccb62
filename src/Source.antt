-- ===== src/Source.antt =====
-- services/worker-core/src/source.ts: the rows of an import's source. The parsers of JSON, XML and CSV
-- are arguments. A location or a record path that is no text counts as an absent one, and a path does
-- not go on into a text.
pub mod Arrays
use Prim.Native.Char.{code}
use Prim.Native.String.{[] as empty, ◌∷◌ as ◌before◌, ◌++◌ as append}
use task_schedular.Prelude.{
  ℕ, zero, suc, String, Bool, true, false, Option, none, some, List, [], ◌∷◌, str_eq, sql_eq, ◌==◌,
  if◌then◌else◌,
}
use task_schedular.Prelude.Show.{show}
use task_schedular.Prelude.Act.{Result, ok, err, error}
use task_schedular.Contracts.Common.{truthy_text}
use task_schedular.Contracts.Json.{
  Json, null, bool, num, literal, str, arr, obj, Items, nil, cons, Fields, end, field, get_field,
  or_default,
}
use task_schedular.Storage.{Object, parse_s3_url, get_object_text}
use task_schedular.Edge.{as_text, text_field, as_fields, first_text, location_of, to_list, of_list}

unfoldable mutual
  pub find_first_array : Json → Option Items
  find_first_array (arr xs) = some xs
  find_first_array (obj o) = find_in_fields o
  find_first_array _ = none

  pub find_in_fields : Fields → Option Items
  find_in_fields end = none
  find_in_fields (field k v o) = elim (find_first_array v) [
    | some xs ↦ some xs
    | none ↦ find_in_fields o
  ]

-- recordPath.split('.')
abbrev pub before_part : String → List String → List String
before_part s [] = s ∷ []
before_part s (t ∷ ts) = append s t ∷ ts

unfoldable pub path_parts : String → List String
path_parts empty = "" ∷ []
path_parts (c before s) =
    let rest = path_parts s in
    if code c == b'.' then "" ∷ rest else before_part (c before empty) rest

-- xs[part]
abbrev pub item_at : ℕ → String → Items → Option Json
item_at i part nil = none
item_at i part (cons x xs) = if str_eq (show i) part then some x else item_at (suc i) part xs

abbrev pub items_length : Items → ℕ
items_length nil = 0
items_length (cons x xs) = suc (items_length xs)

-- node?.[part]
unfoldable pub descend : String → Option Json → Option Json
descend part (some (obj o)) = get_field part o
descend part (some (arr xs)) =
    if str_eq part "length" then some (num (items_length xs)) else item_at 0 part xs
descend part _ = none

unfoldable pub follow : List String → Option Json → Option Json
unfolding descend
follow [] node = node
follow (part ∷ parts) node = follow parts (descend part node)

abbrev pub is_truthy : Json → Bool
is_truthy null = false
is_truthy (bool b) = b
is_truthy (num zero) = false
is_truthy (str empty) = false
is_truthy _ = true

-- Array.isArray(node) ? node : node ? [node] : []
abbrev pub as_rows : Option Json → Items
as_rows none = nil
as_rows (some (arr xs)) = xs
as_rows (some j) = if is_truthy j then cons j nil else nil

abbrev pub as_array : Option Items → Option Json
as_array none = none
as_array (some xs) = some (arr xs)

-- JSON.parse, XMLParser.parse and csv-parse
pub record Parsers : Type 0 where
  pub parse_json : String → Result Json
  pub parse_xml : String → Result Json
  pub parse_csv : String → Result Items

-- What a parsed JSON text gives; reading a field of null throws.
unfoldable pub json_rows : Json → Result Json
json_rows (arr xs) = ok (arr xs)
json_rows (obj o) = ok (or_default (get_field "rows" o) (arr nil))
json_rows null = err (error "Cannot read properties of null")
json_rows _ = ok (arr nil)

-- `src.options?.recordPath || job.source_jsonb.recordPath`; an empty path counts as none.
abbrev pub either_text : Option String → Option String → Option String
either_text (some s) t = some s
either_text none t = t

unfoldable pub record_path : Fields → Fields → Option String
record_path source job_source =
    either_text (truthy_text (text_field "recordPath" (as_fields (get_field "options" source))))
      (truthy_text (text_field "recordPath" job_source))

unfoldable pub xml_rows : Option String → Json → Items
unfolding find_first_array follow path_parts
xml_rows none tree = as_rows (as_array (find_first_array tree))
xml_rows (some path) tree = as_rows (follow (path_parts path) (some tree))

abbrev pub then_rows : (Json → Result Json) → Result Json → Result Json
then_rows f (ok j) = f j
then_rows f (err e) = err e

abbrev pub csv_rows : Result Items → Result Json
csv_rows (ok xs) = ok (arr xs)
csv_rows (err e) = err e

module _ (p : Parsers) (type : String) (source job_source : Fields) (objects : List Object) where
  abbrev pub is_kind : String → Bool
  is_kind kind = sql_eq (text_field "kind" source) kind

  -- What the text of the object is read as
  unfoldable pub parse_rows : Result String → Result Json
  unfolding json_rows record_path xml_rows
  parse_rows (err e) = err e
  parse_rows (ok text) =
      if is_kind "json"
      then then_rows json_rows (p.parse_json text)
      else if is_kind "xml"
      then then_rows (λ tree. ok (arr (xml_rows (record_path source job_source) tree)))
          (p.parse_xml text)
      else csv_rows (p.parse_csv text)

  abbrev pub fetch_rows : Result (String × String) → Result Json
  fetch_rows (err e) = err e
  fetch_rows (ok (bucket, key)) = parse_rows (get_object_text bucket key objects)

  abbrev pub located_rows : Option String → Result Json
  located_rows none = err (error (append type ": no source.location"))
  located_rows (some location) = fetch_rows (parse_s3_url location)

  -- Rows in the source itself are taken only from an array.
  abbrev pub inline_rows : Option Json → Result Json → Result Json
  inline_rows (some (arr xs)) other = ok (arr xs)
  inline_rows _ other = other

  unfoldable pub read_rows : Result Json
  unfolding parse_rows location_of
  read_rows =
      let stored = located_rows (location_of source job_source) in
      if is_kind "inline" then inline_rows (get_field "rows" source) stored else stored
