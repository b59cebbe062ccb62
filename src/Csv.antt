-- ===== src/Csv.antt =====
-- The CSV texts that the services write: services/worker-edge/src/serialize.ts (an outbound file) and
-- services/worker-core/src/handlers/bulkImport.ts (the file of an import's rejected rows). The text of
-- a value, `String(v)`, is an argument.
pub mod Reader
pub mod Rejects
use Prim.Native.Char.{Char, code}
use Prim.Native.String.{String, [] as empty, ◌∷◌ as ◌before◌, ◌++◌ as append}
use task_schedular.Prelude.{
  ℕ, suc, Bool, true, false, ◌||◌, Option, none, some, List, [], ◌∷◌, ◌++◌, map, ◌==◌, or_else,
  if◌then◌else◌,
}
use task_schedular.Contracts.Json.{Json, Fields, null, end, field, get_field, set_field}

abbrev pub quote : Char
quote = "\""

-- /[",\n\r]/ of bulkImport.ts, and /[",\n]/ of serialize.ts
abbrev pub is_special : Char → Bool
is_special c = ((code c == b'"' || code c == b',') || code c == b'\n') || code c == b'\r'

abbrev pub is_special_outbound : Char → Bool
is_special_outbound c = (code c == b'"' || code c == b',') || code c == b'\n'

abbrev pub has : (Char → Bool) → String → Bool
has p empty = false
has p (c before s) = p c || has p s

-- `s.replace(/"/g, '""')`
unfoldable pub doubled : String → String
doubled empty = empty
doubled (c before s) =
    let rest = doubled s in
    if code c == b'"' then quote before (quote before rest) else c before rest

unfoldable pub escape : (Char → Bool) → String → String
unfolding doubled
escape special s = if has special s then quote before append (doubled s) (quote before empty) else s

abbrev pub joined : (Char → Bool) → List String → String
joined special [] = ""
joined special (s ∷ []) = escape special s
joined special (s ∷ (t ∷ more)) = append (escape special s) ("," before joined special (t ∷ more))

-- The lines of a file, each ended by a line feed
unfoldable pub render : (Char → Bool) → List (List String) → String
unfolding escape
render special [] = ""
render special (line ∷ more) = append (joined special line) ("\n" before render special more)

-- Lines with a line feed between them
abbrev pub lines_text : List (List String) → String
lines_text [] = ""
lines_text (l ∷ []) = joined is_special l
lines_text (l ∷ (m ∷ more)) = append (joined is_special l) ("\n" before lines_text (m ∷ more))

module _ (text : Json → String) where
  -- The cell of a value: null and undefined are empty.
  abbrev pub cell_text : Option Json → String
  cell_text none = ""
  cell_text (some null) = ""
  cell_text (some v) = text v

  -- rowToSource
  unfoldable pub row_to_source : List (String × String) → Fields → Fields → Fields
  row_to_source [] row out = out
  row_to_source ((src, tgt) ∷ m) row out =
      row_to_source m row (elim (get_field tgt row) [ none ↦ out | some v ↦ set_field src v out ])

  abbrev pub outbound_cells : List (String × String) → Fields → List String
  outbound_cells m row = map (λ (src, tgt). cell_text (get_field tgt row)) m

  -- The lines of toCsv of serialize.ts, and its text
  unfoldable pub outbound_lines : List (String × String) → List Fields → List (List String)
  outbound_lines m rows = map (λ (src, tgt). src) m ∷ map (outbound_cells m) rows

  unfoldable pub to_csv : List (String × String) → List Fields → String
  unfolding outbound_lines render
  to_csv m [] = append (render is_special_outbound (outbound_lines m [])) "\n"
  to_csv m (r ∷ rs) = render is_special_outbound (outbound_lines m (r ∷ rs))

  abbrev keys : Fields → List String
  keys end = []
  keys (field k v o) = k ∷ keys o

  -- The columns of the file are those of the first record.
  abbrev pub columns_of : List Fields → List String
  columns_of [] = []
  columns_of (r ∷ rs) = keys r

  -- `_status` and `_reason`; an empty reason counts as none.
  abbrev pub status_cells : Option String → List String
  status_cells none = "OK" ∷ "" ∷ []
  status_cells (some empty) = "OK" ∷ "" ∷ []
  status_cells (some reason) = "REJECTED" ∷ reason ∷ []

  -- The record `i` is the row with the number `i + 1`.
  unfoldable pub rejects_from :
      (ℕ → Option String) → List String → ℕ → List Fields → List (List String)
  rejects_from reason columns i [] = []
  rejects_from reason columns i (r ∷ rs) =
      (map (λ c. cell_text (get_field c r)) columns ++ status_cells (reason (suc i)))
      ∷ rejects_from reason columns (suc i) rs

  unfoldable pub rejects_lines : (ℕ → Option String) → List Fields → List (List String)
  unfolding rejects_from
  rejects_lines reason records =
      (columns_of records ++ ("_status" ∷ "_reason" ∷ []))
      ∷ rejects_from reason (columns_of records) 0 records

  -- The text that writeRejectsFile stores
  unfoldable pub rejects_file : (ℕ → Option String) → List Fields → String
  unfolding rejects_lines render
  rejects_file reason records = render is_special (rejects_lines reason records)
