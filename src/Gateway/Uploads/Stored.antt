-- ===== src/Gateway/Uploads/Stored.antt =====
-- An uploaded worksheet, read back.
use Prim.Native.String.{[] as empty, ◌∷◌ as ◌before◌}
use task_schedular.Prelude.{
  suc, String, true, false, not, ◌||◌, none, some, List, [], ◌∷◌, map, keep, any, length, listed,
  Distinct, str_eq, eq_iff, eq_refl, ◌≡◌, refl, sym, ap, ◌∙◌, All, arith, Bool-cases, inl, inr,
  if◌then◌else◌,
}
use task_schedular.Prelude.Act.{Result, ok}
use task_schedular.Contracts.Json.{Json, Fields, str, end, field, get_field, set_field}
use task_schedular.Csv.{cell_text}
use task_schedular.Csv.Reader.{is_line, read_csv, read_csv-lines_text}
use task_schedular.Gateway.Uploads.{
  CellValue, SheetRow, ParsedUpload, cell_to_string, is_named, first_cell, later_cells, row_object,
  is_filled, has_value, is_header, headers_of, objects_of, is_excel, upload_of, to_csv_text,
  parse_sheet, parse_upload,
}

-- The texts of a row's cells that stand below a named header
abbrev pub own_cells : List String → List CellValue → List String
own_cells [] cells = []
own_cells (h ∷ hs) cells =
    let rest = own_cells hs (later_cells cells) in
    if is_named h then cell_to_string (first_cell cells) ∷ rest else rest

get_field-set_field : (k : String) (v : Json) (o : Fields) → get_field k (set_field k v o) ≡ some v
unfolding get_field set_field
get_field-set_field k v end = rw (eq_refl k)
get_field-set_field k v (field j w o) = ground (arith, get_field-set_field k v o, eq_refl k)

get_field_kept :
    (k h : String) (v : Json) (o : Fields)
    → str_eq k h ≡ false
    → get_field k (set_field h v o) ≡ get_field k o
unfolding get_field set_field
get_field_kept k h v end n = ground (arith, eq_iff k h, eq_iff h k)
get_field_kept k h v (field j w o) n =
    ground (arith, get_field_kept k h v o n, eq_iff k h, eq_iff h k, eq_iff j k, eq_iff j h)

has_value-set_field :
    (h : String) (v : Json) (o : Fields)
    → get_field h o ≡ none
    → has_value (set_field h v o) ≡ (has_value o || is_filled v)
unfolding get_field set_field
has_value-set_field h v end e = ground arith
has_value-set_field h v (field j w o) e = ground (arith, has_value-set_field h v o)

is_filled-str : (s : String) → is_filled (str s) ≡ is_named s
is_filled-str empty = refl
is_filled-str (c before s) = refl

-- None of these texts is a field.
abbrev Fresh : List String → Fields → Type 0
Fresh ks o = All (λ k. get_field k o ≡ none) ks

set_field-Fresh :
    (h : String) (v : Json) (ks : List String) (o : Fields)
    → listed h ks ≡ false
    → Fresh ks o
    → Fresh ks (set_field h v o)
set_field-Fresh h v [] o n f = tt
set_field-Fresh h v (k ∷ ks) o n (e, f) = (
  get_field_kept k h v o (ground (arith, eq_iff k h, eq_iff h k)) ∙ e,
  set_field-Fresh h v ks o (ground arith) f,
)

end-Fresh : (ks : List String) → Fresh ks end
unfolding get_field
end-Fresh [] = tt
end-Fresh (k ∷ ks) = (refl, end-Fresh ks)

row_object_kept :
    (k : String) (hs : List String) (cells : List CellValue) (out : Fields)
    → listed k (keep is_named hs) ≡ false
    → get_field k (row_object hs cells out) ≡ get_field k out
unfolding row_object
row_object_kept k [] cells out n = refl
row_object_kept k (h ∷ hs) cells out n = elim (Bool-cases (is_named h)) [
  | inl named ↦
      let v = str (cell_to_string (first_cell cells)) in
      rw named (
        row_object_kept k hs (later_cells cells) (set_field h v out) (ground arith)
        ∙ get_field_kept k h v out (ground arith))
  | inr hole ↦ rw hole (row_object_kept k hs (later_cells cells) out (ground arith))
]

module _ (text : Json → String) (plain : (s : String) → text (str s) ≡ s) where
  cells-row_object :
      (hs : List String) (cells : List CellValue) (out : Fields)
      → Distinct (keep is_named hs)
      → map (λ h. cell_text text (get_field h (row_object hs cells out))) (keep is_named hs)
        ≡ own_cells hs cells
  unfolding row_object
  cells-row_object [] cells out d = refl
  cells-row_object (h ∷ hs) cells out d = elim (Bool-cases (is_named h)) [
    | inl named ↦
        let s = cell_to_string (first_cell cells) in
        let apart : Distinct (h ∷ keep is_named hs) = rw named at d in
        let (once, d') = apart in
        rw (
          named,
          row_object_kept h hs (later_cells cells) (set_field h (str s) out) once,
          get_field-set_field h (str s) out,
          plain s,
          cells-row_object hs (later_cells cells) (set_field h (str s) out) d',
        )
    | inr hole ↦ rw hole (cells-row_object hs (later_cells cells) out (rw hole at d))
  ]

has_value-row_object :
    (hs : List String) (cells : List CellValue) (out : Fields)
    → Distinct (keep is_named hs)
    → Fresh (keep is_named hs) out
    → has_value (row_object hs cells out) ≡ (has_value out || any is_named (own_cells hs cells))
unfolding row_object
has_value-row_object [] cells out d f = ground arith
has_value-row_object (h ∷ hs) cells out d f = elim (Bool-cases (is_named h)) [
  | inl named ↦
      let s = cell_to_string (first_cell cells) in
      let apart : Distinct (h ∷ keep is_named hs) = rw named at d in
      let (once, d') = apart in
      let none_yet : Fresh (h ∷ keep is_named hs) out = rw named at f in
      let (free, f') = none_yet in
      rw
        (
          named,
          has_value-row_object hs (later_cells cells) (set_field h (str s) out) d'
              (set_field-Fresh h (str s) (keep is_named hs) out once f'),
          has_value-set_field h (str s) out free,
          is_filled-str s,
        )
        (ground arith)
  | inr hole ↦
      rw hole (has_value-row_object hs (later_cells cells) out (rw hole at d) (rw hole at f))
]

any-is_line : (l : List String) → any is_named l ≡ true → is_line l ≡ true
any-is_line [] h = cc
any-is_line (s ∷ l) h = refl

kept_lines : (ls : List (List String)) → All (λ l. is_line l ≡ true) (keep (any is_named) ls)
kept_lines [] = tt
kept_lines (l ∷ ls) = elim (Bool-cases (any is_named l)) [
  | inl filled ↦ rw filled (any-is_line l filled, kept_lines ls)
  | inr blank ↦ rw blank (kept_lines ls)
]

length-mapped {ℓ κ} :
    {A : Type ℓ} {B : Type κ} (f : A → B) (xs : List A) → length (map f xs) ≡ length xs
length-mapped f [] = refl
length-mapped f (x ∷ xs) = ap suc (length-mapped f xs)

-- The cells below the named headers, of the rows that have one with a text
abbrev pub data_lines : List String → List SheetRow → List (List String)
data_lines headers sheet =
    keep (any is_named)
      (map (λ (n, cells). own_cells headers cells) (keep (λ r. not (is_header r)) sheet))

module _ (trim : String → String) (text : Json → String)
    (plain : (s : String) → text (str s) ≡ s) where
  object_lines :
      (headers : List String) (rs : List SheetRow)
      → Distinct (keep is_named headers)
      → map
          (λ r. map (λ h. cell_text text (get_field h r)) (keep is_named headers))
          (keep has_value (map (λ (n, cells). row_object headers cells end) rs))
        ≡ keep (any is_named) (map (λ (n, cells). own_cells headers cells) rs)
  object_lines headers [] d = refl
  object_lines headers ((n, cells) ∷ rs) d =
      let same = has_value-row_object headers cells end d (end-Fresh (keep is_named headers)) in
      elim (Bool-cases (any is_named (own_cells headers cells))) [
        | inl filled ↦ rw (
          same,
          filled,
          cells-row_object text plain headers cells end d,
          object_lines headers rs d,
        )
        | inr blank ↦ rw (same, blank, object_lines headers rs d)
      ]

  -- A worksheet with at least one named header, no two alike, is accepted. The stored text, read as CSV,
  -- has the named headers and then, in order, the texts of the cells below them of every row that has one
  -- with a text; the count is the number of these rows. The text of a string is the string.
  pub read_csv-parse_upload :
      {Bytes : Type 0} (load : Bytes → Result (List (List SheetRow)))
      (read_records : String → Result (List Fields)) (to_lower : String → String)
      (utf8 : Bytes → String) (filename : String) (buf : Bytes) (sheet : List SheetRow)
      (more : List (List SheetRow)) (c : String) (cs : List String)
      → is_excel (to_lower filename) ≡ true
      → load buf ≡ ok (sheet ∷ more)
      → keep is_named (headers_of trim sheet) ≡ c ∷ cs
      → Distinct (c ∷ cs)
      → let lines = data_lines (headers_of trim sheet) sheet in
        (u : ParsedUpload) × (parse_upload trim text load read_records to_lower utf8 filename buf
          ≡ ok u)
        × (u.columns ≡ c ∷ cs)
        × (u.row_count ≡ length lines)
        × (read_csv u.csv_text ≡ (c ∷ cs) ∷ lines)
  unfolding parse_upload parse_sheet to_csv_text
  read_csv-parse_upload load read_records to_lower utf8 filename buf sheet more c cs excel loaded
        named d =
      let headers = headers_of trim sheet in
      let columns = keep is_named headers in
      let rows = objects_of headers sheet in
      let lines = data_lines headers sheet in
      let apart : Distinct columns = rw named d in
      let same = object_lines headers (keep (λ r. not (is_header r)) sheet) apart in
      let line : Fields → List String = λ r. map (λ h. cell_text text (get_field h r)) columns in
      (
        upload_of columns rows (to_csv_text trim text columns rows),
        rw (excel, loaded, parse_sheet, named) refl,
        named,
        sym (length-mapped line rows) ∙ ap length same,
        rw same (
            rw named (
              read_csv-lines_text (c ∷ cs) lines (
                refl,
                kept_lines (
                    map (λ (n, cells). own_cells headers cells)
                      (keep (λ r. not (is_header r)) sheet)),
              ))),
      )
