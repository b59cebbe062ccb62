-- ===== src/Csv/Rejects.antt =====
-- The file of an import's rejected rows, read back.
use Prim.Native.String.{String, [] as empty, ◌∷◌ as ◌before◌}
use task_schedular.Prelude.{
  ℕ, suc, true, Option, none, some, List, [], ◌∷◌, ◌++◌, map, ◌≡◌, refl, All,
}
use task_schedular.Contracts.Json.{Json, Fields, get_field}
use task_schedular.Csv.{
  cell_text, columns_of, status_cells, rejects_from, rejects_lines, rejects_file,
}
use task_schedular.Csv.Reader.{is_line, read_csv, read_csv-render}

is_line-append : (xs ys : List String) → is_line ys ≡ true → is_line (xs ++ ys) ≡ true
is_line-append [] ys h = h
is_line-append (x ∷ xs) ys h = refl

is_line-status_cells :
    (text : Json → String) (o : Option String) → is_line (status_cells text o) ≡ true
is_line-status_cells text none = refl
is_line-status_cells text (some empty) = refl
is_line-status_cells text (some (c before s)) = refl

module _ (text : Json → String) (reason : ℕ → Option String) where
  rejects_from-lines :
      (columns : List String) (i : ℕ) (records : List Fields)
      → All (λ l. is_line l ≡ true) (rejects_from text reason columns i records)
  unfolding rejects_from
  rejects_from-lines columns i [] = tt
  rejects_from-lines columns i (r ∷ rs) = (
    is_line-append (map (λ c. cell_text text (get_field c r)) columns)
        (status_cells text (reason (suc i))) (is_line-status_cells text (reason (suc i))),
    rejects_from-lines columns (suc i) rs,
  )

  -- The file of the rejected rows, read as CSV, has the columns of the first record with `_status` and
  -- `_reason`, one line for each record with its cells, its status and its reason, and an empty line.
  pub read_csv-rejects_file :
      (records : List Fields)
      → read_csv (rejects_file text reason records)
        ≡ rejects_lines text reason records ++ (("" ∷ []) ∷ [])
  unfolding rejects_file rejects_lines
  read_csv-rejects_file records = read_csv-render (rejects_lines text reason records) (
    is_line-append (columns_of text records) ("_status" ∷ "_reason" ∷ []) refl,
    rejects_from-lines (columns_of text records) 0 records,
  )
