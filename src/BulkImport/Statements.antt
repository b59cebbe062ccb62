-- ===== src/BulkImport/Statements.antt =====
-- The text and the parameters of the multi-row INSERT of
-- services/worker-core/src/handlers/bulkImport.ts.
use Prim.Native.Char.{code}
use Prim.Native.String.{◌++◌ as append, [] as empty, ◌∷◌ as ◌before◌}
use text.Mathlib.TextLemmas.{cons-append, nil-append}
use native.Mathlib.Nat.{div-mul-le_self, mul-le-mul_left, mul_comm}
use task_schedular.Prelude.{
  ℕ, suc, ◌+◌, ◌-◌, ◌*◌, ◌/◌, ◌≤◌, String, Option, some, List, [], ◌∷◌, ◌++◌, length, length-append,
  ◌≡◌, refl, arith, ◌==◌, if◌then◌else◌, All, leb, leb→le, sym, subst, Bool-cases, inl, inr,
}
use task_schedular.Prelude.Show.{show}
use task_schedular.Targets.{Dialect}
use task_schedular.Targets.Promotion.{Cells}
use task_schedular.BulkImport.{Staged, rows_per_statement}

-- `values`: the row's number and its cells
abbrev values_of : Cells → List (Option String)
values_of [] = []
values_of ((c, v) ∷ cells) = v ∷ values_of cells

abbrev pub row_values : Staged → List (Option String)
row_values r = some (show r.row_number) ∷ values_of r.cells

abbrev joined_by_comma : List String → String
joined_by_comma [] = ""
joined_by_comma (s ∷ []) = s
joined_by_comma (s ∷ (t ∷ more)) = append s (append "," (joined_by_comma (t ∷ more)))

abbrev marks : List (Option String) → List String
marks [] = []
marks (v ∷ vs) = "?" ∷ marks vs

unfoldable pub tuple_text : Staged → String
tuple_text r = append "(" (append (joined_by_comma (marks (row_values r))) ")")

abbrev tuples : List Staged → List String
tuples [] = []
tuples (r ∷ rs) = tuple_text r ∷ tuples rs

unfoldable pub tuples_text : List Staged → String
unfolding tuple_text
tuples_text rows = joined_by_comma (tuples rows)

unfoldable pub statement_params : List Staged → List (Option String)
statement_params [] = []
statement_params (r ∷ rs) = row_values r ++ statement_params rs

-- The placeholders in a text
abbrev pub placeholders : String → ℕ
placeholders empty = 0
placeholders (c before s) = let n = placeholders s in if code c == b'?' then suc n else n

placeholders-append : (s t : String) → placeholders (append s t) ≡ placeholders s + placeholders t
placeholders-append empty t = rw (nil-append t) (omega arith)
placeholders-append (c before s) t =
    rw (cons-append c s t) (ground (arith, placeholders-append s t))

abbrev total : List String → ℕ
total [] = 0
total (s ∷ ss) = placeholders s + total ss

placeholders-joined : (ss : List String) → placeholders (joined_by_comma ss) ≡ total ss
placeholders-joined [] = refl
placeholders-joined (s ∷ []) = omega arith
placeholders-joined (s ∷ (t ∷ more)) = omega (
  arith,
  placeholders-append s (append "," (joined_by_comma (t ∷ more))),
  placeholders-append "," (joined_by_comma (t ∷ more)),
  placeholders-joined (t ∷ more),
)

total-marks : (vs : List (Option String)) → total (marks vs) ≡ length vs
total-marks [] = refl
total-marks (v ∷ vs) = omega (arith, total-marks vs)

placeholders-tuple_text : (r : Staged) → placeholders (tuple_text r) ≡ length (row_values r)
unfolding tuple_text
placeholders-tuple_text r =
    let inner = joined_by_comma (marks (row_values r)) in
    omega (
      arith,
      placeholders-append "(" (append inner ")"),
      placeholders-append inner ")",
      placeholders-joined (marks (row_values r)),
      total-marks (row_values r),
    )

total-tuples : (rows : List Staged) → total (tuples rows) ≡ length (statement_params rows)
unfolding statement_params
total-tuples [] = refl
total-tuples (r ∷ rows) = omega (
  arith,
  placeholders-tuple_text r,
  total-tuples rows,
  length-append (row_values r) (statement_params rows),
)

length-values_of : (cells : Cells) → length (values_of cells) ≡ length cells
length-values_of [] = refl
length-values_of ((c, v) ∷ cells) = omega (arith, length-values_of cells)

length-statement_params :
    (columns : ℕ) (rows : List Staged)
    → All (λ r. length r.cells ≡ columns) rows
    → length (statement_params rows) ≡ (columns + 1) * length rows
unfolding statement_params
length-statement_params columns [] h = omega arith
length-statement_params columns (r ∷ rows) h = omega (
  arith,
  length-append (row_values r) (statement_params rows),
  length-values_of r.cells,
  length-statement_params columns rows h.1,
  h.0,
)

rows_per_statement-fits :
    (d : Dialect) (columns : ℕ)
    → columns + 1 ≤ d.max_bind_params
    → (columns + 1) * rows_per_statement d columns ≤ d.max_bind_params
unfolding rows_per_statement
rows_per_statement-fits d columns h =
    let q = (d.max_bind_params - 1) / (columns + 1) in
    let below = div-mul-le_self (d.max_bind_params - 1) (columns + 1) in
    let n = rows_per_statement d columns in
    elim (Bool-cases (leb n q)) [
      | inl e ↦
          omega
            (arith, mul-le-mul_left (columns + 1) (leb→le n q e), below, mul_comm (columns + 1) q)
      | inr e ↦
          let one : n ≡ 1 = ground arith in
          subst (λ m. (columns + 1) * m ≤ d.max_bind_params) (sym one) (omega arith)
    ]

-- The statement for some rows of a chunk has as many placeholders as parameters, and no more than the
-- dialect can bind, if one row's fit.
pub tuples_text-fits :
    (d : Dialect) (columns : ℕ) (rows : List Staged)
    → columns + 1 ≤ d.max_bind_params
    → All (λ r. length r.cells ≡ columns) rows
    → length rows ≤ rows_per_statement d columns
    → (placeholders (tuples_text rows) ≡ length (statement_params rows))
      × (length (statement_params rows) ≤ d.max_bind_params)
unfolding tuples_text
tuples_text-fits d columns rows h k b =
    let n = rows_per_statement d columns in
    (
      rw (placeholders-joined (tuples rows)) (total-tuples rows),
      omega (
        arith,
        length-statement_params columns rows k,
        mul-le-mul_left (columns + 1) b,
        rows_per_statement-fits d columns h,
      ),
    )
