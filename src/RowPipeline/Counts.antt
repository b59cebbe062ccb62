-- ===== src/RowPipeline/Counts.antt =====
-- The counts of a chunk against what was recorded.
use task_schedular.Prelude.{
  ℕ, ◌+◌, ◌≤◌, Option, none, some, List, [], ◌∷◌, length, ◌≡◌, arith, if◌then◌else◌,
}
use task_schedular.Contracts.Json.{Fields}
use task_schedular.RowPipeline.{
  RowFault, RowOutcome, Evaluation, RowError, Work, record_faults, reject, with_error, act, judged,
  verdict, process_row, process_rows,
}

length-record_faults :
    (n : ℕ) (source : Fields) (fs : List RowFault) (old : List RowError)
    → length (record_faults n source fs old) ≡ length fs + length old
length-record_faults n source [] old = omega arith
length-record_faults n source (f ∷ fs) old = omega (
  arith,
  length-record_faults n source fs (record { row_number = n; fault = f; raw = source } ∷ old),
)

module _ {T : Type 0} where
  -- As many rows of errors were added as errors were counted, and at most so many rows processed.
  abbrev pub Counted : ℕ → Work T → Work T → Type 0
  Counted rows w w' =
      (length w'.row_errors + w.errors ≡ length w.row_errors + w'.errors)
      × (w'.processed ≤ w.processed + rows)

  reject-Counted :
      (n : ℕ) (source : Fields) (fs : List RowFault) (w : Work T)
      → Counted 0 w (reject n source fs w)
  reject-Counted n source fs w =
      (omega (arith, length-record_faults n source fs w.row_errors), omega arith)

  with_error-Counted :
      (n : ℕ) (source : Fields) (o : Option RowFault) (w : Work T)
      → Counted 0 w (with_error n source o w)
  with_error-Counted n source none w = ground arith
  with_error-Counted n source (some f) w = reject-Counted n source (f ∷ []) w

  module _ (evaluate : Option (Fields → Evaluation))
      (per_row : ℕ → Fields → Fields → T → RowOutcome × T) where
    act-Counted :
        (n : ℕ) (source value : Fields) (w : Work T)
        → Counted 1 w (act evaluate per_row n source value w)
    act-Counted n source value w =
        let out = (per_row n source value w.target).0 in
        let w' : Work T = record w {
          target = (per_row n source value w.target).1;
          processed = if out.processed then w.processed + 1 else w.processed;
        } in
        ground (arith, with_error-Counted n source out.error w')

    judged-Counted :
        (n : ℕ) (source : Fields) (e : Option Evaluation) (w : Work T)
        → Counted 1 w (judged evaluate per_row n source e w)
    judged-Counted n source none w = act-Counted n source source w
    judged-Counted n source (some e) w =
        ground (arith, act-Counted n source e.value w, reject-Counted n source e.errors w)

    process_row-Counted :
        (n : ℕ) (source : Fields) (w : Work T)
        → Counted 1 w (process_row evaluate per_row n source w)
    unfolding process_row
    process_row-Counted n source w = judged-Counted n source (verdict evaluate source) w

    -- The work on the rows of a chunk records as many row errors as it counts, and counts at most one
    -- processed row for each row.
    pub process_rows-Counted :
        (n : ℕ) (rs : List Fields) (w : Work T)
        → Counted (length rs) w (process_rows evaluate per_row n rs w)
    unfolding process_rows
    process_rows-Counted n [] w = ground arith
    process_rows-Counted n (r ∷ rs) w = ground (
      arith,
      process_row-Counted n r w,
      process_rows-Counted (n + 1) rs (process_row evaluate per_row n r w),
    )
