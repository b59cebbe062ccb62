-- ===== src/Reporter/Batches/Agree.antt =====
-- The batch and the progress of a job agree.
use task_schedular.Prelude.{ℕ, ◌+◌, ◌-◌, List, [], ◌∷◌, length, ◌≡◌, refl, arith}
use task_schedular.Reporter.Batches.{
  Batch, Progress, Worked, create_chunk, chunk_running, chunk_done, bump_progress, report_chunk,
  report_chunks, begin_reports,
}

abbrev pub total_processed : List Worked → ℕ
total_processed [] = 0
total_processed (c ∷ cs) = c.processed + total_processed cs

abbrev pub total_errors : List Worked → ℕ
total_errors [] = 0
total_errors (c ∷ cs) = c.errors + total_errors cs

-- The batch and the progress have so many chunks to come, and so many rows processed and errors.
abbrev pub Shows : ℕ → ℕ → ℕ → Batch × Progress → Type 0
Shows remaining processed errors (b, p) =
    (b.chunks_remaining ≡ remaining)
    × (p.chunks_remaining ≡ remaining)
    × (p.processed ≡ processed)
    × (b.error_count ≡ errors)
    × (p.errors ≡ errors)

report_chunk-Shows :
    (c : Worked) (n p e : ℕ) (s : Batch × Progress)
    → Shows n p e s
    → Shows (n - 1) (p + c.processed) (e + c.errors) (report_chunk c s)
unfolding report_chunk create_chunk chunk_running chunk_done bump_progress
report_chunk-Shows c n p e (b, q) (left, left', rows, wrong, wrong') = (
  omega (arith, left),
  omega (arith, left'),
  omega (arith, rows),
  omega (arith, wrong),
  omega (arith, wrong'),
)

-- The same counts, written otherwise
report_chunks-Shows :
    (cs : List Worked) (n p e : ℕ) (s : Batch × Progress)
    → Shows n p e s
    → Shows (n - length cs) (p + total_processed cs) (e + total_errors cs) (report_chunks cs s)
unfolding report_chunks
report_chunks-Shows [] n p e s (left, left', rows, wrong, wrong') = (
  omega (arith, left),
  omega (arith, left'),
  omega (arith, rows),
  omega (arith, wrong),
  omega (arith, wrong'),
)
report_chunks-Shows (c ∷ cs) n p e s h =
    let (left, left', rows, wrong, wrong') =
      report_chunks-Shows cs (n - 1) (p + c.processed) (e + c.errors) (report_chunk c s)
        (report_chunk-Shows c n p e s h) in
    (
      omega (arith, left),
      omega (arith, left'),
      omega (arith, rows),
      omega (arith, wrong),
      omega (arith, wrong'),
    )

-- After some chunks of a job, in any order, its batch and its progress show the same remaining chunks
-- (those of the plan without these) and the same errors, which are the sums over these chunks.
pub begin_reports-Shows :
    (total size count : ℕ) (cs : List Worked)
    → Shows
        (count - length cs)
        (total_processed cs)
        (total_errors cs)
        (report_chunks cs (begin_reports total size count))
unfolding begin_reports
begin_reports-Shows total size count cs =
    let (left, left', rows, wrong, wrong') =
      report_chunks-Shows cs count 0 0 (begin_reports total size count)
        (refl, refl, refl, refl, refl) in
    (left, left', omega (arith, rows), omega (arith, wrong), omega (arith, wrong'))
