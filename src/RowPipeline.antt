-- ===== src/RowPipeline.antt =====
-- services/worker-core/src/rowPipeline.ts: the chunks of a row job, the work on one chunk, and the
-- concurrent loops that take the chunks. The row handler and the rule engine's verdict on a row are
-- arguments. A call that fails ends the job and is not modelled here.
pub mod Loops
pub mod Counts
pub mod Plan
use task_schedular.Prelude.{
  str_eq, ◌&&◌, ℕ, zero, suc, ◌+◌, ◌-◌, ◌*◌, ◌/◌, String, Bool, true, false, Option, none, some,
  List, [], ◌∷◌, ◌++◌, max, min, ltb, length, if◌then◌else◌, ◌==◌,
}
use task_schedular.Contracts.Json.{Fields}

pub record Chunk : Type 0 where
  pub index : ℕ
  pub start : ℕ
  pub end : ℕ

-- Math.max(1, Math.ceil(total / chunkSize)), for a positive size
unfoldable pub chunk_count : ℕ → ℕ → ℕ
chunk_count total size = max 1 ((total + (size - 1)) / size)

abbrev pub chunk_of : ℕ → ℕ → ℕ → Chunk
chunk_of total size i = record { index = i; start = i * size; end = min ((i + 1) * size) total }

-- The loop from `i`, with so many chunks to come.
abbrev pub chunks_from : ℕ → ℕ → ℕ → ℕ → List Chunk
chunks_from total size i zero = []
chunks_from total size i (suc n) = chunk_of total size i ∷ chunks_from total size (i + 1) n

unfoldable pub chunks : ℕ → ℕ → List Chunk
unfolding chunk_count
chunks total size = chunks_from total size 0 (chunk_count total size)

pub record RowFault : Type 0 where
  pub field : Option String
  pub rule : String
  pub message : String

pub record RowOutcome : Type 0 where
  pub processed : Bool
  pub error : Option RowFault

pub record Evaluation : Type 0 where
  pub valid : Bool
  pub errors : List RowFault
  pub value : Fields

-- A row of `job_errors`, and what the work on a chunk leaves: the target database with the errors
-- recorded so far, and the two counts of the chunk.
pub record RowError : Type 0 where
  pub row_number : ℕ
  pub fault : RowFault
  pub raw : Fields

pub record Work (T : Type 0) : Type 0 where
  pub target : T
  pub row_errors : List RowError
  pub processed : ℕ
  pub errors : ℕ

abbrev pub record_faults : ℕ → Fields → List RowFault → List RowError → List RowError
record_faults n source [] old = old
record_faults n source (f ∷ fs) old =
    record_faults n source fs (record { row_number = n; fault = f; raw = source } ∷ old)

module _ {T : Type 0} where
  -- The errors of a row that is not valid.
  abbrev pub reject : ℕ → Fields → List RowFault → Work T → Work T
  reject n source faults w = record w {
    row_errors = record_faults n source faults w.row_errors;
    errors = w.errors + length faults;
  }

  abbrev pub with_error : ℕ → Fields → Option RowFault → Work T → Work T
  with_error n source none w = w
  with_error n source (some f) w = reject n source (f ∷ []) w

-- The rules' verdict on a row, if rows are validated
abbrev pub verdict : Option (Fields → Evaluation) → Fields → Option Evaluation
verdict none source = none
verdict (some f) source = some (f source)

module _ {T : Type 0} (evaluate : Option (Fields → Evaluation))
    (per_row : ℕ → Fields → Fields → T → RowOutcome × T) where
  abbrev pub act : ℕ → Fields → Fields → Work T → Work T
  act n source value w =
      let (out, t) = per_row n source value w.target in
      with_error n source out.error (record w {
        target = t;
        processed = if out.processed then w.processed + 1 else w.processed;
      })

  -- What follows from the verdict.
  abbrev pub judged : ℕ → Fields → Option Evaluation → Work T → Work T
  judged n source none w = act n source source w
  judged n source (some e) w =
      if e.valid then act n source e.value w else reject n source e.errors w

  unfoldable pub process_row : ℕ → Fields → Work T → Work T
  process_row n source w = judged n source (verdict evaluate source) w

  -- The rows of a chunk, from a row number on.
  unfoldable pub process_rows : ℕ → List Fields → Work T → Work T
  unfolding process_row
  process_rows n [] w = w
  process_rows n (r ∷ rs) w = process_rows (n + 1) rs (process_row n r w)

-- What one of the concurrent loops is at: before the test of `while`, waiting for the answer of
-- isCancelled, at work on a chunk, returned, or thrown by reading an undefined chunk.
pub data Loop : Type 0 where
  testing asking returned crashed : Loop
  working : (chunk : ℕ) → Loop

-- All loops of a job, and the variables that they share; `taken` are the chunks taken, the last
-- one first.
pub record Pool : Type 0 where
  pub loops : ℕ → Loop
  pub cursor : ℕ
  pub cancelled : Bool
  pub taken : List ℕ

abbrev pub set_loop : ℕ → Loop → Pool → Pool
set_loop i l p = record p { loops = λ j. if i == j then l else p.loops j }

-- The synchronous part up to the next wait: the test of `while`, and of `cancelled`.
unfoldable pub test : ℕ → ℕ → Pool → Pool
test count i p =
    if ltb p.cursor count
    then (if p.cancelled then set_loop i returned p else set_loop i asking p)
    else set_loop i returned p

-- `chunks[cursor++]!`, once isCancelled has said no: beyond the last chunk it is undefined, and
-- reading its index throws.
unfoldable pub take_chunk : ℕ → ℕ → Pool → Pool
take_chunk count i p =
    if ltb p.cursor count
    then set_loop i (working p.cursor)
        (record p { cursor = p.cursor + 1; taken = p.cursor ∷ p.taken })
    else set_loop i crashed (record p { cursor = p.cursor + 1 })

unfoldable pub stop : ℕ → Pool → Pool
stop i p = set_loop i returned (record p { cancelled = true })

-- `sourceFieldFor`: the first source field that is mapped to a column
unfoldable pub source_field_for : List (String × String) → String → Option String
source_field_for [] column = none
source_field_for ((src, tgt) ∷ m) column =
    if str_eq tgt column then some src else source_field_for m column

-- `firstUnique`: the first mapped column that the table has and whose name passes the pattern
-- /code|key|email/i, a test that is an argument
unfoldable pub first_unique :
    (String → Bool) → (String → Bool) → List (String × String) → Option String
first_unique has_column is_key [] = none
first_unique has_column is_key ((src, tgt) ∷ m) =
    if is_key tgt && has_column tgt then some tgt else first_unique has_column is_key m
