-- ===== src/Reporter/Batches.antt =====
-- The batch of a job in Postgres (packages/worker-runtime/src/reporter.ts) and its progress counters in
-- Redis (packages/realtime/src/index.ts), as the row jobs keep them. Both counters of remaining chunks
-- may go below zero in the code; they stop at zero here. A batch has each chunk number once, so the
-- unique index on the numbers is left out.
pub mod Agree
use task_schedular.Prelude.{
  ℕ, zero, suc, ◌+◌, ◌-◌, String, Bool, Option, none, some, List, [], ◌∷◌, ◌==◌, if◌then◌else◌,
  update_where,
}

pub data Phase : Type 0 where
  pending running completed failed : Phase

-- `id` is the row's identifier, which the database makes up.
pub record BatchChunk : Type 0 where
  pub id : ℕ
  pub index : ℕ
  pub row_start : ℕ
  pub row_end : ℕ
  pub status : Phase
  pub processed_count : ℕ
  pub error : Option String

pub record Batch : Type 0 where
  pub total_rows : ℕ
  pub chunk_size : ℕ
  pub chunk_count : ℕ
  pub chunks_remaining : ℕ
  pub error_count : ℕ
  pub status : Phase
  pub chunks : List BatchChunk

pub record Progress : Type 0 where
  pub total : ℕ
  pub processed : ℕ
  pub errors : ℕ
  pub chunks_remaining : ℕ
  pub status : String

unfoldable pub create_batch : ℕ → ℕ → ℕ → Batch
create_batch total size count = record {
  total_rows = total;
  chunk_size = size;
  chunk_count = count;
  chunks_remaining = count;
  error_count = 0;
  status = running;
  chunks = [];
}

unfoldable pub create_chunk : ℕ → ℕ → ℕ → ℕ → Batch → Batch
create_chunk id i start stop b = record b {
  chunks =
      record {
        id = id;
        index = i;
        row_start = start;
        row_end = stop;
        status = pending;
        processed_count = 0;
        error = none;
      }
      ∷ b.chunks;
}

abbrev change_chunk : ℕ → (BatchChunk → BatchChunk) → Batch → Batch
change_chunk id f b = record b { chunks = update_where (λ c. c.id == id) f b.chunks }

unfoldable pub chunk_running : ℕ → Batch → Batch
chunk_running id = change_chunk id λ c. record c { status = running }

unfoldable pub chunk_done : ℕ → ℕ → ℕ → Batch → Batch
chunk_done id processed errors b =
    let b' =
      change_chunk id (λ c. record c { status = completed; processed_count = processed }) b in
    record b' { chunks_remaining = b.chunks_remaining - 1; error_count = b.error_count + errors }

unfoldable pub chunk_failed : ℕ → String → Batch → Batch
chunk_failed id message = change_chunk id λ c. record c { status = failed; error = some message }

unfoldable pub finish_batch : Batch → Batch
finish_batch b = record b { status = completed }

unfoldable pub init_progress : ℕ → ℕ → Progress
init_progress total remaining = record {
  total = total;
  processed = 0;
  errors = 0;
  chunks_remaining = remaining;
  status = "running";
}

-- Counts of zero are not sent, which changes nothing.
unfoldable pub bump_progress : ℕ → ℕ → ℕ → Progress → Progress
bump_progress processed errors done p = record p {
  processed = p.processed + processed;
  errors = p.errors + errors;
  chunks_remaining = p.chunks_remaining - done;
}

unfoldable pub set_progress_status : String → Progress → Progress
set_progress_status s p = record p { status = s }

-- A chunk that a worker loop has worked on: its row's identifier, its number, rows and counts
pub record Worked : Type 0 where
  pub id : ℕ
  pub index : ℕ
  pub start : ℕ
  pub stop : ℕ
  pub processed : ℕ
  pub errors : ℕ

-- The reports of one chunk, as in rowPipeline.ts and bulkImport.ts
unfoldable pub report_chunk : Worked → Batch × Progress → Batch × Progress
unfolding create_chunk chunk_running chunk_done bump_progress
report_chunk c (b, p) = (
  chunk_done c.id c.processed c.errors
      (chunk_running c.id (create_chunk c.id c.index c.start c.stop b)),
  bump_progress c.processed c.errors 1 p,
)

unfoldable pub report_chunks : List Worked → Batch × Progress → Batch × Progress
unfolding report_chunk
report_chunks [] s = s
report_chunks (c ∷ cs) s = report_chunks cs (report_chunk c s)

unfoldable pub begin_reports : ℕ → ℕ → ℕ → Batch × Progress
unfolding create_batch init_progress
begin_reports total size count = (create_batch total size count, init_progress total count)
