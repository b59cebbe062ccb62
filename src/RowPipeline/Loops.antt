-- ===== src/RowPipeline/Loops.antt =====
-- The concurrent loops as a step relation, and the counts of a chunk.
use task_schedular.Prelude.{ℕ, zero, suc, ◌+◌, ◌<◌, ◌≤◌, false, List, [], ◌∷◌, ◌≡◌, ◌≢◌, ◌⊎◌, arith}
use task_schedular.RowPipeline.{
  testing, asking, crashed, working, Pool, set_loop, test, take_chunk, stop,
}

-- One step of a loop: the test, either answer of isCancelled, or the end of a chunk's work.
pub data Step (count : ℕ) : Pool → Pool → Type 0 where
  tests : (i : ℕ) (p : Pool) → p.loops i ≡ testing → Step count p (test count i p)
  takes : (i : ℕ) (p : Pool) → p.loops i ≡ asking → Step count p (take_chunk count i p)
  stops : (i : ℕ) (p : Pool) → p.loops i ≡ asking → Step count p (stop i p)
  finishes : (i n : ℕ) (p : Pool) → p.loops i ≡ working n → Step count p (set_loop i testing p)

pub data Reach (count : ℕ) (s : Pool) : Pool → Type 0 where
  here : Reach count s s
  next : {p q : Pool} → Reach count s p → Step count p q → Reach count s q

abbrev pub begin : Pool
begin = record { loops = λ i. testing; cursor = 0; cancelled = false; taken = [] }

-- n - 1, …, 0
abbrev pub down_from : ℕ → List ℕ
down_from zero = []
down_from (suc n) = n ∷ down_from n

-- What is taken is the chunks below the cursor, or all chunks once a loop went beyond them.
abbrev pub Sequential : ℕ → Pool → Type 0
Sequential count p =
    (p.cursor ≤ count) × (p.taken ≡ down_from p.cursor)
    ⊎ (count < p.cursor) × (p.taken ≡ down_from count)

test-Sequential : (count i : ℕ) (p : Pool) → Sequential count p → Sequential count (test count i p)
unfolding test
test-Sequential count i p v = ground arith

take_chunk-Sequential :
    (count i : ℕ) (p : Pool) → Sequential count p → Sequential count (take_chunk count i p)
unfolding take_chunk
take_chunk-Sequential count i p v = ground arith

Step-Sequential :
    {count : ℕ} {p q : Pool} → Step count p q → Sequential count p → Sequential count q
unfolding stop
Step-Sequential (tests i p e) v = test-Sequential _ i p v
Step-Sequential (takes i p e) v = take_chunk-Sequential _ i p v
Step-Sequential (stops i p e) v = v
Step-Sequential (finishes i n p e) v = v

-- However the loops interleave, the chunks are taken in their order and none twice: what is taken is
-- the chunks below the cursor, or all chunks once the cursor is beyond the last one.
pub chunks_in_order : (count : ℕ) (p : Pool) → Reach count begin p → Sequential count p
chunks_in_order count p here = ground arith
chunks_in_order count q (next r s) = Step-Sequential s (chunks_in_order count _ r)

-- Two loops that both test while one chunk is left, and then both hear that the job is not cancelled:
-- the first takes the last chunk, and the second reads an undefined chunk and throws.
pub last_chunk_race :
    (count i j : ℕ) (p : Pool)
    → i ≢ j
    → p.loops i ≡ testing
    → p.loops j ≡ testing
    → p.cancelled ≡ false
    → p.cursor + 1 ≡ count
    → let q = take_chunk count j (take_chunk count i (test count j (test count i p))) in
      Reach count p q × (q.loops i ≡ working p.cursor) × (q.loops j ≡ crashed)
unfolding test take_chunk
last_chunk_race count i j p d a b c e = (
  next
      (next (next (next here (tests i p a)) (tests j (test count i p) (ground arith)))
        (takes i (test count j (test count i p)) (ground arith)))
      (takes j (take_chunk count i (test count j (test count i p))) (ground arith)),
  ground arith,
  ground arith,
)
