-- ===== src/RowPipeline/Plan.antt =====
-- The chunks partition the rows.
use task_schedular.Prelude.{ℕ, ◌+◌, ◌-◌, ◌*◌, ◌/◌, ◌≤◌, ◌<◌, ◌≡◌, ◌↔◌, sym, subst, arith}
use native.Mathlib.Nat.{div-eq_of_lt-le, div-mul-le_self, lt-div-mul-add, le-div_iff_mul-le}
use task_schedular.RowPipeline.{chunk_of, chunk_count}

-- Of row `r`, with a chunk number below the count.
abbrev pub Holds : ℕ → ℕ → ℕ → ℕ → Type 0
Holds total size i r =
    (i < chunk_count total size)
    × ((chunk_of total size i).start ≤ r)
    × (r < (chunk_of total size i).end)

quotient-Holds : (total size r : ℕ) → 0 < size → r < total → Holds total size (r / size) r
unfolding chunk_count
quotient-Holds total size r p q =
    let below = div-mul-le_self r size in
    let above = lt-div-mul-add {a = r} p in
    let more : (r / size + 1) * size ≤ total + (size - 1) = omega (arith, below, p, q) in
    let enough = (le-div_iff_mul-le {x = r / size + 1} {y = total + (size - 1)} p).1 more in
    (omega (arith, enough), below, omega (arith, above, q))

-- With a positive chunk size each row is in exactly one of the chunks: the one whose number is the
-- row's divided by the size.
pub chunks-partition :
    (total size r i : ℕ) → 0 < size → r < total → Holds total size i r ↔ (i ≡ r / size)
chunks-partition total size r i p q = (
  λ (_, low, high). sym (div-eq_of_lt-le {k = i} size low (omega (arith, high))),
  λ e. subst (λ n. Holds total size n r) (sym e) (quotient-Holds total size r p q),
)
