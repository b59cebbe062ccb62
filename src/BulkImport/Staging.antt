-- ===== src/BulkImport/Staging.antt =====
-- The staging of valid rows by multi-row statements against staging them one by one.
use task_schedular.Prelude.{
  ℕ, ◌+◌, ◌≤◌, true, false, none, some, List, [], ◌∷◌, ◌++◌, length, ◌≡◌, refl, subst, ◌⊎◌, inl,
  inr, arith, Option-cases,
}
use task_schedular.Prelude.Act.{Act, Result, ok, err, error, is_ok, ◌>>◌, and_then}
use task_schedular.Targets.{DbError, Dialect}
use task_schedular.Targets.Batches.{slices, joined, joined-slices}
use task_schedular.BulkImport.{
  Staged, Plan, Chunking, Inserted, inserted, refused, insert_rows, stage_row, stage_each,
  stage_slice, stage_slices, stage_valid, rows_per_statement,
}

Inserted-cases :
    (i : Inserted) → ((st : List Staged) × (i ≡ inserted st)) ⊎ ((e : DbError) × (i ≡ refused e))
Inserted-cases (inserted st) = inl (st, refl)
Inserted-cases (refused e) = inr (e, refl)

-- Two ends of the work on a chunk with the same result, errors and count of errors, and the same in
-- all if nothing was thrown. (Rows staged before something is thrown are dropped with the table.)
abbrev pub Alike : Result (Unit {0}) × Chunking → Result (Unit {0}) × Chunking → Type 0
Alike (r, w) (s, v) =
    (r ≡ s) × (w.row_errors ≡ v.row_errors) × (w.errors ≡ v.errors) × (is_ok r ≡ true → w ≡ v)

-- What goes on alike after two like ends, ends alike.
Alike-then :
    (o o' : Result (Unit {0}) × Chunking) (f g : Act Chunking (Unit {0}))
    → Alike o o'
    → ((w : Chunking) → Alike (f w) (g w))
    → Alike (and_then o.0 (λ _. f) o.1) (and_then o'.0 (λ _. g) o'.1)
Alike-then (ok a, w) (ok b, v) f g (_, _, _, e) k = subst (λ u. Alike (f w) (g u)) (e refl) (k w)
Alike-then (err e, w) (err d, v) f g h k = ground (arith, h)
Alike-then (ok a, w) (err d, v) f g h k = ground (arith, h)
Alike-then (err e, w) (ok b, v) f g h k = ground (arith, h)

module _ (p : Plan) where
  -- A row that the table takes
  abbrev taken : Staged → Chunking → Chunking
  taken r w = record w { target = r ∷ w.target; processed = w.processed + 1 }

  stage_each-taken :
      (r : Staged) (rows : List Staged) (w : Chunking)
      → p.fault r w.target ≡ none
      → stage_each p (r ∷ rows) w ≡ stage_each p rows (taken r w)
  unfolding stage_each stage_row
  stage_each-taken r rows w h = ground (arith, h)

  stage_each-thrown :
      (r : Staged) (rows : List Staged) (e : DbError) (w : Chunking)
      → p.fault r w.target ≡ some e
      → p.dialect.is_unique_violation e ≡ false
      → p.dialect.is_data_error e ≡ false
      → stage_each p (r ∷ rows) w ≡ (err (error e.message), w)
  unfolding stage_each stage_row
  stage_each-thrown r rows e w h u d = ground (arith, h)

  stage_each-inserted :
      (rows st : List Staged) (w : Chunking)
      → insert_rows p rows w.target ≡ inserted st
      → stage_each p rows w
        ≡ (ok tt, record w { target = st; processed = w.processed + length rows })
  unfolding insert_rows stage_each
  stage_each-inserted [] st w h = ground arith
  stage_each-inserted (r ∷ rows) st w h = elim (Option-cases (p.fault r w.target)) [
    | inl e ↦
        rw (stage_each-taken r rows w e)
          (ground (arith, e, stage_each-inserted rows st (taken r w)))
    | inr (x, e) ↦ ground (arith, e)
  ]

  -- The first error of the rows, if it is fatal, ends their staging one by one too, with no error
  -- recorded before it.
  stage_each-fatal :
      (rows : List Staged) (e : DbError) (w : Chunking)
      → insert_rows p rows w.target ≡ refused e
      → p.dialect.is_unique_violation e ≡ false
      → p.dialect.is_data_error e ≡ false
      → Alike (err (error e.message), w) (stage_each p rows w)
  unfolding insert_rows
  stage_each-fatal [] e w h u d = ground arith
  stage_each-fatal (r ∷ rows) e w h u d = elim (Option-cases (p.fault r w.target)) [
    | inl n ↦
        rw (stage_each-taken r rows w n) (ground (arith, n, stage_each-fatal rows e (taken r w)))
    | inr (x, n) ↦ ground (arith, n, stage_each-thrown r rows x w n)
  ]

  Alike-refl : (o : Result (Unit {0}) × Chunking) → Alike o o
  Alike-refl o = (refl, refl, refl, λ _. refl)

  stage_slice-each :
      (rows : List Staged) (w : Chunking) → Alike (stage_slice p rows w) (stage_each p rows w)
  unfolding stage_slice
  stage_slice-each rows w = elim (Inserted-cases (insert_rows p rows w.target)) [
    | inl (st, h) ↦ ground (arith, h, stage_each-inserted rows st w h)
    | inr (e, h) ↦ ground (arith, h, stage_each-fatal rows e w h, Alike-refl (stage_each p rows w))
  ]

  stage_each-append :
      (xs ys : List Staged) (w : Chunking)
      → stage_each p (xs ++ ys) w ≡ (stage_each p xs >> stage_each p ys) w
  unfolding stage_each
  stage_each-append [] ys w = refl
  stage_each-append (x ∷ xs) ys w = ground (arith, stage_each-append xs ys (stage_row p x w).1)

  stage_slices-each :
      (rowss : List (List Staged)) (w : Chunking)
      → Alike (stage_slices p rowss w) (stage_each p (joined rowss) w)
  unfolding stage_slices
  stage_slices-each [] w = Alike-refl (ok tt, w)
  stage_slices-each (rows ∷ more) w = rw (stage_each-append rows (joined more) w) (
      Alike-then (stage_slice p rows w) (stage_each p rows w) (stage_slices p more)
        (stage_each p (joined more)) (stage_slice-each rows w) (stage_slices-each more))

  rows_per_statement-pos : (d : Dialect) (columns : ℕ) → 1 ≤ rows_per_statement d columns
  unfolding rows_per_statement
  rows_per_statement-pos d columns = omega arith

  -- Staging the valid rows of a chunk by multi-row statements ends like staging them one by one.
  pub stage_valid-each :
      (rows : List Staged) (w : Chunking) → Alike (stage_valid p rows w) (stage_each p rows w)
  unfolding stage_valid
  stage_valid-each rows w =
      let size = rows_per_statement p.dialect (length p.mapping) in
      subst (λ rs. Alike (stage_slices p (slices size rows) w) (stage_each p rs w))
        (joined-slices size rows (rows_per_statement-pos p.dialect (length p.mapping)))
        (stage_slices-each (slices size rows) w)
