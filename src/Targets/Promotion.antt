-- ===== src/Targets/Promotion.antt =====
-- packages/targetdb/src: `promote` of postgres.ts and mysql.ts (ON CONFLICT DO NOTHING, INSERT
-- IGNORE) and of sqlserver.ts (NOT EXISTS), on lists of rows. Two rows clash when they have one of the
-- unique columns alike, and NULL is like nothing.
use task_schedular.Prelude.{
  ℕ, suc, String, Bool, true, false, not, Option, none, some, List, [], ◌∷◌, any, keep, length,
  str_eq, ◌≡◌, refl, inl, inr, arith, Bool-cases, if◌then◌else◌, All,
}

-- A row: each column with its value.
abbrev pub Cells : Type 0
Cells = List (String × Option String)

abbrev pub cell : String → Cells → Option String
cell c [] = none
cell c ((d, v) ∷ r) = let rest = cell c r in if str_eq d c then v else rest

abbrev pub like : Option String → Option String → Bool
like (some a) (some b) = str_eq a b
like _ _ = false

unfoldable pub clash : List String → Cells → Cells → Bool
clash columns a b = any (λ c. like (cell c a) (cell c b)) columns

-- The rows put into a table, one after the other
abbrev pub put : List Cells → List Cells → List Cells
put [] table = table
put (r ∷ rs) table = put rs (r ∷ table)

module _ (columns : List String) where
  unfoldable pub conflicts : Cells → List Cells → Bool
  conflicts row table = any (clash columns row) table

  -- Row by row, each against the table with the rows before it
  unfoldable pub promote_on_conflict : List Cells → List Cells → ℕ × List Cells
  unfolding conflicts
  promote_on_conflict [] table = (0, table)
  promote_on_conflict (r ∷ rs) table =
      let skip = conflicts r table in
      let (n, t) = promote_on_conflict rs (if skip then table else r ∷ table) in
      (if skip then n else suc n, t)

  -- All rows at once against the table before the statement
  unfoldable pub promote_not_exists : List Cells → List Cells → ℕ × List Cells
  unfolding conflicts
  promote_not_exists rows table =
      let fresh = keep (λ r. not (conflicts r table)) rows in (length fresh, put fresh table)

  -- Rows of which no two clash
  abbrev pub Apart : List Cells → Type 0
  Apart [] = Unit
  Apart (r ∷ rs) = All (λ s. clash columns s r ≡ false) rs × Apart rs

  keep-apart :
      (r : Cells) (table rows : List Cells)
      → All (λ s. clash columns s r ≡ false) rows
      → keep (λ s. not (conflicts s (r ∷ table))) rows ≡ keep (λ s. not (conflicts s table)) rows
  unfolding conflicts
  keep-apart r table [] h = refl
  keep-apart r table (s ∷ rows) h = ground (arith, keep-apart r table rows h.1)

  -- ON CONFLICT DO NOTHING and NOT EXISTS promote the same rows of a staging table without duplicates,
  -- and count them alike.
  pub promote_on_conflict-not_exists :
      (rows table : List Cells)
      → Apart rows
      → promote_on_conflict rows table ≡ promote_not_exists rows table
  unfolding promote_on_conflict promote_not_exists
  promote_on_conflict-not_exists [] table h = refl
  promote_on_conflict-not_exists (r ∷ rows) table h = elim (Bool-cases (conflicts r table)) [
    | inl e ↦ rw e (promote_on_conflict-not_exists rows table h.1)
    | inr e ↦
        rw (e, promote_on_conflict-not_exists rows (r ∷ table) h.1, keep-apart r table rows h.0)
          refl
  ]

  conflicts-next :
      (s r : Cells) (table : List Cells) (b : Bool)
      → conflicts s table ≡ true
      → conflicts s (if b then table else r ∷ table) ≡ true
  unfolding conflicts
  conflicts-next s r table b h = ground arith

  conflicts_self :
      (r : Cells) (table : List Cells)
      → clash columns r r ≡ true
      → conflicts r (if conflicts r table then table else r ∷ table) ≡ true
  unfolding conflicts
  conflicts_self r table h = ground arith

  conflicts-grown :
      (s : Cells) (rows table : List Cells)
      → conflicts s table ≡ true
      → conflicts s (promote_on_conflict rows table).1 ≡ true
  unfolding promote_on_conflict
  conflicts-grown s [] table h = h
  conflicts-grown s (r ∷ rows) table h =
      conflicts-grown s rows _ (conflicts-next s r table (conflicts r table) h)

  promoted-conflicts :
      (rows table : List Cells)
      → All (λ r. clash columns r r ≡ true) rows
      → All (λ r. conflicts r (promote_on_conflict rows table).1 ≡ true) rows
  unfolding promote_on_conflict
  promoted-conflicts [] table h = tt
  promoted-conflicts (r ∷ rows) table h = (
    conflicts-grown r rows _ (conflicts_self r table h.0),
    promoted-conflicts rows (if conflicts r table then table else r ∷ table) h.1,
  )

  nothing_new :
      (rows table : List Cells)
      → All (λ r. conflicts r table ≡ true) rows
      → promote_on_conflict rows table ≡ (0, table)
  unfolding promote_on_conflict
  nothing_new [] table h = refl
  nothing_new (r ∷ rows) table h = rw (h.0, nothing_new rows table h.1) refl

  -- A second promotion of rows that have a unique column inserts nothing.
  pub promote_on_conflict-twice :
      (rows table : List Cells)
      → All (λ r. clash columns r r ≡ true) rows
      → let after = (promote_on_conflict rows table).1 in
        promote_on_conflict rows after ≡ (0, after)
  promote_on_conflict-twice rows table h = nothing_new rows _ (promoted-conflicts rows table h)
