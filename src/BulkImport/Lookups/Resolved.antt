-- ===== src/BulkImport/Lookups/Resolved.antt =====
-- What the staging table holds once the lookups of an import are enforced.
use task_schedular.Prelude.{
  ℕ, String, Bool, true, false, not, ◌||◌, Option, List, [], ◌∷◌, any, keep, map, ◌==◌, ◌≡◌, refl,
  subst, sym, inl, inr, arith, All, Bool-cases,
}
use task_schedular.Prelude.Act.{Act, Result, ok, err, and_then}
use task_schedular.Targets.Promotion.{cell}
use task_schedular.Targets.Batches.{delete_in, delete_staging_rows-delete_in, delete_in-nothing}
use task_schedular.BulkImport.{Staged, Chunking}
use task_schedular.BulkImport.Lookups.{
  Lookup, unmatched, referent, reject_missing, enforce_with, enforce_lookup, enforce_lookups,
  dangles, dangling, dangling_any,
}

module _ (mapping : List (String × String)) (entities : String → Option (String × String))
    (keys : String → String → List (Option String)) where
  abbrev number_of : Staged → ℕ
  number_of r = r.row_number

  delete_in-All :
      (q : Staged → Bool) (ns : List ℕ) (rows : List Staged)
      → All (λ r. q r ≡ false) rows
      → All (λ r. q r ≡ false) (delete_in number_of ns rows)
  unfolding delete_in
  delete_in-All q ns [] h = tt
  delete_in-All q ns (r ∷ rows) h = ground (arith, delete_in-All q ns rows h.1, h.0)

  -- The rows that fail a test are gone when all numbers of such rows are deleted.
  delete_in-listed :
      (q : Staged → Bool) (ns : List ℕ) (rows : List Staged)
      → All (λ r. not (q r) || any (λ n. n == r.row_number) ns ≡ true) rows
      → All (λ r. q r ≡ false) (delete_in number_of ns rows)
  unfolding delete_in
  delete_in-listed q ns [] h = tt
  delete_in-listed q ns (r ∷ rows) h = ground (arith, delete_in-listed q ns rows h.1, h.0)

  listed-more :
      (q : Staged → Bool) (m : ℕ) (ns : List ℕ) (rows : List Staged)
      → All (λ r. not (q r) || any (λ n. n == r.row_number) ns ≡ true) rows
      → All (λ r. not (q r) || any (λ n. n == r.row_number) (m ∷ ns) ≡ true) rows
  listed-more q m ns [] h = tt
  listed-more q m ns (r ∷ rows) h = (ground arith, listed-more q m ns rows h.1)

  abbrev Listed : (Staged → Bool) → List Staged → List Staged → Type 0
  Listed q ks = All (λ r. not (q r) || any (λ n. n == r.row_number) (map number_of ks) ≡ true)

  listed : (q : Staged → Bool) (rows : List Staged) → Listed q (keep q rows) rows
  listed q [] = tt
  listed q (r ∷ rows) = elim (Bool-cases (q r)) [
    | inl e ↦
        let k : keep q (r ∷ rows) ≡ r ∷ keep q rows = ground (arith, e) in
        subst (λ ks. Listed q ks (r ∷ rows)) (sym k)
          (
            ground arith,
            listed-more q r.row_number (map number_of (keep q rows)) rows (listed q rows),
          )
    | inr e ↦
        let k : keep q (r ∷ rows) ≡ keep q rows = ground (arith, e) in
        subst (λ ks. Listed q ks (r ∷ rows)) (sym k) (ground (arith, e), listed q rows)
  ]

  reject_missing-target :
      (l : Lookup) (column : String) (rs : List Staged) (w : Chunking)
      → ((reject_missing mapping entities keys) l column rs w).target
        ≡ delete_in number_of (map number_of rs) w.target
  unfolding reject_missing
  reject_missing-target l column [] w = sym (delete_in-nothing number_of w.target)
  reject_missing-target l column (r ∷ rs) w =
      delete_staging_rows-delete_in number_of (map number_of (r ∷ rs)) w.target

  -- One lookup removes what dangles by it, and keeps a property of all rows.
  enforce_with-All :
      (l : Lookup) (o : Result (String × List (Option String))) (w : Chunking)
      → ((enforce_with mapping entities keys) l o w).0 ≡ ok tt
      → All
          (λ r. (dangles mapping entities keys) o r ≡ false)
          ((enforce_with mapping entities keys) l o w).1.target
  unfolding enforce_with
  enforce_with-All l (err e) w h = ground arith
  enforce_with-All l (ok (column, ks)) w h =
      let q : Staged → Bool = λ r. unmatched ks (cell column r.cells) in
      subst (All (λ r. q r ≡ false)) (sym (reject_missing-target l column (keep q w.target) w))
        (delete_in-listed q (map number_of (keep q w.target)) w.target (listed q w.target))

  enforce_with-keeps :
      (l : Lookup) (q : Staged → Bool) (o : Result (String × List (Option String))) (w : Chunking)
      → All (λ r. q r ≡ false) w.target
      → All (λ r. q r ≡ false) ((enforce_with mapping entities keys) l o w).1.target
  unfolding enforce_with
  enforce_with-keeps l q (err e) w h = h
  enforce_with-keeps l q (ok (column, ks)) w h =
      let missing = keep (λ r. unmatched ks (cell column r.cells)) w.target in
      subst (All (λ r. q r ≡ false)) (sym (reject_missing-target l column missing w))
        (delete_in-All q (map number_of missing) w.target h)

  -- What holds after a first step and through the rest, holds after both.
  and_then-keeps :
      (P : List Staged → Type 0) (next : Act Chunking (Unit {0})) (r : Result (Unit {0}))
      (v : Chunking)
      → P v.target
      → ((u : Chunking) → P u.target → P (next u).1.target)
      → P (and_then r (λ _. next) v).1.target
  and_then-keeps P next (ok a) v h k = k v h
  and_then-keeps P next (err e) v h k = h

  -- Both steps of a sequence that returned have returned.
  and_then-ok :
      (P : List Staged → Type 0) (next : Act Chunking (Unit {0})) (r : Result (Unit {0}))
      (v : Chunking)
      → (and_then r (λ _. next) v).0 ≡ ok tt
      → (r ≡ ok tt → (next v).0 ≡ ok tt → P (next v).1.target)
      → P (and_then r (λ _. next) v).1.target
  and_then-ok P next (ok a) v h k = k refl h
  and_then-ok P next (err e) v h k = ground (arith, h)

  enforce_lookups-keeps :
      (ls : List Lookup) (q : Staged → Bool) (w : Chunking)
      → All (λ r. q r ≡ false) w.target
      → All (λ r. q r ≡ false) ((enforce_lookups mapping entities keys) ls w).1.target
  unfolding enforce_lookups enforce_lookup
  enforce_lookups-keeps [] q w h = h
  enforce_lookups-keeps (l ∷ ls) q w h =
      and_then-keeps (All (λ r. q r ≡ false)) ((enforce_lookups mapping entities keys) ls)
        ((enforce_lookup mapping entities keys) l w).0
        ((enforce_lookup mapping entities keys) l w).1
        (enforce_with-keeps l q ((referent mapping entities keys) l) w h)
        (enforce_lookups-keeps ls q)

  nothing_dangles : (rows : List Staged) → All (λ r. false ≡ false) rows
  nothing_dangles [] = tt
  nothing_dangles (r ∷ rows) = (refl, nothing_dangles rows)

  All-or :
      (l : Lookup) (ls : List Lookup) (rows : List Staged)
      → All (λ r. (dangling mapping entities keys) l r ≡ false) rows
      → All (λ r. (dangling_any mapping entities keys) ls r ≡ false) rows
      → All (λ r. (dangling_any mapping entities keys) (l ∷ ls) r ≡ false) rows
  unfolding dangling_any
  All-or l ls [] h k = tt
  All-or l ls (r ∷ rows) h k = (ground arith, All-or l ls rows h.1 k.1)

  -- Once the lookups are enforced without an error, every staged row has a referent, or NULL, in the
  -- column of each lookup.
  pub enforce_lookups-resolved :
      (ls : List Lookup) (w : Chunking)
      → ((enforce_lookups mapping entities keys) ls w).0 ≡ ok tt
      → All
          (λ r. (dangling_any mapping entities keys) ls r ≡ false)
          ((enforce_lookups mapping entities keys) ls w).1.target
  unfolding enforce_lookups enforce_lookup dangling_any dangling
  enforce_lookups-resolved [] w h = nothing_dangles w.target
  enforce_lookups-resolved (l ∷ ls) w h =
      and_then-ok (All (λ r. (dangling_any mapping entities keys) (l ∷ ls) r ≡ false))
        ((enforce_lookups mapping entities keys) ls) ((enforce_lookup mapping entities keys) l w).0
        ((enforce_lookup mapping entities keys) l w).1 h
        λ first rest.
          let v = ((enforce_lookup mapping entities keys) l w).1 in
          All-or l ls ((enforce_lookups mapping entities keys) ls v).1.target
            (enforce_lookups-keeps ls ((dangling mapping entities keys) l) v
              (enforce_with-All l ((referent mapping entities keys) l) w first))
            (enforce_lookups-resolved ls v rest)
