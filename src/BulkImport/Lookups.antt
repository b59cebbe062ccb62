-- ===== src/BulkImport/Lookups.antt =====
-- services/worker-core/src/handlers/bulkImport.ts: `enforceLookups`. The entities of the project are an
-- argument, and so are the keys that the tables which they name hold when the lookups are enforced: an
-- import (Run) passes those of the target database at that point.
pub mod Resolved
use Prim.Native.String.{◌++◌ as append}
use task_schedular.Prelude.{
  ℕ, zero, suc, String, Bool, true, false, not, ◌&&◌, ◌||◌, Option, none, some, List, [], ◌∷◌, any,
  keep, map, str_eq, ◌==◌, ◌≡◌, refl, subst, sym, ◌⊎◌, inl, inr, arith, All, Bool-cases,
  Option-cases, if◌then◌else◌,
}
use task_schedular.Prelude.Act.{
  Act, Result, Thrown, ok, err, error, pure, throw, ◌>>◌, ◌>>=◌, and_then,
}
use task_schedular.Contracts.Common.{truthy_text}
use task_schedular.Contracts.Json.{field, str, end}
use task_schedular.RowPipeline.{RowError, Work}
use task_schedular.Targets.Promotion.{Cells, cell, like}
use task_schedular.Targets.Batches.{
  delete_in, delete_staging_rows, delete_staging_rows-delete_in, delete_in-nothing,
}
use task_schedular.BulkImport.{Staged, Chunking}

pub record Lookup : Type 0 where
  pub field_name : String
  pub entity : String

-- `mapping[field]`
unfoldable pub column_of : List (String × String) → String → Option String
column_of [] name = none
column_of ((src, tgt) ∷ m) name =
    let rest = column_of m name in if str_eq src name then some tgt else rest

-- A value that is there and that no key of the referenced table has
abbrev pub unmatched : List (Option String) → Option String → Bool
unmatched keys none = false
unmatched keys (some v) = not (any (like (some v)) keys)

abbrev shown : Option String → String
shown none = "null"
shown (some v) = v

module _ (mapping : List (String × String)) (entities : String → Option (String × String))
    (keys : String → String → List (Option String)) where
  abbrev lookup_error : Lookup → String → Staged → RowError
  lookup_error l column r =
      let v = shown (cell column r.cells) in
      record {
        row_number = r.row_number;
        fault = record {
          field = some l.field_name;
          rule = "lookup";
          message = append "value '" (append v (append "' not found in " l.entity));
        };
        raw = field column (str v) end;
      }

  abbrev record_missing : Lookup → String → List Staged → List RowError → List RowError
  record_missing l column [] old = old
  record_missing l column (r ∷ rs) old = record_missing l column rs (lookup_error l column r ∷ old)

  -- The unmatched rows are recorded and leave the staging table.
  unfoldable pub reject_missing : Lookup → String → List Staged → Chunking → Chunking
  reject_missing l column [] w = w
  reject_missing l column (r ∷ rs) w = record w {
    row_errors = record_missing l column (r ∷ rs) w.row_errors;
    target = delete_staging_rows (λ s. s.row_number) (map (λ s. s.row_number) (r ∷ rs)) w.target;
  }

  -- The column of the field and the keys that its values must be among
  unfoldable pub referent : Lookup → Result (String × List (Option String))
  referent l = elim (truthy_text (column_of mapping l.field_name)) [
    | none ↦ err (error "lookup rule cannot be enforced: the field is not mapped")
    | some column ↦ elim (entities l.entity) [
      | none ↦ err (error "lookup rule references an entity that is not configured")
      | some (table, key) ↦ ok (column, keys table key)
    ]
  ]

  unfoldable pub enforce_with :
      Lookup → Result (String × List (Option String)) → Act Chunking (Unit {0})
  unfolding reject_missing
  enforce_with l (err e) w = (err e, w)
  enforce_with l (ok (column, ks)) w =
      (ok tt, reject_missing l column (keep (λ r. unmatched ks (cell column r.cells)) w.target) w)

  unfoldable pub enforce_lookup : Lookup → Act Chunking (Unit {0})
  unfolding referent enforce_with
  enforce_lookup l = enforce_with l (referent l)

  unfoldable pub enforce_lookups : List Lookup → Act Chunking (Unit {0})
  unfolding enforce_lookup
  enforce_lookups [] = pure tt
  enforce_lookups (l ∷ ls) = enforce_lookup l >> enforce_lookups ls

  -- The row's value for the field of a lookup has no referent.
  abbrev pub dangles : Result (String × List (Option String)) → Staged → Bool
  dangles (err e) r = false
  dangles (ok (column, ks)) r = unmatched ks (cell column r.cells)

  unfoldable pub dangling : Lookup → Staged → Bool
  unfolding referent
  dangling l = dangles (referent l)

  unfoldable pub dangling_any : List Lookup → Staged → Bool
  unfolding dangling
  dangling_any [] r = false
  dangling_any (l ∷ ls) r = dangling l r || dangling_any ls r
