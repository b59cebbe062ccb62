-- ===== src/BulkDelete/DryRun.antt =====
-- A dry run against the deletion that it announces, and what a deletion leaves.
use task_schedular.Prelude.{
  String, Bool, true, false, not, ◌||◌, Option, none, some, List, [], ◌∷◌, keep, any, update_where,
  ◌≡◌, refl, arith,
}
use task_schedular.BulkDelete.{TargetRow, DeleteOptions, matches, live_match, delete_row}

abbrev pub dry : DeleteOptions → DeleteOptions
dry o = record o { dry_run = true }

abbrev pub real : DeleteOptions → DeleteOptions
real o = record o { dry_run = false }

-- A dry run leaves the table alone, also where its statement fails, and for a soft delete on a table with
-- `deleted_at` it gives the outcome that the deletion itself has on that table, for rows without a key
-- as well.
pub dry_run-soft :
    (fails : Bool) (o : DeleteOptions) (k : Option String) (table : List TargetRow)
    → o.hard ≡ false
    → o.soft_capable ≡ true
    → ((delete_row fails (dry o) k table).1 ≡ table)
      × ((delete_row fails (dry o) k table).0 ≡ (delete_row fails (real o) k table).0)
unfolding delete_row
dry_run-soft fails o none table h s = (refl, refl)
dry_run-soft fails o (some k) table h s = ground arith

none_left_live :
    (k : String) (table : List TargetRow)
    → any (live_match k) (update_where (live_match k) (λ t. record t { deleted = true }) table)
      ≡ false
none_left_live k [] = refl
none_left_live k (t ∷ ts) = ground (arith, none_left_live k ts)

none_left :
    (k : String) (table : List TargetRow)
    → any (live_match k) (keep (λ t. not (matches k t)) table) ≡ false
none_left k [] = refl
none_left k (t ∷ ts) = ground (arith, none_left k ts)

-- After a deletion of a key that went through, hard or on a table with `deleted_at`, no live row of that
-- key is left, so that a repeated soft delete of the key processes nothing.
pub delete_row-gone :
    (o : DeleteOptions) (k : String) (table : List TargetRow)
    → o.dry_run ≡ false
    → (o.hard || o.soft_capable) ≡ true
    → any (live_match k) (delete_row false o (some k) table).1 ≡ false
unfolding delete_row
delete_row-gone o k table d h = ground (arith, none_left k table, none_left_live k table)
