-- ===== src/BulkDelete/Order.antt =====
-- The deletions of the concurrent loops, in the order in which they reach the table.
use task_schedular.Prelude.{
  String, Bool, true, false, not, ◌||◌, Option, none, some, List, [], ◌∷◌, keep, any, update_where,
  ◌≡◌, refl, arith,
}
use task_schedular.BulkDelete.{TargetRow, DeleteOptions, matches, live_match, delete_row}
use task_schedular.BulkDelete.DryRun.{delete_row-gone}

-- What the table of a job may become by the callbacks of its rows, whatever loop runs them, whatever
-- their keys are and whichever of their statements fail
pub data Deleting (o : DeleteOptions) (table : List TargetRow) : List TargetRow → Type 0 where
  no_row : Deleting o table table
  then_row :
      {table' : List TargetRow} (fails : Bool) (key : Option String)
      → Deleting o table table'
      → Deleting o table (delete_row fails o key table').1

any-keep :
    (p q : TargetRow → Bool) (ts : List TargetRow) → any p ts ≡ false → any p (keep q ts) ≡ false
any-keep p q [] h = refl
any-keep p q (t ∷ ts) h = ground (arith, any-keep p q ts)

any_live_marked :
    (k : String) (q : TargetRow → Bool) (ts : List TargetRow)
    → any (live_match k) ts ≡ false
    → any (live_match k) (update_where q (λ t. record t { deleted = true }) ts) ≡ false
any_live_marked k q [] h = refl
any_live_marked k q (t ∷ ts) h = ground (arith, any_live_marked k q ts)

still_gone :
    (fails : Bool) (o : DeleteOptions) (k : String) (key : Option String) (ts : List TargetRow)
    → any (live_match k) ts ≡ false
    → any (live_match k) (delete_row fails o key ts).1 ≡ false
unfolding delete_row
still_gone fails o k none ts h = h
still_gone fails o k (some l) ts h = ground (
  arith,
  any-keep (live_match k) (λ t. not (matches l t)) ts h,
  any_live_marked k (live_match l) ts h,
)

stays_gone :
    (o : DeleteOptions) (k : String) {ts ts' : List TargetRow}
    → any (live_match k) ts ≡ false
    → Deleting o ts ts'
    → any (live_match k) ts' ≡ false
stays_gone o k h no_row = h
stays_gone o k h (then_row {table'} fails key r) =
    still_gone fails o k key table' (stays_gone o k h r)

-- In a job that is no dry run, and is hard or on a table with `deleted_at`: once the statement of a row
-- went through, no live row has its key, whatever row callbacks of this job reach the table afterwards,
-- in any order, with any keys and failures. Nothing else writes to the table.
pub delete_row_lasts :
    (o : DeleteOptions) (k : String) (table after : List TargetRow)
    → o.dry_run ≡ false
    → (o.hard || o.soft_capable) ≡ true
    → Deleting o (delete_row false o (some k) table).1 after
    → any (live_match k) after ≡ false
delete_row_lasts o k table after wet able r = stays_gone o k (delete_row-gone o k table wet able) r
