-- ===== src/Migrations.antt =====
-- packages/db/src/migrate.ts: the runner of the SQL migrations. The files of the directory, filtered and
-- sorted, are an argument, and so is what the transaction of a file makes of the database: `none` where
-- a statement of it fails, which rolls it back. No other process runs migrations meanwhile.
pub mod Resumed
use task_schedular.Prelude.{
  String, Bool, true, false, Option, none, some, List, [], ◌∷◌, listed, if◌then◌else◌,
}
use task_schedular.Prelude.Act.{Act, Result, ok, err, error, pure, and_then, ◌>>=◌, ◌>>◌}

-- The database, and the rows of `_migrations`
pub record Base (S : Type 0) : Type 0 where
  pub contents : S
  pub migrations : List String

module _ {S : Type 0} (run : String → S → Option S) where
  abbrev pub commit : String → Base S → Option S → Result (Unit {0}) × Base S
  commit file b none = (err (error "migration failed"), b)
  commit file b (some contents) =
      (ok tt, record { contents = contents; migrations = file ∷ b.migrations })

  -- One transaction: the script, and the row, whose file name is a primary key
  unfoldable pub apply_file : String → Act (Base S) (Unit {0})
  apply_file file b =
      if listed file b.migrations
      then (err (error "duplicate key"), b)
      else commit file b (run file b.contents)

  -- The loop; `applied` is what was read in front of it.
  unfoldable pub apply_files : List String → List String → Act (Base S) (Unit {0})
  unfolding apply_file
  apply_files applied [] = pure tt
  apply_files applied (file ∷ files) =
      let rest = apply_files applied files in
      if listed file applied then rest else apply_file file >> rest

  unfoldable pub migrate : List String → Act (Base S) (Unit {0})
  unfolding apply_files
  migrate files b = apply_files b.migrations files b
