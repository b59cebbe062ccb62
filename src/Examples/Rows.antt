-- ===== src/Examples/Rows.antt =====
-- The theorems on row jobs at concrete inputs.
use task_schedular.Prelude.{any, ℕ, true, false, none, some, List, [], ◌∷◌, ◌≡◌, refl, arith}
use task_schedular.Contracts.Json.{Fields, end}
use task_schedular.RowPipeline.{RowOutcome, Work, test, take_chunk, working, crashed}
use task_schedular.RowPipeline.Loops.{
  Reach, here, next, tests, takes, begin, Sequential, chunks_in_order, last_chunk_race,
}
use task_schedular.Prelude.Act.{ok}
use task_schedular.Contracts.Json.{field, str}
use task_schedular.Rules.Language.{Language}
use task_schedular.Rules.Evaluate.{Rule, required, EvalResult}
use task_schedular.BulkUpdate.{VersionedRow, Change}
use task_schedular.BulkDelete.{TargetRow, DeleteOptions, live_match, delete_row}
use task_schedular.BulkDelete.Order.{no_row, then_row, delete_row_lasts}

abbrev fails_on_row : ℕ → Fields → Fields → ℕ → RowOutcome × ℕ
fails_on_row n source value t = (
  record { processed = true; error = some (record { field = none; rule = "r"; message = "m" }) },
  t,
)

abbrev no_work : Work ℕ
no_work = record { target = 0; row_errors = []; processed = 0; errors = 0 }

chunks_in_order_example : Sequential 3 (take_chunk 3 0 (test 3 0 begin))
unfolding test
chunks_in_order_example =
    chunks_in_order 3 (take_chunk 3 0 (test 3 0 begin))
      (next (next here (tests 0 begin refl)) (takes 0 (test 3 0 begin) refl))

last_chunk_race_example :
    let q = take_chunk 1 1 (take_chunk 1 0 (test 1 1 (test 1 0 begin))) in
    Reach 1 begin q × (q.loops 0 ≡ working 0) × (q.loops 1 ≡ crashed)
last_chunk_race_example = last_chunk_race 1 0 1 begin (λ e. omega (arith, e)) refl refl refl refl

abbrev soft_options : DeleteOptions
soft_options = record {
  dry_run = false;
  hard = false;
  confirm = false;
  max_delete = 1000;
  soft_capable = true;
  match_col = "code";
}

abbrev table_one : List TargetRow
table_one = record { key = "a"; deleted = false } ∷ record { key = "b"; deleted = false } ∷ []

abbrev change_one : Change
change_one = record {
  key = some "a";
  seen_version = some (some "v1");
  match_col = "code";
  optimistic_col = "updated_at";
  write = λ r. record r { version = some "v2" };
}

abbrev versioned : List VersionedRow
versioned =
    record { key = "a"; version = some "v1"; payload = [] }
    ∷ record { key = "a"; version = some "v0"; payload = [] }
    ∷ []

-- Texts are read as they are, no value is a number, and no pattern is valid.
abbrev plain : Language ℕ
plain = record {
  text = λ v. "x";
  number = λ v. none;
  below = λ a b. false;
  text_length = λ s. 0;
  is_integer = λ n. true;
  lower = λ s. s;
  is_date = λ s. false;
  matches = λ p s. none;
  compute = λ e row. ok none;
  truthy = λ v. false;
  trim = λ s. s;
  upper = λ s. s;
}

abbrev needs_code : Rule ℕ
needs_code = record {
  field = "code";
  type = required;
  pattern = none;
  min = none;
  max = none;
  values = none;
  entity = none;
  cast = none;
  op = none;
  other = none;
  expr = none;
  message = none;
}

abbrev coded : Fields
coded = field "code" (str "a") end

abbrev all_good : EvalResult
all_good = record { valid = true; errors = []; value = coded }

delete_row_lasts_example :
    any
      (live_match "a")
      (delete_row true soft_options
        (some "b")
        (delete_row false soft_options (some "a") table_one).1).1
    ≡ false
delete_row_lasts_example =
    delete_row_lasts soft_options "a" table_one
      (delete_row true soft_options (some "b")
        (delete_row false soft_options (some "a") table_one).1).1
      refl refl (then_row true (some "b") no_row)
