-- ===== src/Rules/Valid.antt =====
-- When a row is valid.
use task_schedular.Prelude.{true, none, List, [], ◌∷◌, All, ◌≡◌, ◌↔◌, arith}
use task_schedular.Prelude.Act.{ok}
use task_schedular.Contracts.Json.{Fields}
use task_schedular.Rules.Language.{Language}
use task_schedular.Rules.Transforms.{Transform, apply_transforms}
use task_schedular.Rules.Evaluate.{
  Rule, EvalResult, check_rule, check_rules, no_errors, evaluate_row,
}

module _ {Num : Type 0} (js : Language Num) where
  no_errors_iff :
      (rules : List (Rule Num)) (row : Fields)
      → (no_errors (check_rules js rules row) ≡ true) ↔ All (λ r. check_rule js r row ≡ none) rules
  unfolding check_rules
  no_errors_iff [] row = ground arith
  no_errors_iff (r ∷ rs) row = ground (arith, no_errors_iff rs row)

  -- Where the transforms leave a row, the evaluation returns that row as its value, and calls it valid
  -- exactly if each rule passes on it.
  pub evaluate_row-valid_iff :
      (transforms : List Transform) (rules : List (Rule Num)) (input value : Fields)
      (result : EvalResult)
      → apply_transforms js transforms input ≡ ok value
      → evaluate_row js transforms rules input ≡ ok result
      → (result.value ≡ value)
        × ((result.valid ≡ true) ↔ All (λ r. check_rule js r value ≡ none) rules)
  unfolding evaluate_row
  evaluate_row-valid_iff transforms rules input value result e f =
      ground (arith, no_errors_iff rules value)
