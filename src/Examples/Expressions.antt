-- ===== src/Examples/Expressions.antt =====
-- The theorems on expressions at concrete inputs.
use Prim.Native.String.{count}
use task_schedular.Prelude.{ℕ, ◌+◌, ◌-◌, ◌*◌, String, true, not, ◌≡◌, refl, ◌≢◌, ltb, leb, ◌==◌}
use task_schedular.Prelude.Show.{show}
use task_schedular.Rules.Expression.{
  done, out_of_fuel, Value, number, boolean, Numbers, plus, times, bars, above,
}
use task_schedular.Rules.Expression.{
  apply_infix, apply_relation, plus_value, to_number, truthy, named,
}
use task_schedular.Rules.Expression.Spelling.{spell}
use task_schedular.Rules.Expression.Lexer.{eval_expression}
use task_schedular.Rules.Expression.Grammar.{
  Expr, digits, name, inverse, compared, combined, print, meaning,
}
use task_schedular.Rules.Expression.Ends.{eval_expression-ends}
use task_schedular.Rules.Expression.Round.{spell_all, eval_expression-spell_all}

-- Natural numbers in place of the language's, with lengths for the numbers of texts
abbrev naturals : Numbers ℕ
naturals = record {
  digits = show;
  parse = count;
  of_value = λ v. 0;
  negate = λ n. 0;
  add = λ a b. a + b;
  subtract = λ a b. a - b;
  multiply = λ a b. a * b;
  divide_by = λ a b. 0;
  less = ltb;
  at_most = leb;
  same = λ a b. a == b;
  nonzero = λ n. not (n == 0);
}

abbrev row : String → Value ℕ
row field = number 5

-- Below, a number's text is read as its length.
abbrev rule : Expr
rule =
    combined bars
      (compared above (combined times (combined plus (name "amount") (digits "11")) (digits "2"))
        (digits "7"))
      (inverse (name "paid"))

rule_text : spell_all (print 0 rule) ≡ "( amount + 11 ) * 2 > 7 || ! paid "
unfolding spell_all print spell
rule_text = refl

rule_meaning : meaning naturals row rule ≡ boolean true
unfolding meaning apply_infix apply_relation plus_value to_number truthy named
rule_meaning = refl

eval_expression-spell_all_example :
    eval_expression naturals (spell_all (print 0 rule)) row ≡ done (meaning naturals row rule)
unfolding print
eval_expression-spell_all_example = eval_expression-spell_all naturals row rule refl

eval_expression-ends_example : eval_expression naturals "1 + (2" row ≢ out_of_fuel
eval_expression-ends_example = eval_expression-ends naturals "1 + (2" row
