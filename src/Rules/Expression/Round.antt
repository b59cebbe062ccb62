-- ===== src/Rules/Expression/Round.antt =====
-- A whole expression of packages/rule-engine/src/expression.ts: written as a text and evaluated.
use Prim.Native.String.{String, ◌∷◌ as ◌before◌, count}
use text.Mathlib.TextLemmas.{length-cons}
use task_schedular.Prelude.{
  ℕ, zero, suc, ◌<◌, ◌≡◌, refl, subst, Bool, true, ◌&&◌, [], ◌∷◌, ◌++◌, arith,
}
use task_schedular.Rules.Expression.{done, Value, Numbers, Token, Tokens, last_token}
use task_schedular.Rules.Expression.Lexer.{lex, resume, tokenize_fuel, tokenize, eval_expression}
use task_schedular.Rules.Expression.Grammar.{Expr, print, meaning}
use task_schedular.Rules.Expression.Ends.{Shrinks, lex-Shrinks}
use task_schedular.Rules.Expression.Spelling.{blank, spaced, is_spelt, lex-spaced}
use task_schedular.Rules.Expression.Reads.{parse_tokens-print}

unfoldable pub spell_all : Tokens → String
spell_all [] = ""
spell_all (t ∷ ts) = spaced t (spell_all ts)

abbrev pub all_spelt : Tokens → Bool
all_spelt [] = true
all_spelt (t ∷ ts) = is_spelt t && all_spelt ts

count-spaced : (t : Token) (r : String) → is_spelt t ≡ true → suc (count r) < count (spaced t r)
count-spaced t r h =
    let shorter : count (blank before r) < count (spaced t r) =
      subst (Shrinks (count (spaced t r))) (lex-spaced t r h) (lex-Shrinks (spaced t r)) in
    omega (arith, length-cons blank r)

-- One token costs two rounds, its own and the blank's.
tokenize_fuel-spaced :
    (t : Token) (r : String) (ts : Tokens)
    → is_spelt t ≡ true
    → ((f : ℕ) → count r < f → tokenize_fuel f r ≡ done ts)
    → (f : ℕ) → count (spaced t r) < f
    → tokenize_fuel f (spaced t r) ≡ done (t ∷ ts)
unfolding tokenize_fuel resume
tokenize_fuel-spaced t r ts h k zero b = absurd (omega arith)
tokenize_fuel-spaced t r ts h k (suc zero) b = absurd (omega (arith, count-spaced t r h))
tokenize_fuel-spaced t r ts h k (suc (suc f)) b =
    rw (lex-spaced t r h) (rw (k f (omega (arith, count-spaced t r h))) refl)

tokenize_fuel-spell_all :
    (ts : Tokens)
    → all_spelt ts ≡ true
    → (f : ℕ) → count (spell_all ts) < f
    → tokenize_fuel f (spell_all ts) ≡ done (ts ++ last_token)
unfolding spell_all tokenize_fuel lex resume
tokenize_fuel-spell_all [] h zero b = absurd (omega arith)
tokenize_fuel-spell_all [] h (suc f) b = refl
tokenize_fuel-spell_all (t ∷ ts) h f b =
    tokenize_fuel-spaced t (spell_all ts) (ts ++ last_token) (ground arith)
      (tokenize_fuel-spell_all ts (ground arith)) f b

-- An expression that is written with a blank behind each token evaluates to its meaning on the row.
pub eval_expression-spell_all :
    {Num : Type 0} (js : Numbers Num) (row : String → Value Num) (e : Expr)
    → all_spelt (print 0 e) ≡ true
    → eval_expression js (spell_all (print 0 e)) row ≡ done (meaning js row e)
unfolding eval_expression tokenize
eval_expression-spell_all js row e h =
    rw (tokenize_fuel-spell_all (print 0 e) h (suc (count (spell_all (print 0 e)))) (omega arith))
      (parse_tokens-print js row e)
