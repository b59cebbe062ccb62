-- ===== src/Rules/Expression/Ends.antt =====
-- The loop of `tokenize` of packages/rule-engine/src/expression.ts ends on every text.
use Prim.Native.Char.{Char, code}
use Prim.Native.String.{String, [], ◌∷◌, count}
use text.Mathlib.TextLemmas.{length-cons}
use task_schedular.Prelude.{
  ℕ, zero, suc, ◌≤◌, ◌<◌, refl, sym, subst, ◌≢◌, inl, inr, arith, Bool-cases, Option-cases,
}
use task_schedular.Prelude.{Bool}
use task_schedular.Rules.Expression.{
  Outcome, done, failed, out_of_fuel, Value, Numbers, Tokens, andthen, parse_tokens,
}
use task_schedular.Rules.Expression.Lexer.{
  Lexeme, finish, skip, token, stray, is_numeric, is_word, is_blank, unlike, beyond, tail, pair,
  single, long, symbol, two, lex, resume, tokenize_fuel, tokenize, eval_expression,
}
use task_schedular.Rules.Expression.Fuel.{parse_tokens-ends}

-- What is left behind a lexeme is shorter.
abbrev pub Shrinks : ℕ → Lexeme → Type 0
Shrinks n finish = Unit
Shrinks n stray = Unit
Shrinks n (skip rest) = count rest < n
Shrinks n (token t rest) = count rest < n

count-beyond : (p : Char → Bool) (s : String) → count (beyond p s) ≤ count s
unfolding beyond
count-beyond p [] = omega arith
count-beyond p (c ∷ s) = ground (arith, length-cons c s, count-beyond p s)

count-tail : (s : String) → count (tail s) ≤ count s
unfolding tail
count-tail [] = omega arith
count-tail (c ∷ s) = omega (arith, length-cons c s)

long-Shrinks : (c : Char) (s : String) → Shrinks (suc (count s)) (long c s)
unfolding long
long-Shrinks c s = ground (
  arith,
  count-beyond (unlike c) s,
  count-tail (beyond (unlike c) s),
  count-beyond is_numeric s,
  count-beyond is_word s,
)

symbol-Shrinks : (c : Char) (s : String) → Shrinks (suc (count s)) (symbol c s)
unfolding symbol
symbol-Shrinks c s = elim (Option-cases (single (code c))) [
  | inl e ↦ rw (Shrinks, e) (long-Shrinks c s)
  | inr (t, e) ↦ rw (Shrinks, e) (omega arith)
]

two-Shrinks : (c : Char) (s : String) → Shrinks (suc (count s)) (two c s)
unfolding two
two-Shrinks c [] = symbol-Shrinks c []
two-Shrinks c (d ∷ s) = elim (Option-cases (pair (code c) (code d))) [
  | inl e ↦ rw (Shrinks, e) (symbol-Shrinks c (d ∷ s))
  | inr (t, e) ↦ rw (Shrinks, e) (omega (arith, length-cons d s))
]

pub lex-Shrinks : (s : String) → Shrinks (count s) (lex s)
unfolding lex
lex-Shrinks [] = tt
lex-Shrinks (c ∷ s) = elim (Bool-cases (is_blank c)) [
  | inl e ↦ rw (Shrinks, e) (omega (arith, length-cons c s))
  | inr e ↦
      rw (Shrinks, e) (subst (λ n. Shrinks n (two c s)) (sym (length-cons c s)) (two-Shrinks c s))
]

resume-ends :
    (next : String → Outcome Tokens) (n : ℕ)
    (ih : (s : String) → count s < n → next s ≢ out_of_fuel) (l : Lexeme)
    → Shrinks n l
    → resume next l ≢ out_of_fuel
unfolding resume
resume-ends next n ih finish h = ground arith
resume-ends next n ih (skip rest) h = ih rest h
resume-ends next n ih (token t rest) h = ground (arith, ih rest h)
resume-ends next n ih stray h = ground arith

tokenize_fuel-ends : (f : ℕ) (s : String) → count s < f → tokenize_fuel f s ≢ out_of_fuel
unfolding tokenize_fuel
tokenize_fuel-ends zero s h = absurd (omega arith)
tokenize_fuel-ends (suc f) s h =
    resume-ends (tokenize_fuel f) (count s) (λ r k. tokenize_fuel-ends f r (omega arith)) (lex s)
      (lex-Shrinks s)

andthen-ends :
    {A B : Type 0} (o : Outcome A) (g : A → Outcome B)
    → o ≢ out_of_fuel
    → ((a : A) → g a ≢ out_of_fuel)
    → andthen o g ≢ out_of_fuel
andthen-ends (done a) g h k = k a
andthen-ends (failed e) g h k = ground arith
andthen-ends out_of_fuel g h k = absurd (h refl)

-- The tokenizer and the parser end on every text: their fuel is enough.
pub eval_expression-ends :
    {Num : Type 0} (js : Numbers Num) (expr : String) (row : String → Value Num)
    → eval_expression js expr row ≢ out_of_fuel
unfolding eval_expression tokenize
eval_expression-ends js expr row =
    andthen-ends (tokenize_fuel (suc (count expr)) expr) (parse_tokens js row)
      (tokenize_fuel-ends (suc (count expr)) expr (omega arith)) (parse_tokens-ends js row)
