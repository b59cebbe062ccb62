-- ===== src/Rules/Expression/Climb.antt =====
-- Which method of the parser of packages/rule-engine/src/expression.ts reads which precedence.
use task_schedular.Prelude.{
  ℕ, zero, suc, ◌≤◌, String, ◌≡◌, refl, inl, inr, arith, leb, Bool-cases, leb→le, ◌≢◌,
}
use task_schedular.Rules.Expression.{
  done, Value, Numbers, Tokens, Level, or, and, equality, additive, multiplicative, Method, level,
  comparison, unary, primary, operand,
}
use task_schedular.Rules.Expression.Grammar.{tightness}
use task_schedular.Rules.Expression.Steps.{
  Stops, Stops-mono, Runs, Runs-level, Runs-stop, Runs-alone,
}

-- The method that reads what a precedence asks for
abbrev pub reader : {Num : Type 0} → ℕ → Method Num
reader zero = level or
reader (suc zero) = level and
reader (suc (suc zero)) = level equality
reader (suc (suc (suc zero))) = comparison
reader (suc (suc (suc (suc zero)))) = level additive
reader (suc (suc (suc (suc (suc zero))))) = level multiplicative
reader (suc (suc (suc (suc (suc (suc zero)))))) = unary
reader _ = primary

pub reader-tightness : {Num : Type 0} (l : Level) → reader {Num = Num} (tightness l) ≡ level l
reader-tightness or = refl
reader-tightness and = refl
reader-tightness equality = refl
reader-tightness additive = refl
reader-tightness multiplicative = refl

pub reader-operand : {Num : Type 0} (l : Level) → reader {Num = Num} (suc (tightness l)) ≡ operand l
reader-operand or = refl
reader-operand and = refl
reader-operand equality = refl
reader-operand additive = refl
reader-operand multiplicative = refl

pub tightness-bound : (l : Level) → tightness l ≤ 5
tightness-bound or = omega arith
tightness-bound and = omega arith
tightness-bound equality = omega arith
tightness-bound additive = omega arith
tightness-bound multiplicative = omega arith

-- No two levels are equally tight, and no level is as tight as a comparison.
pub tightness-inj : (l k : Level) → tightness l ≡ tightness k → l ≡ k
tightness-inj or or h = refl
tightness-inj and and h = refl
tightness-inj equality equality h = refl
tightness-inj additive additive h = refl
tightness-inj multiplicative multiplicative h = refl
tightness-inj l k h = absurd (omega arith)

pub tightness-ne_comparison : (l : Level) → tightness l ≢ 3
tightness-ne_comparison or = omega arith
tightness-ne_comparison and = omega arith
tightness-ne_comparison equality = omega arith
tightness-ne_comparison additive = omega arith
tightness-ne_comparison multiplicative = omega arith

module _ {Num : Type 0} (js : Numbers Num) (row : String → Value Num) where
  -- What the reader of one precedence reads, that of the next lower one reads too.
  down :
      (p : ℕ) (ts : Tokens) (v : Value Num) (rest : Tokens)
      → p ≤ 5
      → Runs js row (reader (suc p)) ts (done (v, rest))
      → Stops p rest
      → Runs js row (reader p) ts (done (v, rest))
  down zero ts v rest h p q = Runs-level js row or ts v rest _ p (Runs-stop js row or v rest q)
  down (suc zero) ts v rest h p q =
      Runs-level js row and ts v rest _ p (Runs-stop js row and v rest q)
  down (suc (suc zero)) ts v rest h p q =
      Runs-level js row equality ts v rest _ p (Runs-stop js row equality v rest q)
  down (suc (suc (suc zero))) ts v rest h p q = Runs-alone js row ts v rest p q
  down (suc (suc (suc (suc zero)))) ts v rest h p q =
      Runs-level js row additive ts v rest _ p (Runs-stop js row additive v rest q)
  down (suc (suc (suc (suc (suc zero))))) ts v rest h p q =
      Runs-level js row multiplicative ts v rest _ p (Runs-stop js row multiplicative v rest q)
  down (suc (suc (suc (suc (suc (suc n)))))) ts v rest h p q = absurd (omega arith)

  pub climb :
      (p n : ℕ) (ts : Tokens) (v : Value Num) (rest : Tokens)
      → p ≤ 6
      → n ≤ p
      → Runs js row (reader p) ts (done (v, rest))
      → Stops n rest
      → Runs js row (reader n) ts (done (v, rest))
  climb zero n ts v rest h k p q = let e : n ≡ 0 = omega arith in rw e p
  climb (suc m) n ts v rest h k p q = elim (Bool-cases (leb n m)) [
    | inl e ↦
        climb m n ts v rest (omega arith) (leb→le n m e)
          (down m ts v rest (omega arith) p (Stops-mono n m rest (leb→le n m e) q)) q
    | inr e ↦ let e' : n ≡ suc m = ground arith in rw e' p
  ]
