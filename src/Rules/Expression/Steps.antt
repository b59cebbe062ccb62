-- ===== src/Rules/Expression/Steps.antt =====
-- One call of the parser of packages/rule-engine/src/expression.ts after another, with enough fuel.
use task_schedular.Prelude.{
  ℕ, zero, suc, ◌+◌, ◌*◌, ◌≤◌, ◌<◌, String, none, some, [], ◌∷◌, length, ◌≡◌, refl, ◌≢◌, arith,
}
use task_schedular.Rules.Expression.{
  done, Value, number, text, Numbers, Infix, bars, ampersands, equals, differs, plus, minus, times,
  over, Relation, Token, Tokens, infix_op, relation, bang, opening, closing, num, str, ident, Level,
  or, and, equality, additive, multiplicative, Method, level, loop, comparison, unary, primary,
  Parsed, operand, takes, apply_infix, apply_relation, opposite, negative, named, loop_body, relate,
  unary_body, expect_close, primary_body, body, call,
}
use task_schedular.Rules.Expression.Grammar.{level_of, tightness}
use task_schedular.Rules.Expression.Fuel.{
  rank, room, rank-operand, rank-bound, room-operand, call-shorter,
}

abbrev pub strength : Token → ℕ
strength (infix_op o) = suc (tightness (level_of o))
strength (relation r) = 4
strength _ = 0

-- The tokens begin with none that binds as tightly as an operator of that precedence.
abbrev pub Stops : ℕ → Tokens → Type 0
Stops n [] = ⊥
Stops n (t ∷ ts) = strength t ≤ n

pub Stops-mono : (n k : ℕ) (ts : Tokens) → n ≤ k → Stops n ts → Stops k ts
Stops-mono n k [] h p = p
Stops-mono n k (t ∷ ts) h p = omega arith

takes-weak : (l : Level) (t : Token) → strength t ≤ tightness l → takes l t ≡ none
unfolding takes
takes-weak or (infix_op bars) h = absurd (omega arith)
takes-weak and (infix_op ampersands) h = absurd (omega arith)
takes-weak equality (infix_op equals) h = absurd (omega arith)
takes-weak equality (infix_op differs) h = absurd (omega arith)
takes-weak additive (infix_op plus) h = absurd (omega arith)
takes-weak additive (infix_op minus) h = absurd (omega arith)
takes-weak multiplicative (infix_op times) h = absurd (omega arith)
takes-weak multiplicative (infix_op over) h = absurd (omega arith)
takes-weak l t h = refl

takes-own : (o : Infix) → takes (level_of o) (infix_op o) ≡ some o
unfolding takes
takes-own bars = refl
takes-own ampersands = refl
takes-own equals = refl
takes-own differs = refl
takes-own plus = refl
takes-own minus = refl
takes-own times = refl
takes-own over = refl

module _ {Num : Type 0} (js : Numbers Num) (row : String → Value Num) where
  -- With enough fuel the call gives the outcome.
  abbrev pub Runs : Method Num → Tokens → Parsed Num → Type 0
  Runs m ts r = (f : ℕ) → 16 * length ts + rank m < f → call js row f m ts ≡ r

  -- fuel above any bound is a successor
  spend :
      (m : Method Num) (ts : Tokens) (r : Parsed Num)
      → ((f : ℕ) → 16 * length ts + rank m ≤ f → body js row (call js row f) m ts ≡ r)
      → Runs m ts r
  unfolding call
  spend m ts r k zero h = absurd (omega arith)
  spend m ts r k (suc f) h = k f (omega arith)

  Runs-shorter :
      (m : Method Num) (ts : Tokens) (v : Value Num) (rest : Tokens)
      → Runs m ts (done (v, rest))
      → length rest < room m ts
  Runs-shorter m ts v rest p =
      call-shorter js row (suc (16 * length ts + rank m)) m ts (omega arith) v rest
        (p _ (omega arith))

  pub Runs-level :
      (l : Level) (ts : Tokens) (v : Value Num) (rest : Tokens) (r : Parsed Num)
      → Runs (operand l) ts (done (v, rest))
      → Runs (loop l v) rest r
      → Runs (level l) ts r
  unfolding body
  Runs-level l ts v rest r p q = spend (level l) ts r λ f h.
      rw (p f (omega (arith, rank-operand Num l))) (
        q f (
          omega (
            arith,
            rank-bound Num l,
            rank-operand Num l,
            room-operand Num l ts,
            Runs-shorter (operand l) ts v rest p,
          )))

  pub Runs-stop :
      (l : Level) (v : Value Num) (rest : Tokens)
      → Stops (tightness l) rest
      → Runs (loop l v) rest (done (v, rest))
  unfolding body loop_body
  Runs-stop l v [] p = elim p [ ]
  Runs-stop l v (t ∷ rest) p = spend _ _ _ λ f h. rw (loop_body, takes-weak l t p) refl

  pub Runs-loop :
      (o : Infix) (v w : Value Num) (ts rest : Tokens) (r : Parsed Num)
      → Runs (operand (level_of o)) ts (done (w, rest))
      → Runs (loop (level_of o) (apply_infix js o v w)) rest r
      → Runs (loop (level_of o) v) (infix_op o ∷ ts) r
  unfolding body loop_body
  Runs-loop o v w ts rest r p q = spend _ _ _ λ f h.
      rw
        (
          loop_body,
          takes-own o,
          p f (omega (arith, rank-operand Num (level_of o), rank-bound Num (level_of o))),
        )
        (q f (
          omega (
            arith,
            room-operand Num (level_of o) ts,
            Runs-shorter (operand (level_of o)) ts w rest p,
          )))

  pub Runs-alone :
      (ts : Tokens) (v : Value Num) (rest : Tokens)
      → Runs (level additive) ts (done (v, rest))
      → Stops 3 rest
      → Runs comparison ts (done (v, rest))
  unfolding body relate
  Runs-alone ts v [] p h = elim h [ ]
  Runs-alone ts v (relation r ∷ rest) p h = absurd (omega arith)
  Runs-alone ts v (t ∷ rest) p h = spend _ _ _ λ f h. rw (p f (omega arith)) refl

  pub Runs-compared :
      (r : Relation) (ts us rest : Tokens) (v w : Value Num)
      → Runs (level additive) ts (done (v, relation r ∷ us))
      → Runs (level additive) us (done (w, rest))
      → Runs comparison ts (done (apply_relation js r v w, rest))
  unfolding body relate
  Runs-compared r ts us rest v w p q = spend _ _ _ λ f h.
      rw
        (
          p f (omega arith),
          q f (omega (arith, Runs-shorter (level additive) ts v (relation r ∷ us) p)),
        )
        refl

  pub Runs-inverse :
      (ts rest : Tokens) (v : Value Num)
      → Runs unary ts (done (v, rest))
      → Runs unary (bang ∷ ts) (done (opposite js v, rest))
  unfolding body unary_body
  Runs-inverse ts rest v p = spend _ _ _ λ f h. rw (p f (omega arith)) refl

  pub Runs-minus_of :
      (ts rest : Tokens) (v : Value Num)
      → Runs unary ts (done (v, rest))
      → Runs unary (infix_op minus ∷ ts) (done (negative js v, rest))
  unfolding body unary_body
  Runs-minus_of ts rest v p = spend _ _ _ λ f h. rw (p f (omega arith)) refl

  pub Runs-parens :
      (ts rest : Tokens) (v : Value Num)
      → Runs (level or) ts (done (v, closing ∷ rest))
      → Runs primary (opening ∷ ts) (done (v, rest))
  unfolding body primary_body expect_close
  Runs-parens ts rest v p = spend _ _ _ λ f h. rw (p f (omega arith)) refl

  -- What begins with no sign is a primary expression.
  pub Runs-unary :
      (t : Token) (ts : Tokens) (r : Parsed Num)
      → strength t ≡ 0
      → t ≢ bang
      → Runs primary (t ∷ ts) r
      → Runs unary (t ∷ ts) r
  unfolding body unary_body
  Runs-unary bang ts r h n p = absurd (n refl)
  Runs-unary (infix_op o) ts r h n p = absurd (omega arith)
  Runs-unary t ts r h n p = spend _ _ _ λ f b. p f (omega arith)

  -- A token that is an expression by itself
  pub Runs-num :
      (s : String) (ts : Tokens) → Runs primary (num s ∷ ts) (done (number (js.parse s), ts))
  unfolding body primary_body
  Runs-num s ts = spend _ _ _ λ f h. refl

  pub Runs-str : (s : String) (ts : Tokens) → Runs primary (str s ∷ ts) (done (text s, ts))
  unfolding body primary_body
  Runs-str s ts = spend _ _ _ λ f h. refl

  pub Runs-ident :
      (s : String) (ts : Tokens) → Runs primary (ident s ∷ ts) (done (named js row s, ts))
  unfolding body primary_body
  Runs-ident s ts = spend _ _ _ λ f h. refl
