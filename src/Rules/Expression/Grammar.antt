-- ===== src/Rules/Expression/Grammar.antt =====
-- What an expression means: its syntax tree, the value of a tree on a row, and how a tree is written
-- with no more parentheses than the precedence of its operators needs.
use task_schedular.Prelude.{ℕ, suc, String, [], ◌∷◌, ◌++◌, ltb, if◌then◌else◌}
use task_schedular.Rules.Expression.{
  Value, text, number, Numbers, Infix, bars, ampersands, equals, differs, plus, minus, times, over,
  Relation, Tokens, infix_op, relation, bang, opening, closing, num, str, ident, Level, or, and,
  equality, additive, multiplicative, apply_infix, apply_relation, opposite, negative, named,
}

pub data Expr : Type 0 where
  digits quoted name : String → Expr
  inverse minus_of : Expr → Expr
  compared : Relation → Expr → Expr → Expr
  combined : Infix → Expr → Expr → Expr

abbrev pub level_of : Infix → Level
level_of bars = or
level_of ampersands = and
level_of equals = equality
level_of differs = equality
level_of plus = additive
level_of minus = additive
level_of times = multiplicative
level_of over = multiplicative

abbrev pub tightness : Level → ℕ
tightness or = 0
tightness and = 1
tightness equality = 2
tightness additive = 4
tightness multiplicative = 5

abbrev pub precedence : Expr → ℕ
precedence (combined o a b) = tightness (level_of o)
precedence (compared r a b) = 3
precedence (inverse e) = 6
precedence (minus_of e) = 6
precedence _ = 7

unfoldable pub wrap : ℕ → ℕ → Tokens → Tokens
wrap p n ts = if ltb p n then opening ∷ (ts ++ (closing ∷ [])) else ts

-- The tokens of a tree. Operators of one level are grouped to the left, comparisons not at all.
unfoldable pub bare : Expr → Tokens
bare (digits s) = num s ∷ []
bare (quoted s) = str s ∷ []
bare (name s) = ident s ∷ []
bare (inverse e) = bang ∷ wrap (precedence e) 6 (bare e)
bare (minus_of e) = infix_op minus ∷ wrap (precedence e) 6 (bare e)
bare (compared r a b) =
    wrap (precedence a) 4 (bare a) ++ relation r ∷ wrap (precedence b) 4 (bare b)
bare (combined o a b) =
    wrap (precedence a) (tightness (level_of o)) (bare a)
    ++ infix_op o ∷ wrap (precedence b) (suc (tightness (level_of o))) (bare b)

-- A tree where an operand of the precedence `n` is wanted
unfoldable pub print : ℕ → Expr → Tokens
unfolding bare wrap
print n e = wrap (precedence e) n (bare e)

module _ {Num : Type 0} (js : Numbers Num) (row : String → Value Num) where
  unfoldable pub meaning : Expr → Value Num
  meaning (digits s) = number (js.parse s)
  meaning (quoted s) = text s
  meaning (name s) = named js row s
  meaning (inverse e) = opposite js (meaning e)
  meaning (minus_of e) = negative js (meaning e)
  meaning (compared r a b) = apply_relation js r (meaning a) (meaning b)
  meaning (combined o a b) = apply_infix js o (meaning a) (meaning b)
