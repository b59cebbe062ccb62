-- ===== src/Rules/Expression.antt =====
-- packages/rule-engine/src/expression.ts: the expressions of a rule or a computed field. Here are the
-- tokens and the recursive descent that evaluates them over a row; the tokenizer is in Lexer. A
-- number and its operations are arguments, a row is what it gives for a name.
pub mod Lexer
pub mod Ends
pub mod Spelling
pub mod Fuel
pub mod Grammar
pub mod Steps
pub mod Climb
pub mod Reads
pub mod Round
use Prim.Native.String.{◌++◌}
use task_schedular.Prelude.{
  ℕ, zero, suc, ◌+◌, ◌*◌, String, Bool, true, false, not, ◌||◌, ◌&&◌, Option, none, some, List, [],
  ◌∷◌, length, str_eq, if◌then◌else◌,
}

-- A result, an exception's message, or the fuel is used up.
pub data Outcome (A : Type 0) : Type 0 where
  done : A → Outcome A
  failed : String → Outcome A
  out_of_fuel : Outcome A

pub data Value (Num : Type 0) : Type 0 where
  missing null : Value Num
  boolean : Bool → Value Num
  number : Num → Value Num
  text : String → Value Num
  other : String → Value Num

-- The operations on numbers: their text, `Number(v)` of what is no number, arithmetic and comparison,
-- and whether a number is truthy.
pub record Numbers (Num : Type 0) : Type 0 where
  pub digits : Num → String
  pub parse : String → Num
  pub of_value : Value Num → Num
  pub negate : Num → Num
  pub add : Num → Num → Num
  pub subtract : Num → Num → Num
  pub multiply : Num → Num → Num
  pub divide_by : Num → Num → Num
  pub less : Num → Num → Bool
  pub at_most : Num → Num → Bool
  pub same : Num → Num → Bool
  pub nonzero : Num → Bool

pub data Infix : Type 0 where
  bars ampersands equals differs plus minus times over : Infix

pub data Relation : Type 0 where
  below up_to above no_less : Relation

pub data Token : Type 0 where
  infix_op : Infix → Token
  relation : Relation → Token
  bang opening closing eof : Token
  num str ident : String → Token

abbrev pub Tokens : Type 0
Tokens = List Token

-- The methods that loop over their operators
pub data Level : Type 0 where
  or and equality additive multiplicative : Level

-- A method of the parser, or the loop of one with the value so far
pub data Method (Num : Type 0) : Type 0 where
  level : Level → Method Num
  loop : Level → Value Num → Method Num
  comparison unary primary : Method Num

abbrev pub Parsed : Type 0 → Type 0
Parsed Num = Outcome (Value Num × Tokens)

abbrev pub andthen : {A B : Type 0} → Outcome A → (A → Outcome B) → Outcome B
andthen (done a) f = f a
andthen (failed e) f = failed e
andthen out_of_fuel f = out_of_fuel

abbrev pub prepend : Token → Outcome Tokens → Outcome Tokens
prepend t o = andthen o λ ts. done (t ∷ ts)

-- The token that ends a text
abbrev pub last_token : Tokens
last_token = eof ∷ []

-- The method that the loop of a level calls for its operands.
abbrev pub operand : {Num : Type 0} → Level → Method Num
operand or = level and
operand and = level equality
operand equality = comparison
operand additive = level multiplicative
operand multiplicative = unary

module _ {Num : Type 0} (js : Numbers Num) where
  unfoldable pub truthy : Value Num → Bool
  truthy missing = false
  truthy null = false
  truthy (boolean b) = b
  truthy (number n) = js.nonzero n
  truthy (text s) = not (str_eq s "")
  truthy (other s) = true

  -- `String(v)`
  unfoldable pub to_text : Value Num → String
  to_text missing = "undefined"
  to_text null = "null"
  to_text (boolean true) = "true"
  to_text (boolean false) = "false"
  to_text (number n) = js.digits n
  to_text (text s) = s
  to_text (other s) = s

  -- `Number(v)`
  unfoldable pub to_number : Value Num → Num
  to_number (number n) = n
  to_number v = js.of_value v

  unfoldable pub loose_eq : Value Num → Value Num → Bool
  loose_eq (number a) b = js.same a (to_number b)
  loose_eq a (number b) = js.same (to_number a) b
  loose_eq a b = str_eq (to_text a) (to_text b)

  unfoldable pub plus_value : Value Num → Value Num → Value Num
  plus_value (text s) b = text (s ++ to_text b)
  plus_value a (text t) = text (to_text a ++ t)
  plus_value a b = number (js.add (to_number a) (to_number b))

  unfoldable pub apply_infix : Infix → Value Num → Value Num → Value Num
  apply_infix bars a b = boolean (truthy a || truthy b)
  apply_infix ampersands a b = boolean (truthy a && truthy b)
  apply_infix equals a b = boolean (loose_eq a b)
  apply_infix differs a b = boolean (not (loose_eq a b))
  apply_infix plus a b = plus_value a b
  apply_infix minus a b = number (js.subtract (to_number a) (to_number b))
  apply_infix times a b = number (js.multiply (to_number a) (to_number b))
  apply_infix over a b = number (js.divide_by (to_number a) (to_number b))

  unfoldable pub apply_relation : Relation → Value Num → Value Num → Value Num
  apply_relation below a b = boolean (js.less (to_number a) (to_number b))
  apply_relation up_to a b = boolean (js.at_most (to_number a) (to_number b))
  apply_relation above a b = boolean (js.less (to_number b) (to_number a))
  apply_relation no_less a b = boolean (js.at_most (to_number b) (to_number a))

  unfoldable pub opposite : Value Num → Value Num
  opposite v = boolean (not (truthy v))

  unfoldable pub negative : Value Num → Value Num
  negative v = number (js.negate (to_number v))

  unfoldable pub named : (String → Value Num) → String → Value Num
  named row s =
      if str_eq s "true"
      then boolean true
      else if str_eq s "false"
      then boolean false
      else if str_eq s "null"
      then null
      else row s

-- Whether a loop takes a token as its operator.
unfoldable pub takes : Level → Token → Option Infix
takes or (infix_op bars) = some bars
takes and (infix_op ampersands) = some ampersands
takes equality (infix_op equals) = some equals
takes equality (infix_op differs) = some differs
takes additive (infix_op plus) = some plus
takes additive (infix_op minus) = some minus
takes multiplicative (infix_op times) = some times
takes multiplicative (infix_op over) = some over
takes _ _ = none

module _ {Num : Type 0} where
  -- `pos` past the last token reads `undefined`
  abbrev beyond : Parsed Num
  beyond = failed "undefined token"

  unfoldable pub expect_close : Value Num → Tokens → Parsed Num
  expect_close v [] = beyond
  expect_close v (closing ∷ rest) = done (v, rest)
  expect_close v (t ∷ rest) = failed "expected ')'"

  -- The end of `parse`
  unfoldable pub at_end : Value Num × Tokens → Outcome (Value Num)
  at_end (v, eof ∷ rest) = done v
  at_end (v, rest) = failed "trailing tokens in expression"

-- The parser: `run` is a call of a method, here an argument of the method's body.
module _ {Num : Type 0} (js : Numbers Num) (row : String → Value Num)
    (run : Method Num → Tokens → Parsed Num) where
  unfoldable pub loop_body : Level → Value Num → Tokens → Parsed Num
  loop_body l left [] = beyond
  loop_body l left (t ∷ ts) = elim (takes l t) [
    | none ↦ done (left, t ∷ ts)
    | some o ↦
        andthen (run (operand l) ts)
          λ (right, rest). run (loop l (apply_infix js o left right)) rest
  ]

  unfoldable pub relate : Value Num → Tokens → Parsed Num
  relate left [] = beyond
  relate left (relation r ∷ ts) =
      andthen (run (level additive) ts) λ (right, rest). done (apply_relation js r left right, rest)
  relate left (t ∷ ts) = done (left, t ∷ ts)

  unfoldable pub unary_body : Tokens → Parsed Num
  unary_body [] = beyond
  unary_body (bang ∷ ts) = andthen (run unary ts) λ (v, rest). done (opposite js v, rest)
  unary_body (infix_op minus ∷ ts) = andthen (run unary ts) λ (v, rest). done (negative js v, rest)
  unary_body (t ∷ ts) = run primary (t ∷ ts)

  unfoldable pub primary_body : Tokens → Parsed Num
  primary_body [] = beyond
  primary_body (opening ∷ ts) = andthen (run (level or) ts) λ (v, rest). expect_close v rest
  primary_body (num s ∷ ts) = done (number (js.parse s), ts)
  primary_body (str s ∷ ts) = done (text s, ts)
  primary_body (ident s ∷ ts) = done (named js row s, ts)
  primary_body (t ∷ ts) = failed "unexpected token"

  unfoldable pub body : Method Num → Tokens → Parsed Num
  unfolding loop_body relate unary_body primary_body
  body (level l) ts = andthen (run (operand l) ts) λ (left, rest). run (loop l left) rest
  body (loop l left) ts = loop_body l left ts
  body comparison ts = andthen (run (level additive) ts) λ (left, rest). relate left rest
  body unary ts = unary_body ts
  body primary ts = primary_body ts

module _ {Num : Type 0} (js : Numbers Num) (row : String → Value Num) where
  -- Each nested call costs a unit of fuel.
  unfoldable pub call : ℕ → Method Num → Tokens → Parsed Num
  call zero m ts = out_of_fuel
  call (suc f) m ts = body js row (call f) m ts

  unfoldable pub fuel_for : Tokens → ℕ
  fuel_for ts = 16 * length ts + 16

  unfoldable pub parse_tokens : Tokens → Outcome (Value Num)
  unfolding call at_end fuel_for
  parse_tokens ts = andthen (call (fuel_for ts) (level or) ts) at_end
