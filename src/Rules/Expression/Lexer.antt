-- ===== src/Rules/Expression/Lexer.antt =====
-- packages/rule-engine/src/expression.ts: `tokenize`, one token at a time, and `evalExpression`.
use Prim.Native.Char.{Char, code}
use Prim.Native.String.{String, [], ◌∷◌, count}
use task_schedular.Prelude.{
  ℕ, zero, suc, Bool, not, ◌||◌, ◌&&◌, Option, none, some, ◌==◌, leb, if◌then◌else◌,
}
use task_schedular.Rules.Expression.{
  Outcome, done, failed, out_of_fuel, Value, Numbers, Token, Tokens, infix_op, relation, bang,
  opening, closing, num, str, ident, bars, ampersands, equals, differs, plus, minus, times, over,
  below, up_to, above, no_less, andthen, prepend, last_token, parse_tokens,
}

abbrev pub is_blank : Char → Bool
is_blank c = (code c == b' ' || code c == b'\t') || code c == b'\n'

abbrev pub between : ℕ → ℕ → ℕ → Bool
between a b n = leb a n && leb n b

abbrev pub is_numeric : Char → Bool
is_numeric c = between b'0' b'9' (code c) || code c == b'.'

abbrev pub is_letter : Char → Bool
is_letter c = (between b'A' b'Z' (code c) || between b'a' b'z' (code c)) || code c == b'_'

abbrev pub is_word : Char → Bool
is_word c = is_letter c || between b'0' b'9' (code c)

-- The characters of `two`, as one token
unfoldable pub pair : ℕ → ℕ → Option Token
pair c d =
    if c == b'=' && d == b'='
    then some (infix_op equals)
    else if c == b'!' && d == b'='
    then some (infix_op differs)
    else if c == b'<' && d == b'='
    then some (relation up_to)
    else if c == b'>' && d == b'='
    then some (relation no_less)
    else if c == b'&' && d == b'&'
    then some (infix_op ampersands)
    else if c == b'|' && d == b'|'
    then some (infix_op bars)
    else none

unfoldable pub single : ℕ → Option Token
single c =
    if c == b'('
    then some opening
    else if c == b')'
    then some closing
    else if c == b'+'
    then some (infix_op plus)
    else if c == b'-'
    then some (infix_op minus)
    else if c == b'*'
    then some (infix_op times)
    else if c == b'/'
    then some (infix_op over)
    else if c == b'<'
    then some (relation below)
    else if c == b'>'
    then some (relation above)
    else if c == b'!'
    then some bang
    else none

-- The characters up to the first that fails the test, and those from it on
unfoldable pub span : (Char → Bool) → String → String
span p [] = []
span p (c ∷ s) = let more = span p s in if p c then c ∷ more else []

unfoldable pub beyond : (Char → Bool) → String → String
beyond p [] = []
beyond p (c ∷ s) = let more = beyond p s in if p c then more else c ∷ s

unfoldable pub tail : String → String
tail [] = []
tail (c ∷ s) = s

abbrev pub unlike : Char → Char → Bool
unlike c d = not (code d == code c)

-- What the loop finds at a position, with the text behind it
pub data Lexeme : Type 0 where
  finish : Lexeme
  skip : String → Lexeme
  token : Token → String → Lexeme
  stray : Lexeme

unfoldable pub long : Char → String → Lexeme
unfolding span beyond tail
long c s =
    if code c == b'"' || code c == b'\''
    then token (str (span (unlike c) s)) (tail (beyond (unlike c) s))
    else if is_numeric c
    then token (num (c ∷ span is_numeric s)) (beyond is_numeric s)
    else if is_letter c
    then token (ident (c ∷ span is_word s)) (beyond is_word s)
    else stray

unfoldable pub symbol : Char → String → Lexeme
unfolding single long
symbol c s = elim (single (code c)) [ none ↦ long c s | some t ↦ token t s ]

unfoldable pub two : Char → String → Lexeme
unfolding pair symbol
two c [] = symbol c []
two c (d ∷ s) = elim (pair (code c) (code d)) [ none ↦ symbol c (d ∷ s) | some t ↦ token t s ]

unfoldable pub lex : String → Lexeme
unfolding two
lex [] = finish
lex (c ∷ s) = if is_blank c then skip s else two c s

-- What the loop does with a lexeme; `next` is its next round.
unfoldable pub resume : (String → Outcome Tokens) → Lexeme → Outcome Tokens
resume next finish = done last_token
resume next (skip rest) = next rest
resume next (token t rest) = prepend t (next rest)
resume next stray = failed "unexpected character in expression"

unfoldable pub tokenize_fuel : ℕ → String → Outcome Tokens
unfolding lex resume
tokenize_fuel zero s = out_of_fuel
tokenize_fuel (suc f) s = resume (tokenize_fuel f) (lex s)

unfoldable pub tokenize : String → Outcome Tokens
unfolding tokenize_fuel
tokenize s = tokenize_fuel (suc (count s)) s

unfoldable pub eval_expression :
    {Num : Type 0} → Numbers Num → String → (String → Value Num) → Outcome (Value Num)
unfolding tokenize parse_tokens
eval_expression js s row = andthen (tokenize s) (parse_tokens js row)
