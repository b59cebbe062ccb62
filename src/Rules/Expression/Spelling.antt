-- ===== src/Rules/Expression/Spelling.antt =====
-- Tokens written as a text, each with a blank behind it, and what `tokenize` of
-- packages/rule-engine/src/expression.ts makes of that text.
use Prim.Native.Char.{Char, code}
use Prim.Native.String.{String, [], ◌∷◌, ◌++◌, count}
use text.Mathlib.TextLemmas.{length-append, cons-append, nil-append}
use task_schedular.Prelude.{ℕ, ◌≤◌, ◌≡◌, refl, Bool, true, false, ◌&&◌, ◌||◌, none, arith}
use task_schedular.Rules.Expression.{
  Token, infix_op, relation, bang, opening, closing, eof, num, str, ident, bars, ampersands, equals,
  differs, plus, minus, times, over, below, up_to, above, no_less, Infix, Relation,
}
use task_schedular.Rules.Expression.Lexer.{
  token, skip, is_numeric, is_letter, is_word, is_blank, unlike, span, beyond, tail, pair, single,
  long, symbol, two, lex,
}

abbrev pub quote : Char
quote = "\""

abbrev pub blank : Char
blank = " "

abbrev spell_infix : Infix → String → String
spell_infix bars r = "|" ∷ "|" ∷ r
spell_infix ampersands r = "&" ∷ "&" ∷ r
spell_infix equals r = "=" ∷ "=" ∷ r
spell_infix differs r = "!" ∷ "=" ∷ r
spell_infix plus r = "+" ∷ r
spell_infix minus r = "-" ∷ r
spell_infix times r = "*" ∷ r
spell_infix over r = "/" ∷ r

abbrev spell_relation : Relation → String → String
spell_relation below r = "<" ∷ r
spell_relation up_to r = "<" ∷ "=" ∷ r
spell_relation above r = ">" ∷ r
spell_relation no_less r = ">" ∷ "=" ∷ r

-- The text of a token before another text
unfoldable pub spell : Token → String → String
spell (infix_op o) r = spell_infix o r
spell (relation c) r = spell_relation c r
spell bang r = "!" ∷ r
spell opening r = "(" ∷ r
spell closing r = ")" ∷ r
spell eof r = r
spell (num s) r = s ++ r
spell (str s) r = quote ∷ (s ++ (quote ∷ r))
spell (ident s) r = s ++ r

-- A blank behind it
abbrev pub spaced : Token → String → String
spaced t r = spell t (blank ∷ r)

abbrev every : (Char → Bool) → String → Bool
every p [] = true
every p (c ∷ s) = p c && every p s

-- A token that the text of its kind can hold: digits, letters, no quotation mark in a text.
abbrev pub is_spelt : Token → Bool
is_spelt (num []) = false
is_spelt (num (c ∷ s)) = is_numeric c && every is_numeric s
is_spelt (ident []) = false
is_spelt (ident (c ∷ s)) = is_letter c && every is_word s
is_spelt (str s) = every (unlike quote) s
is_spelt eof = false
is_spelt t = true

count-append : (s r : String) → count r ≤ count (s ++ r)
count-append s r = omega (arith, length-append s r)

span-every :
    (p : Char → Bool) (d : Char) (s r : String)
    → every p s ≡ true
    → p d ≡ false
    → (span p (s ++ (d ∷ r)) ≡ s) × (beyond p (s ++ (d ∷ r)) ≡ d ∷ r)
unfolding span beyond
span-every p d [] r h k = rw (nil-append (d ∷ r), k) (refl, refl)
span-every p d (c ∷ s) r h k =
    let (a, b) = span-every p d s r (ground arith) k in
    let e : p c ≡ true = ground arith in rw (cons-append c s (d ∷ r), e) (rw a refl, b)

-- What begins no symbol and is no blank begins a longer token.
lex-long :
    (c : Char) (s : String)
    → is_blank c ≡ false
    → single (code c) ≡ none
    → ((d : ℕ) → pair (code c) d ≡ none)
    → lex (c ∷ s) ≡ long c s
unfolding lex two symbol
lex-long c [] b h k = rw (b, two, symbol, h) refl
lex-long c (d ∷ s) b h k = rw (b, two, k (code d), symbol, h) refl

-- A letter or a digit is no blank and begins no symbol.
lex-plain : (c : Char) (s : String) → is_numeric c || is_letter c ≡ true → lex (c ∷ s) ≡ long c s
unfolding single pair
lex-plain c s h = lex-long c s (ground arith) (ground arith) λ d. ground arith

lex-num :
    (c : Char) (s r : String)
    → is_numeric c && every is_numeric s ≡ true
    → lex ((c ∷ s) ++ (blank ∷ r)) ≡ token (num (c ∷ s)) (blank ∷ r)
unfolding long
lex-num c s r h =
    let n : is_numeric c ≡ true = ground arith in
    let (a, b) = span-every is_numeric blank s r (ground arith) refl in
    rw (cons-append c s (blank ∷ r), lex-plain c (s ++ (blank ∷ r)) (ground arith), n, a, b)
      (ground arith)

lex-ident :
    (c : Char) (s r : String)
    → is_letter c && every is_word s ≡ true
    → lex ((c ∷ s) ++ (blank ∷ r)) ≡ token (ident (c ∷ s)) (blank ∷ r)
unfolding long
lex-ident c s r h =
    let (a, b) = span-every is_word blank s r (ground arith) refl in
    rw (cons-append c s (blank ∷ r), lex-plain c (s ++ (blank ∷ r)) (ground arith), a, b)
      (ground arith)

lex-str :
    (s r : String)
    → every (unlike quote) s ≡ true
    → lex (quote ∷ (s ++ (quote ∷ r))) ≡ token (str s) r
unfolding long tail single pair
lex-str s r h =
    let (a, b) = span-every (unlike quote) quote s r h refl in
    rw (lex-long quote (s ++ (quote ∷ r)) refl refl (λ d. refl), a, b) refl

-- The tokenizer finds a token where it was written with a blank behind it.
pub lex-spaced :
    (t : Token) (r : String) → is_spelt t ≡ true → lex (spaced t r) ≡ token t (blank ∷ r)
unfolding lex spell two pair symbol single
lex-spaced (num []) r h = ground arith
lex-spaced (num (c ∷ s)) r h = lex-num c s r h
lex-spaced (ident []) r h = ground arith
lex-spaced (ident (c ∷ s)) r h = lex-ident c s r h
lex-spaced (str s) r h = lex-str s (blank ∷ r) h
lex-spaced eof r h = ground arith
lex-spaced (relation below) r h = refl
lex-spaced (relation up_to) r h = refl
lex-spaced (relation above) r h = refl
lex-spaced (relation no_less) r h = refl
lex-spaced (infix_op bars) r h = refl
lex-spaced (infix_op ampersands) r h = refl
lex-spaced (infix_op equals) r h = refl
lex-spaced (infix_op differs) r h = refl
lex-spaced (infix_op plus) r h = refl
lex-spaced (infix_op minus) r h = refl
lex-spaced (infix_op times) r h = refl
lex-spaced (infix_op over) r h = refl
lex-spaced bang r h = refl
lex-spaced opening r h = refl
lex-spaced closing r h = refl

pub lex-blank : (r : String) → lex (blank ∷ r) ≡ skip r
unfolding lex
lex-blank r = refl
