-- ===== src/Rules/Expression/Reads.antt =====
-- The parser of packages/rule-engine/src/expression.ts on the tokens of a written tree.
use task_schedular.Prelude.{
  ℕ, suc, ◌+◌, ◌*◌, ◌≤◌, String, [], ◌∷◌, ◌++◌, length, append_assoc, ◌≡◌, refl, subst, inl, inr,
  arith, leb, ltb, ◌==◌, Bool-cases, leb→le, ◌≢◌,
}
use task_schedular.Rules.Expression.{
  done, Value, Numbers, Infix, Relation, Token, Tokens, infix_op, relation, bang, opening, closing,
  num, str, ident, last_token, Level, level, loop, primary, Parsed, operand, at_end, fuel_for,
  parse_tokens,
}
use task_schedular.Rules.Expression.Grammar.{
  Expr, digits, quoted, name, inverse, minus_of, compared, combined, level_of, tightness,
  precedence, wrap, bare, print, meaning,
}
use task_schedular.Rules.Expression.Steps.{
  strength, Stops, Stops-mono, Runs, Runs-level, Runs-stop, Runs-loop, Runs-compared, Runs-inverse,
  Runs-minus_of, Runs-parens, Runs-unary, Runs-num, Runs-str, Runs-ident,
}
use task_schedular.Rules.Expression.Climb.{
  reader, reader-tightness, reader-operand, tightness-bound, tightness-inj, tightness-ne_comparison,
  climb,
}

module _ {Num : Type 0} (js : Numbers Num) (row : String → Value Num) where
  abbrev Gives : ℕ → Tokens → Value Num → Tokens → Type 0
  Gives n ts v rest = Runs js row (reader n) ts (done (v, rest))

  -- A primary expression is read where any precedence is wanted.
  primary-Gives :
      (n : ℕ) (t : Token) (ts : Tokens) (v : Value Num) (rest : Tokens)
      → strength t ≡ 0
      → t ≢ bang
      → Runs js row primary (t ∷ ts) (done (v, rest))
      → n ≤ 7
      → Stops n rest
      → Gives n (t ∷ ts) v rest
  primary-Gives n t ts v rest h b p k q = elim (Bool-cases (leb n 6)) [
    | inl e ↦
        climb js row 6 n (t ∷ ts) v rest (omega arith) (leb→le n 6 e)
          (Runs-unary js row t ts _ h b p) q
    | inr e ↦ let e' : n ≡ 7 = ground arith in rw e' p
  ]

  -- The written tree is read as its meaning: without parentheses of its own, and with them if needed.
  abbrev Plain : Expr → Type 0
  Plain e =
      (n : ℕ)
      → n ≤ precedence e
      → (rest : Tokens) → Stops n rest
      → Gives n (bare e ++ rest) (meaning js row e) rest

  abbrev Reads : Expr → Type 0
  Reads e =
      (n : ℕ)
      → n ≤ 7
      → (rest : Tokens) → Stops n rest
      → Gives n (print n e ++ rest) (meaning js row e) rest

  Plain-Reads : (e : Expr) → Plain e → Reads e
  unfolding print wrap
  Plain-Reads e p n h rest q = elim (Bool-cases (ltb (precedence e) n)) [
    | inr c ↦ rw c (p n (ground arith) rest q)
    | inl c ↦
        rw (c, append_assoc (bare e) (closing ∷ []) rest)
          (primary-Gives n opening (bare e ++ closing ∷ rest) (meaning js row e) rest refl
            (ground arith)
            (Runs-parens js row (bare e ++ closing ∷ rest) rest (meaning js row e)
              (p 0 (omega arith) (closing ∷ rest) (omega arith)))
            h q)
  ]

  -- The loop of a level goes on behind a left operand of the level.
  abbrev Goes : Level → Expr → Type 0
  Goes l e =
      (rest : Tokens) (r : Parsed Num)
      → Stops (suc (tightness l)) rest
      → Runs js row (loop l (meaning js row e)) rest r
      → Runs js row (level l) (print (tightness l) e ++ rest) r

  -- The print of an operand is the same for two neighbouring precedences, neither of them its own.
  print-next : (n : ℕ) (e : Expr) → n ≢ precedence e → print n e ≡ print (suc n) e
  unfolding print wrap
  print-next n e h = ground arith

  Reads-Goes : (l : Level) (e : Expr) → tightness l ≢ precedence e → Reads e → Goes l e
  Reads-Goes l e h p rest r q k = rw (print-next (tightness l) e h) (
      Runs-level js row l _ (meaning js row e) rest r
        (subst
          (λ m. Runs js row m (print (suc (tightness l)) e ++ rest) (done (meaning js row e, rest)))
          (reader-operand l) (p (suc (tightness l)) (omega (arith, tightness-bound l)) rest q))
        k)

  abbrev Sound : Expr → Type 0
  Sound e = Reads e × ((l : Level) → Goes l e)

  Plain-Sound : (e : Expr) → ((l : Level) → tightness l ≢ precedence e) → Plain e → Sound e
  Plain-Sound e h p = (Plain-Reads e p, λ l. Reads-Goes l e (h l) (Plain-Reads e p))

  print-own : (e : Expr) → print (precedence e) e ≡ bare e
  unfolding print wrap
  print-own e = ground arith

  bare-combined :
      (o : Infix) (a b : Expr)
      → bare (combined o a b)
        ≡ print (tightness (level_of o)) a ++ (infix_op o ∷ print (suc (tightness (level_of o))) b)
  unfolding bare print
  bare-combined o a b = refl

  combined-Goes :
      (o : Infix) (a b : Expr) → Goes (level_of o) a → Reads b → Goes (level_of o) (combined o a b)
  unfolding meaning
  combined-Goes o a b ga rb rest r q k =
      let l = level_of o in
      let more = print (suc (tightness l)) b ++ rest in
      let right : Runs js row (operand l) more (done (meaning js row b, rest)) =
        subst (λ m. Runs js row m more (done (meaning js row b, rest))) (reader-operand l)
          (rb (suc (tightness l)) (omega (arith, tightness-bound l)) rest q) in
      rw
        (
          print-own (combined o a b),
          bare-combined o a b,
          append_assoc (print (tightness l) a) (infix_op o ∷ print (suc (tightness l)) b) rest,
        )
        (ga (infix_op o ∷ more) r (omega arith) (Runs-loop js row o _ _ more rest r right k))

  combined-Plain :
      (o : Infix) (a b : Expr) → Goes (level_of o) (combined o a b) → Plain (combined o a b)
  combined-Plain o a b g n h rest q =
      let e = combined o a b in
      let l = level_of o in
      let tight : Stops (tightness l) rest = Stops-mono n (tightness l) rest h q in
      let own : Runs js row (level l) (bare e ++ rest) (done (meaning js row e, rest)) =
        subst (λ ts. Runs js row (level l) (ts ++ rest) (done (meaning js row e, rest)))
          (print-own e)
          (g rest _ (Stops-mono (tightness l) (suc (tightness l)) rest (omega arith) tight)
            (Runs-stop js row l _ rest tight)) in
      climb js row (tightness l) n _ _ rest (omega (arith, tightness-bound l)) h
        (rw (reader-tightness {Num = Num} l) own) q

  combined-Sound :
      (o : Infix) (a b : Expr) → Goes (level_of o) (combined o a b) → Sound (combined o a b)
  combined-Sound o a b g =
      let rs = Plain-Reads (combined o a b) (combined-Plain o a b g) in
      (
        rs,
        λ l. elim (Bool-cases (tightness l == tightness (level_of o))) [
          | inl e ↦ rw (tightness-inj l (level_of o) (ground arith)) g
          | inr e ↦ Reads-Goes l (combined o a b) (ground arith) rs
        ],
      )

  compared-Plain : (c : Relation) (a b : Expr) → Reads a → Reads b → Plain (compared c a b)
  unfolding bare meaning print
  compared-Plain c a b ra rb n h rest q =
      let more = relation c ∷ (print 4 b ++ rest) in
      rw (append_assoc (print 4 a) (relation c ∷ print 4 b) rest) (
        climb js row 3 n (print 4 a ++ more) _ rest (omega arith) h
          (Runs-compared js row c _ (print 4 b ++ rest) rest _ _
            (ra 4 (omega arith) more (omega arith))
            (rb 4 (omega arith) rest (Stops-mono n 4 rest (omega arith) q)))
          q)

  inverse-Plain : (e : Expr) → Reads e → Plain (inverse e)
  unfolding bare meaning print
  inverse-Plain e p n h rest q =
      climb js row 6 n (bare (inverse e) ++ rest) (meaning js row (inverse e)) rest (omega arith) h
        (Runs-inverse js row (print 6 e ++ rest) rest (meaning js row e)
          (p 6 (omega arith) rest (Stops-mono n 6 rest h q)))
        q

  minus_of-Plain : (e : Expr) → Reads e → Plain (minus_of e)
  unfolding bare meaning print
  minus_of-Plain e p n h rest q =
      climb js row 6 n (bare (minus_of e) ++ rest) (meaning js row (minus_of e)) rest (omega arith)
        h
        (Runs-minus_of js row (print 6 e ++ rest) rest (meaning js row e)
          (p 6 (omega arith) rest (Stops-mono n 6 rest h q)))
        q

  digits-Plain : (s : String) → Plain (digits s)
  unfolding bare meaning
  digits-Plain s n h rest q =
      primary-Gives n (num s) rest _ rest refl (ground arith) (Runs-num js row s rest) h q

  quoted-Plain : (s : String) → Plain (quoted s)
  unfolding bare meaning
  quoted-Plain s n h rest q =
      primary-Gives n (str s) rest _ rest refl (ground arith) (Runs-str js row s rest) h q

  name-Plain : (s : String) → Plain (name s)
  unfolding bare meaning
  name-Plain s n h rest q =
      primary-Gives n (ident s) rest _ rest refl (ground arith) (Runs-ident js row s rest) h q

  sound : (e : Expr) → Sound e
  sound (digits s) = Plain-Sound (digits s) (λ l. omega (arith, tightness-bound l)) (digits-Plain s)
  sound (quoted s) = Plain-Sound (quoted s) (λ l. omega (arith, tightness-bound l)) (quoted-Plain s)
  sound (name s) = Plain-Sound (name s) (λ l. omega (arith, tightness-bound l)) (name-Plain s)
  sound (inverse e) =
      Plain-Sound (inverse e) (λ l. omega (arith, tightness-bound l)) (inverse-Plain e (sound e).0)
  sound (minus_of e) =
      Plain-Sound (minus_of e) (λ l. omega (arith, tightness-bound l))
        (minus_of-Plain e (sound e).0)
  sound (compared c a b) =
      Plain-Sound (compared c a b) tightness-ne_comparison
        (compared-Plain c a b (sound a).0 (sound b).0)
  sound (combined o a b) =
      combined-Sound o a b (combined-Goes o a b ((sound a).1 (level_of o)) (sound b).0)

  -- The parser gives every written tree its meaning on the row.
  pub parse_tokens-print :
      (e : Expr) → parse_tokens js row (print 0 e ++ last_token) ≡ done (meaning js row e)
  unfolding parse_tokens fuel_for at_end
  parse_tokens-print e =
      rw
        ((sound e).0 0 (omega arith) last_token (omega arith)
          (16 * length (print 0 e ++ last_token) + 16) (omega arith))
        refl
