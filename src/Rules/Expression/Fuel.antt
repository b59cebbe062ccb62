-- ===== src/Rules/Expression/Fuel.antt =====
-- The calls of the parser of packages/rule-engine/src/expression.ts end: what each call costs and what
-- it leaves of the tokens.
use task_schedular.Prelude.{
  ℕ, zero, suc, ◌+◌, ◌*◌, ◌≤◌, ◌<◌, String, [], ◌∷◌, length, ◌≡◌, refl, subst, ◌≢◌, inl, inr, arith,
  Option-cases,
}
use task_schedular.Rules.Expression.{
  done, failed, out_of_fuel, Value, Numbers, Tokens, Level, or, and, equality, additive,
  multiplicative, Method, level, loop, comparison, unary, primary, Parsed, andthen, operand, takes,
  apply_infix, loop_body, relate, unary_body, expect_close, primary_body, body, call, at_end,
  fuel_for, parse_tokens, infix_op, minus, bang, opening, closing, relation, num, str, ident, eof,
}

abbrev pub rank : {Num : Type 0} → Method Num → ℕ
rank (level or) = 9
rank (level and) = 8
rank (level equality) = 7
rank comparison = 6
rank (level additive) = 5
rank (level multiplicative) = 4
rank unary = 3
rank primary = 2
rank (loop l v) = 1

-- A call leaves fewer tokens than this.
abbrev pub room : {Num : Type 0} → Method Num → Tokens → ℕ
room (loop l v) ts = suc (length ts)
room _ ts = length ts

-- The outcome is no lack of fuel, and leaves fewer than so many tokens.
abbrev Fits : {Num : Type 0} → ℕ → Parsed Num → Type 0
Fits n (done (v, rest)) = length rest < n
Fits n (failed e) = Unit
Fits n out_of_fuel = ⊥

module _ (Num : Type 0) where
  pub rank-operand : (l : Level) → rank {Num = Num} (operand l) < rank {Num = Num} (level l)
  rank-operand or = omega arith
  rank-operand and = omega arith
  rank-operand equality = omega arith
  rank-operand additive = omega arith
  rank-operand multiplicative = omega arith

  pub rank-bound : (l : Level) → rank {Num = Num} (level l) ≤ 9
  rank-bound or = omega arith
  rank-bound and = omega arith
  rank-bound equality = omega arith
  rank-bound additive = omega arith
  rank-bound multiplicative = omega arith

  pub room-operand : (l : Level) (ts : Tokens) → room {Num = Num} (operand l) ts ≡ length ts
  room-operand or ts = refl
  room-operand and ts = refl
  room-operand equality ts = refl
  room-operand additive ts = refl
  room-operand multiplicative ts = refl

module _ {Num : Type 0} where
  Fits-andthen :
      (n k : ℕ) (o : Parsed Num) (g : Value Num × Tokens → Parsed Num)
      → Fits n o
      → ((v : Value Num) (rest : Tokens) → length rest < n → Fits k (g (v, rest)))
      → Fits k (andthen o g)
  Fits-andthen n k (done (v, rest)) g p q = q v rest p
  Fits-andthen n k (failed e) g p q = tt
  Fits-andthen n k out_of_fuel g p q = elim p [ ]

  Fits-mono : (n k : ℕ) (o : Parsed Num) → n ≤ k → Fits n o → Fits k o
  Fits-mono n k (done (v, rest)) h p = omega arith
  Fits-mono n k (failed e) h p = tt
  Fits-mono n k out_of_fuel h p = p

  module _ (js : Numbers Num) (row : String → Value Num) (run : Method Num → Tokens → Parsed Num)
      (f : ℕ)
      (ih : (m : Method Num) (ts : Tokens)
        → 16 * length ts + rank m < f
        → Fits (room m ts) (run m ts)) where
    operand-Fits :
        (l : Level) (ts : Tokens)
        → 16 * length ts + rank {Num = Num} (level l) ≤ f
        → Fits (length ts) (run (operand l) ts)
    operand-Fits l ts h =
        subst (λ n. Fits n (run (operand l) ts)) (room-operand Num l ts)
          (ih (operand l) ts (omega (arith, rank-operand Num l)))

    loop_body-Fits :
        (l : Level) (v : Value Num) (ts : Tokens)
        → 16 * length ts < f
        → Fits (suc (length ts)) (loop_body js row run l v ts)
    unfolding loop_body
    loop_body-Fits l v [] h = tt
    loop_body-Fits l v (t ∷ ts) h = elim (Option-cases (takes l t)) [
      | inl e ↦ rw (Fits, e) (omega arith)
      | inr (o, e) ↦
          rw (Fits, e)
            (Fits-andthen (length ts) (suc (suc (length ts))) (run (operand l) ts)
              (λ (right, rest). run (loop l (apply_infix js o v right)) rest)
              (operand-Fits l ts (omega (arith, rank-bound Num l)))
              λ right rest b.
                Fits-mono (suc (length rest)) (suc (suc (length ts)))
                  (run (loop l (apply_infix js o v right)) rest) (omega arith)
                  (ih (loop l (apply_infix js o v right)) rest (omega arith)))
    ]

    relate-Fits :
        (v : Value Num) (ts : Tokens)
        → 16 * length ts < f
        → Fits (suc (length ts)) (relate js row run v ts)
    unfolding relate
    relate-Fits v [] h = tt
    relate-Fits v (relation r ∷ ts) h =
        Fits-andthen (length ts) (suc (suc (length ts))) (run (level additive) ts) _
          (ih (level additive) ts (omega arith)) λ right rest b. omega arith
    relate-Fits v (t ∷ ts) h = omega arith

    prefix-Fits :
        (g : Value Num → Value Num) (ts : Tokens)
        → 16 * length ts + 3 < f
        → Fits (suc (length ts)) (andthen (run unary ts) λ (v, rest). done (g v, rest))
    prefix-Fits g ts h =
        Fits-andthen (length ts) (suc (length ts)) (run unary ts) _ (ih unary ts (omega arith))
          λ v rest b. omega arith

    unary_body-Fits :
        (ts : Tokens) → 16 * length ts + 3 ≤ f → Fits (length ts) (unary_body js row run ts)
    unfolding unary_body
    unary_body-Fits [] h = tt
    unary_body-Fits (bang ∷ ts) h = prefix-Fits _ ts (omega arith)
    unary_body-Fits (infix_op minus ∷ ts) h = prefix-Fits _ ts (omega arith)
    unary_body-Fits (t ∷ ts) h = ih primary (t ∷ ts) (omega arith)

    expect_close-Fits :
        (v : Value Num) (rest : Tokens) → Fits (suc (length rest)) (expect_close v rest)
    unfolding expect_close
    expect_close-Fits v [] = tt
    expect_close-Fits v (closing ∷ rest) = omega arith
    expect_close-Fits v (t ∷ rest) = tt

    primary_body-Fits :
        (ts : Tokens) → 16 * length ts + 2 ≤ f → Fits (length ts) (primary_body js row run ts)
    unfolding primary_body
    primary_body-Fits [] h = tt
    primary_body-Fits (opening ∷ ts) h =
        Fits-andthen (length ts) (suc (length ts)) (run (level or) ts) _
          (ih (level or) ts (omega arith))
          λ v rest b.
            Fits-mono (suc (length rest)) (suc (length ts)) (expect_close v rest) (omega arith)
              (expect_close-Fits v rest)
    primary_body-Fits (num s ∷ ts) h = omega arith
    primary_body-Fits (str s ∷ ts) h = omega arith
    primary_body-Fits (ident s ∷ ts) h = omega arith
    primary_body-Fits (t ∷ ts) h = tt

    body-Fits :
        (m : Method Num) (ts : Tokens)
        → 16 * length ts + rank m ≤ f
        → Fits (room m ts) (body js row run m ts)
    unfolding body
    body-Fits (level l) ts h =
        Fits-andthen (length ts) (length ts) (run (operand l) ts) _ (operand-Fits l ts h)
          λ v rest c.
            Fits-mono (suc (length rest)) (length ts) (run (loop l v) rest) (omega arith)
              (ih (loop l v) rest (omega arith))
    body-Fits (loop l v) ts h = loop_body-Fits l v ts (omega arith)
    body-Fits comparison ts h =
        Fits-andthen (length ts) (length ts) (run (level additive) ts) _
          (ih (level additive) ts (omega arith))
          λ v rest c.
            Fits-mono (suc (length rest)) (length ts) (relate js row run v rest) (omega arith)
              (relate-Fits v rest (omega arith))
    body-Fits unary ts h = unary_body-Fits ts h
    body-Fits primary ts h = primary_body-Fits ts h

  call-Fits :
      (js : Numbers Num) (row : String → Value Num) (f : ℕ) (m : Method Num) (ts : Tokens)
      → 16 * length ts + rank m < f
      → Fits (room m ts) (call js row f m ts)
  unfolding call
  call-Fits js row zero m ts h = absurd (omega arith)
  call-Fits js row (suc f) m ts h =
      body-Fits js row (call js row f) f (call-Fits js row f) m ts (omega arith)

  -- A call of enough fuel that returns leaves fewer tokens than its room.
  pub call-shorter :
      (js : Numbers Num) (row : String → Value Num) (f : ℕ) (m : Method Num) (ts : Tokens)
      → 16 * length ts + rank m < f
      → (v : Value Num) (rest : Tokens) → call js row f m ts ≡ done (v, rest)
      → length rest < room m ts
  call-shorter js row f m ts h v rest e = subst (Fits (room m ts)) e (call-Fits js row f m ts h)

  at_end-fuelled : (n : ℕ) (o : Parsed Num) → Fits n o → andthen o at_end ≢ out_of_fuel
  unfolding at_end
  at_end-fuelled n (done (v, [])) p e = ground arith
  at_end-fuelled n (done (v, eof ∷ rest)) p e = ground arith
  at_end-fuelled n (done (v, t ∷ rest)) p e = ground arith
  at_end-fuelled n (failed e) p q = ground arith
  at_end-fuelled n out_of_fuel p e = elim p [ ]

  -- The evaluation of any list of tokens ends: its fuel is enough.
  pub parse_tokens-ends :
      (js : Numbers Num) (row : String → Value Num) (ts : Tokens)
      → parse_tokens js row ts ≢ out_of_fuel
  unfolding parse_tokens fuel_for
  parse_tokens-ends js row ts =
      at_end-fuelled (length ts) (call js row (16 * length ts + 16) (level or) ts)
        (call-Fits js row (16 * length ts + 16) (level or) ts (omega arith))
