-- ===== src/Qasm2/Expression/Meaning.antt =====
-- frontends/qasm2/expression.py: the evaluator against the documented grammar and its meaning.
use text.Mathlib.Text.{◌==◌}
use dev_q.Prelude.{
  ℕ, zero, suc, ◌+◌, ◌*◌, ◌≤◌, String, Bool, true, false, ◌||◌, List, ◌∷◌, Option, none, some, ◌≡◌,
  refl, subst, ◌∙◌, length, arith, if◌then◌else◌, Bool-cases, inl, inr,
}
use dev_q.Qasm2.Outcome.{Outcome, ok}
use dev_q.Qasm2.Python.{Math, Function, sin, cos, tan, exp, ln, sqrt}
use dev_q.Dict.{lookup}
use dev_q.Qasm2.Tokens.{Cursor, Token, id, symbol, op, at_op, at_symbol, first_or, expect_symbol}
use dev_q.Qasm2.Expression.{
  function_of, expr, expr_rest, term, term_rest, unary, power, atom, evaluate, applied, product_by,
  sum_by, power_of, bound,
}
use dev_q.Qasm2.Expression.Ends.{term-Consumed, unary-Consumed, atom-Consumed}
use dev_q.Qasm2.Expression.Grammar.{
  Expr, Terms, Term, Factors, Unary, Power, Atom, sum, no_terms, plus, minus, product, no_factors,
  times, over, negative, positive, plain, raised, literal, pi, apply, group, parameter, name_of,
  token, show_expr, show_terms, show_term, show_factors, show_unary, show_power, show_atom, ◌>>=◌,
  quotient, value_expr, value_terms, value_term, value_factors, value_unary, value_power,
  value_atom, is_reserved, is_function,
}
use dev_q.Qasm2.Ends.{EndsBy, IsNumberFault, Ends-ok}
use dev_q.Qasm2.Ends.Cursor.{Consumed}

-- What follows is no operator that would continue a power, a product or a sum.
module _ (end_line : ℕ) where
  abbrev pub EndsPower : List Token → Type 0
  EndsPower rest = at_op "^" (first_or rest end_line) ≡ false

  abbrev pub EndsProduct : List Token → Type 0
  EndsProduct rest =
      EndsPower rest
      × ((at_op "*" (first_or rest end_line) || at_op "/" (first_or rest end_line)) ≡ false)

  abbrev pub EndsSum : List Token → Type 0
  EndsSum rest =
      EndsProduct rest
      × ((at_op "+" (first_or rest end_line) || at_op "-" (first_or rest end_line)) ≡ false)

>>=-eq-some :
    {A B : Type 0} (o : Option A) (f : A → Option B) {b : B}
    → (o >>= f) ≡ some b
    → (a : A) × (o ≡ some a) × (f a ≡ some b)
>>=-eq-some none f h = cc
>>=-eq-some (some a) f h = (a, refl, h)

module _ {F : Type 0} (m : Math F) (params : List (String × F)) (line end_line : ℕ) where
  abbrev at : List Token → Cursor
  at tokens = record { tokens = tokens; end_line = end_line }

  terms-EndsProduct :
      (ts : Terms) (rest : List Token)
      → EndsSum end_line rest
      → EndsProduct end_line (show_terms line ts rest)
  unfolding show_terms
  terms-EndsProduct no_terms rest h = h.0
  terms-EndsProduct (plus t ts) rest h = (refl, refl)
  terms-EndsProduct (minus t ts) rest h = (refl, refl)

  factors-EndsPower :
      (us : Factors) (rest : List Token)
      → EndsProduct end_line rest
      → EndsPower end_line (show_factors line us rest)
  unfolding show_factors
  factors-EndsPower no_factors rest h = h.0
  factors-EndsPower (times u us) rest h = refl
  factors-EndsPower (over u us) rest h = refl

  no_minus_atom :
      (a : Atom) (rest : List Token) → at_op "-" (first_or (show_atom line a rest) end_line) ≡ false
  unfolding show_atom
  no_minus_atom (literal text) rest = refl
  no_minus_atom pi rest = refl
  no_minus_atom (apply f e) rest = refl
  no_minus_atom (group e) rest = refl
  no_minus_atom (parameter name) rest = refl

  no_minus :
      (p : Power) (rest : List Token)
      → at_op "-" (first_or (show_power line p rest) end_line) ≡ false
  unfolding show_power
  no_minus (plain a) rest = no_minus_atom a rest
  no_minus (raised a u) rest = no_minus_atom a _

  choice_false :
      {A B : Type 0} (test : Bool) (x y : A → B) (s : A)
      → test ≡ false
      → (if test then x else y) s ≡ y s
  choice_false true x y s h = cc
  choice_false false x y s h = refl

  -- What was read is shorter behind it.
  shrinks :
      (n : ℕ) (o : Outcome (F × Cursor)) (v : F) (rest : List Token)
      → EndsBy IsNumberFault (Consumed 1 n) o
      → o ≡ ok (v, at rest)
      → length rest + 1 ≤ n
  shrinks n o v rest h e = Ends-ok (v, at rest) (subst (EndsBy IsNumberFault (Consumed 1 n)) e h)

  divides :
      (x y z : F) (c : Cursor)
      → quotient m params x y ≡ some z
      → product_by m params "/" x y c ≡ ok (z, c)
  unfolding product_by
  divides x y z c h = elim (Bool-cases (m.is_zero y)) [
    | inl vanishes ↦ absurd (cc (rw vanishes at h))
    | inr some_y ↦ rw some_y (cc (rw some_y at h))
  ]

  name_of-Function :
      (f : Function) → ((name_of f == "pi") ≡ false) × (function_of (name_of f) ≡ some f)
  unfolding function_of
  name_of-Function sin = (refl, refl)
  name_of-Function cos = (refl, refl)
  name_of-Function tan = (refl, refl)
  name_of-Function exp = (refl, refl)
  name_of-Function ln = (refl, refl)
  name_of-Function sqrt = (refl, refl)

  parameter-name :
      (name : String) (v : F)
      → (if is_reserved name then none else lookup name params) ≡ some v
      → ((name == "pi") ≡ false) × (function_of name ≡ none) × (lookup name params ≡ some v)
  parameter-name name v h = name_cases (name == "pi") (function_of name) (lookup name params) h
    where
      name_cases :
          (test : Bool) (f : Option Function) (o : Option F)
          → (if test || is_function f then none else o) ≡ some v
          → (test ≡ false) × (f ≡ none) × (o ≡ some v)
      name_cases true f o e = cc
      name_cases false (some f) o e = cc
      name_cases false none o e = (refl, refl, e)

  applied-none :
      (name : String) (ahead : Token) → function_of name ≡ none → applied m params name ahead ≡ none
  applied-none name ahead h = elim (Bool-cases (at_symbol "(" ahead)) [
    | inl t ↦ rw t h
    | inr t ↦ rw t refl
  ]

  mutual
    unfolding expr expr_rest term term_rest unary power atom show_expr show_terms show_term
        show_factors show_unary show_power show_atom value_expr value_terms value_term value_factors
        value_unary value_power value_atom product_by sum_by power_of bound expect_symbol

    read_expr :
        (e : Expr) (rest : List Token) (fuel : ℕ) (v : F)
        → EndsSum end_line rest
        → value_expr m params e ≡ some v
        → 6 * length (show_expr line e rest) + 6 ≤ fuel
        → expr m params fuel (at (show_expr line e rest)) ≡ ok (v, at rest)
    read_expr (sum t ts) rest zero v h d f = absurd (omega arith)
    read_expr (sum t ts) rest (suc fuel) v h d f =
        let (w, dt, ds) = >>=-eq-some (value_term m params t) (λ w. value_terms m params ts w) d in
        let tail = show_terms line ts rest in
        let first = read_term t tail fuel w (terms-EndsProduct ts rest h) dt (omega arith) in
        let less =
          shrinks (length (show_term line t tail)) _ w tail
            (term-Consumed m params fuel (at (show_term line t tail)) (omega arith)) first in
        rw first (read_terms ts rest fuel w v h ds (omega arith))

    read_terms :
        (ts : Terms) (rest : List Token) (fuel : ℕ) (v w : F)
        → EndsSum end_line rest
        → value_terms m params ts v ≡ some w
        → 6 * length (show_terms line ts rest) + 1 ≤ fuel
        → expr_rest m params fuel v (at (show_terms line ts rest)) ≡ ok (w, at rest)
    read_terms no_terms rest zero v w h d f = absurd (omega arith)
    read_terms no_terms rest (suc fuel) v w h d f = choice_false _ _ _ (at rest) h.1 ∙ (cc)
    read_terms (plus t ts) rest zero v w h d f = absurd (omega arith)
    read_terms (plus t ts) rest (suc fuel) v w h d f =
        let (x, dt, ds) =
          >>=-eq-some (value_term m params t) (λ x. value_terms m params ts (m.add v x)) d in
        let tail = show_terms line ts rest in
        let first = read_term t tail fuel x (terms-EndsProduct ts rest h) dt (omega arith) in
        let less =
          shrinks (length (show_term line t tail)) _ x tail
            (term-Consumed m params fuel (at (show_term line t tail)) (omega arith)) first in
        rw first (read_terms ts rest fuel (m.add v x) w h ds (omega arith))
    read_terms (minus t ts) rest zero v w h d f = absurd (omega arith)
    read_terms (minus t ts) rest (suc fuel) v w h d f =
        let (x, dt, ds) =
          >>=-eq-some (value_term m params t) (λ x. value_terms m params ts (m.sub v x)) d in
        let tail = show_terms line ts rest in
        let first = read_term t tail fuel x (terms-EndsProduct ts rest h) dt (omega arith) in
        let less =
          shrinks (length (show_term line t tail)) _ x tail
            (term-Consumed m params fuel (at (show_term line t tail)) (omega arith)) first in
        rw first (read_terms ts rest fuel (m.sub v x) w h ds (omega arith))

    read_term :
        (t : Term) (rest : List Token) (fuel : ℕ) (v : F)
        → EndsProduct end_line rest
        → value_term m params t ≡ some v
        → 6 * length (show_term line t rest) + 4 ≤ fuel
        → term m params fuel (at (show_term line t rest)) ≡ ok (v, at rest)
    read_term (product u us) rest zero v h d f = absurd (omega arith)
    read_term (product u us) rest (suc fuel) v h d f =
        let (w, du, ds) =
          >>=-eq-some (value_unary m params u) (λ w. value_factors m params us w) d in
        let tail = show_factors line us rest in
        let first = read_unary u tail fuel w (factors-EndsPower us rest h) du (omega arith) in
        let less =
          shrinks (length (show_unary line u tail)) _ w tail
            (unary-Consumed m params fuel (at (show_unary line u tail)) (omega arith)) first in
        rw first (read_factors us rest fuel w v h ds (omega arith))

    read_factors :
        (us : Factors) (rest : List Token) (fuel : ℕ) (v w : F)
        → EndsProduct end_line rest
        → value_factors m params us v ≡ some w
        → 6 * length (show_factors line us rest) + 1 ≤ fuel
        → term_rest m params fuel v (at (show_factors line us rest)) ≡ ok (w, at rest)
    read_factors no_factors rest zero v w h d f = absurd (omega arith)
    read_factors no_factors rest (suc fuel) v w h d f = choice_false _ _ _ (at rest) h.1 ∙ (cc)
    read_factors (times u us) rest zero v w h d f = absurd (omega arith)
    read_factors (times u us) rest (suc fuel) v w h d f =
        let (x, du, ds) =
          >>=-eq-some (value_unary m params u) (λ x. value_factors m params us (m.mul v x)) d in
        let tail = show_factors line us rest in
        let first = read_unary u tail fuel x (factors-EndsPower us rest h) du (omega arith) in
        let less =
          shrinks (length (show_unary line u tail)) _ x tail
            (unary-Consumed m params fuel (at (show_unary line u tail)) (omega arith)) first in
        rw first (read_factors us rest fuel (m.mul v x) w h ds (omega arith))
    read_factors (over u us) rest zero v w h d f = absurd (omega arith)
    read_factors (over u us) rest (suc fuel) v w h d f =
        let (x, du, dx) =
          >>=-eq-some (value_unary m params u)
            (λ x. quotient m params v x >>= λ y. value_factors m params us y) d in
        let (y, dq, ds) =
          >>=-eq-some (quotient m params v x) (λ y. value_factors m params us y) dx in
        let tail = show_factors line us rest in
        let first = read_unary u tail fuel x (factors-EndsPower us rest h) du (omega arith) in
        let less =
          shrinks (length (show_unary line u tail)) _ x tail
            (unary-Consumed m params fuel (at (show_unary line u tail)) (omega arith)) first in
        rw first
          (rw (divides v x y (at tail) dq) (read_factors us rest fuel y w h ds (omega arith)))

    read_unary :
        (u : Unary) (rest : List Token) (fuel : ℕ) (v : F)
        → EndsPower end_line rest
        → value_unary m params u ≡ some v
        → 6 * length (show_unary line u rest) + 3 ≤ fuel
        → unary m params fuel (at (show_unary line u rest)) ≡ ok (v, at rest)
    read_unary (negative u) rest zero v h d f = absurd (omega arith)
    read_unary (negative u) rest (suc fuel) v h d f =
        let (w, du, e) = >>=-eq-some (value_unary m params u) (λ w. some (m.neg w)) d in
        rw (read_unary u rest fuel w h du (omega arith)) (cc)
    read_unary (positive p) rest zero v h d f = absurd (omega arith)
    read_unary (positive p) rest (suc fuel) v h d f =
        choice_false _ _ _ (at (show_power line p rest)) (no_minus p rest)
        ∙ read_power p rest fuel v h d (omega arith)

    read_power :
        (p : Power) (rest : List Token) (fuel : ℕ) (v : F)
        → EndsPower end_line rest
        → value_power m params p ≡ some v
        → 6 * length (show_power line p rest) + 2 ≤ fuel
        → power m params fuel (at (show_power line p rest)) ≡ ok (v, at rest)
    read_power (plain a) rest zero v h d f = absurd (omega arith)
    read_power (plain a) rest (suc fuel) v h d f =
        rw (read_atom a rest fuel v d (omega arith)) (choice_false _ _ _ (at rest) h)
    read_power (raised a u) rest zero v h d f = absurd (omega arith)
    read_power (raised a u) rest (suc fuel) v h d f =
        let (x, da, dx) =
          >>=-eq-some (value_atom m params a) (λ x. value_unary m params u >>= λ y. m.pow x y) d in
        let (y, du, dy) = >>=-eq-some (value_unary m params u) (λ y. m.pow x y) dx in
        let tail = token line op "^" ∷ show_unary line u rest in
        let first = read_atom a tail fuel x da (omega arith) in
        let less =
          shrinks (length (show_atom line a tail)) _ x tail
            (atom-Consumed m params fuel (at (show_atom line a tail)) (omega arith)) first in
        rw first (rw (read_unary u rest fuel y h du (omega arith)) (rw dy refl))

    read_atom :
        (a : Atom) (rest : List Token) (fuel : ℕ) (v : F)
        → value_atom m params a ≡ some v
        → 6 * length (show_atom line a rest) + 1 ≤ fuel
        → atom m params fuel (at (show_atom line a rest)) ≡ ok (v, at rest)
    read_atom a rest zero v d f = absurd (omega arith)
    read_atom (literal text) rest (suc fuel) v d f = rw d refl
    read_atom pi rest (suc fuel) v d f = cc
    read_atom (apply g e) rest (suc fuel) v d f =
        let (x, de, dx) = >>=-eq-some (value_expr m params e) (λ x. m.call g x) d in
        let inner =
          read_expr e (token line symbol ")" ∷ rest) fuel x ((refl, refl), refl) de (omega arith) in
        choice_false _ _ _ (at (show_atom line (apply g e) rest)) (name_of-Function g).0
        ∙ rw (name_of-Function g).1 (rw inner (rw dx refl))
    read_atom (group e) rest (suc fuel) v d f =
        rw (read_expr e (token line symbol ")" ∷ rest) fuel v ((refl, refl), refl) d (omega arith))
          refl
    read_atom (parameter name) rest (suc fuel) v d f =
        let (not_pi, no_function, found) = parameter-name name v d in
        choice_false _ _ _ (at (token line id name ∷ rest)) not_pi
        ∙ rw (applied-none name (first_or rest end_line) no_function) (rw found refl)

  -- On the tokens of an expression of the documented grammar with a defined meaning, followed by
  -- anything that is no operator, the evaluator returns the meaning and stops behind the expression.
  -- The meaning takes products before sums, both from the left, the power with its exponent from the
  -- right, and a minus sign after the power.
  pub evaluate-value :
      (e : Expr) (rest : List Token) (v : F)
      → EndsSum end_line rest
      → value_expr m params e ≡ some v
      → evaluate m params (record { tokens = show_expr line e rest; end_line = end_line })
        ≡ ok (v, record { tokens = rest; end_line = end_line })
  unfolding evaluate
  evaluate-value e rest v h d =
      read_expr e rest (6 * length (show_expr line e rest) + 6) v h d (omega arith)
