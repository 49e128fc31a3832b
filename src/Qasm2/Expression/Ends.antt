-- ===== src/Qasm2/Expression/Ends.antt =====
-- frontends/qasm2/expression.py: the end of an evaluation, with the tokens that each call takes and
-- what it may raise.
use text.Mathlib.Text.{◌==◌}
use dev_q.Prelude.{ℕ, zero, suc, ◌+◌, ◌*◌, ◌≤◌, String, true, ◌||◌, List, ◌≡◌, refl, length, arith}
use dev_q.Qasm2.Outcome.{Outcome, ok, Method, proceed, value_error, invalid_power}
use dev_q.Qasm2.Python.{Math}
use dev_q.Dict.{lookup}
use dev_q.Qasm2.Tokens.{
  number, id, Cursor, is_kind, at_op, at_symbol, first_or, rest_of, expect_symbol,
}
use dev_q.Qasm2.Expression.{
  expr, expr_rest, term, term_rest, unary, power, atom, evaluate, product_by, power_of, bound,
  applied,
}
use dev_q.Qasm2.Ends.{
  EndsBy, IsNumberFault, unreadable, Ends-when_found, returned, refused, Ends-choice, Ends-proceed,
  Ends-or_error, Ends-or_crash,
}
use dev_q.Qasm2.Ends.Cursor.{
  left, Consumed, Consumed-then, Consumed-weaken, expect_symbol-Consumed, rest_of_either_op,
  rest_of_op, rest_of_symbol, rest_of_kind, rest-le,
}

module _ {F : Type 0} (m : Math F) (params : List (String × F)) where
  product_by-Consumed :
      (sign : String) (value rhs : F) (c : Cursor)
      → EndsBy IsNumberFault (Consumed 0 (left c)) (product_by m params sign value rhs c)
  unfolding product_by
  product_by-Consumed sign value rhs c =
      Ends-choice (sign == "*") _ _ c (λ h. returned _ (omega arith))
        (λ h. Ends-choice (m.is_zero rhs) _ _ c (λ z. refused _ _) (λ z. returned _ (omega arith)))

  power_of-Consumed :
      (base exponent : F) (c : Cursor)
      → EndsBy IsNumberFault (Consumed 0 (left c)) (power_of m params base exponent c)
  unfolding power_of
  power_of-Consumed base exponent c =
      Ends-proceed _ _ _ (Ends-or_error (m.pow base exponent) invalid_power _)
        λ value q. returned _ (omega arith)

  bound-Consumed :
      (c : Cursor)
      → is_kind (first_or c.tokens c.end_line).kind id ≡ true
      → EndsBy IsNumberFault (Consumed 1 (left c)) (bound m params (first_or c.tokens c.end_line) c)
  unfolding bound
  bound-Consumed c h =
      Ends-when_found (lookup (first_or c.tokens c.end_line).value params) _ _ c
        (λ value e. returned _ (rest_of_kind c.tokens c.end_line id refl h)) (λ e. refused _ _)

  -- `expr ')'`, and what is made of the value.
  enclosed-Consumed :
      (o : Outcome (F × Cursor)) (final : F → Method Cursor F) (n : ℕ)
      → EndsBy IsNumberFault (Consumed 1 n) o
      → ((value : F) (s : Cursor) → EndsBy IsNumberFault (Consumed 0 (left s)) (final value s))
      → EndsBy IsNumberFault
          (Consumed 0 n)
          (proceed o λ r. proceed (expect_symbol ")" r.1) λ r'. final r.0 r'.1)
  enclosed-Consumed o final n h k =
      Consumed-then o 0 1 0 n n _ h
        (λ r q.
          Consumed-then _ 0 1 0 (left r.1) (left r.1) _ (expect_symbol-Consumed ")" r.1)
            (λ r' q'. k r.0 r'.1) (omega arith))
        (omega arith)

  mutual
    unfolding expr expr_rest term term_rest unary power atom

    pub expr-Consumed :
        (fuel : ℕ) (c : Cursor)
        → 6 * left c + 6 ≤ fuel
        → EndsBy IsNumberFault (Consumed 1 (left c)) (expr m params fuel c)
    expr-Consumed zero c h = absurd (omega arith)
    expr-Consumed (suc fuel) c h =
        Consumed-then _ 0 1 1 (left c) (left c) _ (term-Consumed fuel c (omega arith))
          (λ r q. expr_rest-Consumed fuel r.0 r.1 (omega arith)) (omega arith)

    pub expr_rest-Consumed :
        (fuel : ℕ) (value : F) (c : Cursor)
        → 6 * left c + 1 ≤ fuel
        → EndsBy IsNumberFault (Consumed 0 (left c)) (expr_rest m params fuel value c)
    expr_rest-Consumed zero value c h = absurd (omega arith)
    expr_rest-Consumed (suc fuel) value c h =
        Ends-choice
          (at_op "+" (first_or c.tokens c.end_line) || at_op "-" (first_or c.tokens c.end_line)) _ _
          c
          (λ t.
            let less = rest_of_either_op "+" "-" c.tokens c.end_line t in
            Consumed-then _ 0 1 0 (left c) (length (rest_of c.tokens)) _
              (term-Consumed fuel (record c { tokens = rest_of c.tokens }) (omega arith))
              (λ r q. expr_rest-Consumed fuel _ r.1 (omega arith)) (omega arith))
          (λ t. returned _ (omega arith))

    pub term-Consumed :
        (fuel : ℕ) (c : Cursor)
        → 6 * left c + 4 ≤ fuel
        → EndsBy IsNumberFault (Consumed 1 (left c)) (term m params fuel c)
    term-Consumed zero c h = absurd (omega arith)
    term-Consumed (suc fuel) c h =
        Consumed-then _ 0 1 1 (left c) (left c) _ (unary-Consumed fuel c (omega arith))
          (λ r q. term_rest-Consumed fuel r.0 r.1 (omega arith)) (omega arith)

    pub term_rest-Consumed :
        (fuel : ℕ) (value : F) (c : Cursor)
        → 6 * left c + 1 ≤ fuel
        → EndsBy IsNumberFault (Consumed 0 (left c)) (term_rest m params fuel value c)
    term_rest-Consumed zero value c h = absurd (omega arith)
    term_rest-Consumed (suc fuel) value c h =
        Ends-choice
          (at_op "*" (first_or c.tokens c.end_line) || at_op "/" (first_or c.tokens c.end_line)) _ _
          c
          (λ t.
            let less = rest_of_either_op "*" "/" c.tokens c.end_line t in
            Consumed-then _ 0 1 0 (left c) (length (rest_of c.tokens)) _
              (unary-Consumed fuel (record c { tokens = rest_of c.tokens }) (omega arith))
              (λ r q.
                Consumed-then _ 0 0 0 (left r.1) (left r.1) _ (product_by-Consumed _ value r.0 r.1)
                  (λ r' q'. term_rest-Consumed fuel r'.0 r'.1 (omega arith)) (omega arith))
              (omega arith))
          (λ t. returned _ (omega arith))

    pub unary-Consumed :
        (fuel : ℕ) (c : Cursor)
        → 6 * left c + 3 ≤ fuel
        → EndsBy IsNumberFault (Consumed 1 (left c)) (unary m params fuel c)
    unary-Consumed zero c h = absurd (omega arith)
    unary-Consumed (suc fuel) c h =
        Ends-choice (at_op "-" (first_or c.tokens c.end_line)) _ _ c
          (λ t.
            let less = rest_of_op "-" c.tokens c.end_line t in
            Consumed-then _ 0 1 1 (left c) (length (rest_of c.tokens)) _
              (unary-Consumed fuel (record c { tokens = rest_of c.tokens }) (omega arith))
              (λ r q. returned _ (omega arith)) (omega arith))
          (λ t. power-Consumed fuel c (omega arith))

    pub power-Consumed :
        (fuel : ℕ) (c : Cursor)
        → 6 * left c + 2 ≤ fuel
        → EndsBy IsNumberFault (Consumed 1 (left c)) (power m params fuel c)
    power-Consumed zero c h = absurd (omega arith)
    power-Consumed (suc fuel) c h =
        Consumed-then _ 0 1 1 (left c) (left c) _ (atom-Consumed fuel c (omega arith))
          (λ r q.
            Ends-choice (at_op "^" (first_or r.1.tokens r.1.end_line)) _ _ r.1
              (λ t.
                let less = rest_of_op "^" r.1.tokens r.1.end_line t in
                Consumed-then _ 0 1 0 (left r.1) (length (rest_of r.1.tokens)) _
                  (unary-Consumed fuel (record r.1 { tokens = rest_of r.1.tokens }) (omega arith))
                  (λ r' q'. power_of-Consumed r.0 r'.0 r'.1) (omega arith))
              (λ t. returned _ (omega arith)))
          (omega arith)

    pub atom-Consumed :
        (fuel : ℕ) (c : Cursor)
        → 6 * left c + 1 ≤ fuel
        → EndsBy IsNumberFault (Consumed 1 (left c)) (atom m params fuel c)
    atom-Consumed zero c h = absurd (omega arith)
    atom-Consumed (suc fuel) c h =
        Ends-choice (is_kind (first_or c.tokens c.end_line).kind number) _ _ c
          (λ t.
            let less = rest_of_kind c.tokens c.end_line number refl t in
            Ends-proceed _ _ _
              (Ends-or_crash (m.float_of (first_or c.tokens c.end_line).value) value_error
                unreadable)
              (λ value q. returned _ (omega arith)))
          λ not_number.
            Ends-choice (at_symbol "(" (first_or c.tokens c.end_line)) _ _ c
              (λ t.
                let less = rest_of_symbol "(" c.tokens c.end_line t in
                Consumed-weaken _ 0 1 (left c) (length (rest_of c.tokens))
                  (enclosed-Consumed _ (λ value s. ok (value, s)) (length (rest_of c.tokens))
                    (expr-Consumed fuel (record c { tokens = rest_of c.tokens }) (omega arith))
                    (λ value s. returned _ (omega arith)))
                  (omega arith))
              λ no_group.
                Ends-choice (is_kind (first_or c.tokens c.end_line).kind id) _ _ c
                  (λ t.
                    let less = rest_of_kind c.tokens c.end_line id refl t in
                    let least = rest-le (rest_of c.tokens) in
                    Ends-choice ((first_or c.tokens c.end_line).value == "pi") _ _ c
                      (λ p. returned _ (omega arith))
                      λ no_pi.
                        Ends-when_found
                          (applied m params (first_or c.tokens c.end_line).value
                            (first_or (rest_of c.tokens) c.end_line))
                          _ _ c
                          (λ f e.
                            Consumed-weaken _ 0 1 (left c) (length (rest_of (rest_of c.tokens)))
                              (enclosed-Consumed _ _ (length (rest_of (rest_of c.tokens)))
                                (expr-Consumed fuel
                                  (record c { tokens = rest_of (rest_of c.tokens) }) (omega arith))
                                (λ value s.
                                  Ends-proceed _ _ _ (Ends-or_error (m.call f value) _ _)
                                    (λ value' q. returned _ (omega arith))))
                              (omega arith))
                          (λ e. bound-Consumed c t))
                  (λ t. refused _ _)

  -- Evaluating a parameter expression ends: its fuel never runs out, a value that is returned took
  -- a token at least, and an exception other than a QASMError is the ValueError of float().
  pub evaluate-Consumed :
      (c : Cursor) → EndsBy IsNumberFault (Consumed 1 (left c)) (evaluate m params c)
  unfolding evaluate
  evaluate-Consumed c = expr-Consumed _ c (omega arith)
