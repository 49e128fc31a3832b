-- ===== src/Qasm2/Expression.antt =====
-- frontends/qasm2/expression.py: the evaluator of gate parameters, on the shared cursor.
-- What a call leaves of the tokens is no structural part of them, so each call costs fuel.
pub mod Ends
pub mod Grammar
pub mod Meaning
use text.Mathlib.Text.{◌==◌}
use dev_q.Prelude.{
  ℕ, zero, suc, ◌+◌, ◌*◌, String, Bool, true, false, ◌&&◌, ◌||◌, List, [], ◌∷◌, Option, none, some,
  if◌then◌else◌, length,
}
use dev_q.Qasm2.Outcome.{
  when_found, Outcome, out_of_fuel, Method, give, error_at, lift, or_crash, or_error, value_error,
  division_by_zero, invalid_power, undefined_value, unknown_name, unexpected_in_expression, ◌>>=◌,
  ◌>>◌,
}
use dev_q.Qasm2.Python.{Math, Function, sin, cos, tan, exp, ln, sqrt}
use dev_q.Dict.{lookup}
use dev_q.Qasm2.Tokens.{
  Kind, number, id, symbol, op, Token, Cursor, is_kind, at_op, at_symbol, peek, peek_ahead, next,
  expect_symbol,
}

unfoldable pub function_of : String → Option Function
function_of name =
    if name == "sin"
    then some sin
    else if name == "cos"
    then some cos
    else if name == "tan"
    then some tan
    else if name == "exp"
    then some exp
    else if name == "ln"
    then some ln
    else if name == "sqrt"
    then some sqrt
    else none

module _ {F : Type 0} (m : Math F) (params : List (String × F)) where
  -- `value + rhs if op == "+" else value - rhs`
  unfoldable pub sum_by : String → F → F → F
  sum_by sign value rhs = if sign == "+" then m.add value rhs else m.sub value rhs

  unfoldable pub product_by : String → F → F → Method Cursor F
  product_by sign value rhs =
      if sign == "*"
      then give (m.mul value rhs)
      else if m.is_zero rhs
      then (do tok ← peek; error_at division_by_zero tok.line)
      else give (m.div value rhs)

  unfoldable pub power_of : F → F → Method Cursor F
  power_of base exponent = do
    tok ← peek
    lift (or_error (m.pow base exponent) invalid_power tok.line)

  -- A bare identifier: a bound gate parameter.
  unfoldable pub bound : Token → Method Cursor F
  unfolding lookup
  bound tok =
      when_found (lookup tok.value params) (λ value. next >> give value)
        (error_at (unknown_name tok.value) tok.line)

  -- `name in _FUNCS` before an opening parenthesis.
  abbrev pub applied : String → Token → Option Function
  applied name ahead = if at_symbol "(" ahead then function_of name else none

  unfoldable mutual
    unfolding sum_by product_by power_of bound expect_symbol function_of

    pub expr : ℕ → Method Cursor F
    expr zero c = out_of_fuel
    expr (suc fuel) c = (do value ← term fuel; expr_rest fuel value) c

    pub expr_rest : ℕ → F → Method Cursor F
    expr_rest zero value c = out_of_fuel
    expr_rest (suc fuel) value c =
        let more =
          λ (tok : Token). do next; rhs ← term fuel; expr_rest fuel (sum_by tok.value value rhs)
        in (do tok ← peek; if at_op "+" tok || at_op "-" tok then more tok else give value) c

    pub term : ℕ → Method Cursor F
    term zero c = out_of_fuel
    term (suc fuel) c = (do value ← unary fuel; term_rest fuel value) c

    pub term_rest : ℕ → F → Method Cursor F
    term_rest zero value c = out_of_fuel
    term_rest (suc fuel) value c =
        let more = λ (tok : Token). do
          next
          rhs ← unary fuel
          value' ← product_by tok.value value rhs
          term_rest fuel value'
        in (do tok ← peek; if at_op "*" tok || at_op "/" tok then more tok else give value) c

    pub unary : ℕ → Method Cursor F
    unary zero c = out_of_fuel
    unary (suc fuel) c =
        let negated = do next; value ← unary fuel; give (m.neg value)
        in let plain = power fuel in (do tok ← peek; if at_op "-" tok then negated else plain) c

    pub power : ℕ → Method Cursor F
    power zero c = out_of_fuel
    power (suc fuel) c =
        let raised = λ (base : F). do next; exponent ← unary fuel; power_of base exponent
        in (do base ← atom fuel; tok ← peek; if at_op "^" tok then raised base else give base) c

    pub atom : ℕ → Method Cursor F
    atom zero c = out_of_fuel
    atom (suc fuel) c =
        let number_case =
          λ (tok : Token). do next; lift (or_crash (m.float_of tok.value) value_error)
        in let grouped = do next; value ← expr fuel; expect_symbol ")"; give value
          in let call_of = λ (tok : Token) (f : Function). do
            next
            next
            argument ← expr fuel
            expect_symbol ")"
            lift (or_error (m.call f argument) undefined_value tok.line)
            in let name_case = λ (tok ahead : Token).
              if tok.value == "pi"
              then next >> give m.pi
              else when_found (applied tok.value ahead) (call_of tok) (bound tok) in
              (do
                tok ← peek
                ahead ← peek_ahead
                if is_kind tok.kind number
                    then number_case tok
                    else if at_symbol "(" tok
                    then grouped
                    else if is_kind tok.kind id
                    then name_case tok ahead
                    else error_at (unexpected_in_expression tok.value) tok.line)
                c

  -- Each token takes at most five calls on the way to it, so this fuel is enough.
  unfoldable pub evaluate : Method Cursor F
  unfolding expr
  evaluate c = expr (6 * length c.tokens + 6) c
