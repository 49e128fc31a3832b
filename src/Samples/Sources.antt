-- ===== src/Samples/Sources.antt =====
-- Small OpenQASM sources. Angles are natural numbers, and the characters are ASCII.
use Prim.Native.Char.{Char, code}
use dev_q.Prelude as P
use dev_q.Prelude.{
  ℕ, zero, suc, ◌+◌, ◌-◌, ◌*◌, ◌≡◌, refl, String, Bool, true, false, ◌&&◌, ◌||◌, List, [], ◌∷◌,
  Option, none, some, if◌then◌else◌, leb, ◌≢◌, ◌<◌, length, arith,
}
use Prim.Native.Nat.{◌/◌, ◌^◌}
use dev_q.Circuit.{Circuit, new_circuit}
use dev_q.Samples.{bell}
use dev_q.Qasm2.Outcome.{Outcome, ok, out_of_fuel, overflow_error}
use dev_q.Qasm2.Python.{Math, Classes, IsPython}
use dev_q.Qasm2.Tokens.{Cursor, number, op, id}
use dev_q.Qasm2.Tokenizer.{tokenize}
use dev_q.Qasm2.Ends.{EndsBy, IsNumberFault, IsLiteralFault}
use dev_q.Qasm2.Ends.Cursor.{Consumed}
use dev_q.Qasm2.Expression.{evaluate}
use dev_q.Qasm2.Expression.Grammar.{
  Expr, sum, product, positive, plain, raised, literal, pi, times, no_factors, minus, no_terms,
  show_expr, value_expr,
}
use dev_q.Qasm2.Expression.Meaning.{evaluate-value}
use dev_q.Qasm2.Expression.Ends.{evaluate-Consumed}
use dev_q.Qasm2.Parser.{Parser, new_parser}
use dev_q.Qasm2.Parser.Resolved.{IsResolved}
use dev_q.Qasm2.Parser.Resolved.Whole.{HasDeclaredBits}
use dev_q.Qasm2.Sound.{
  parse-ne-out_of_fuel, parse-IsLiteralFault, parse-HasDeclaredBits, parse_statement-IsResolved,
}
use dev_q.Qasm2.Parser.Statements.{parse, parse_statement}

abbrev in_range : ℕ → ℕ → Char → Bool
in_range low high c = leb low (code c) && leb (code c) high

instance abbrev pub ascii : Classes
ascii = record {
  is_space = λ c. P.◌==◌ (code c) 32;
  is_digit = in_range 48 57;
  is_alpha = λ c. in_range 97 122 c || in_range 65 90 c;
  is_alnum = λ c. in_range 48 57 c || in_range 97 122 c || in_range 65 90 c;
}

abbrev pub digits_from : ℕ → String → Option ℕ
digits_from value String.[] = some value
digits_from value (String.◌∷◌ c text) =
    let more = digits_from (10 * value + (code c - 48)) text in
    if in_range 48 57 c then more else none

-- Whole numbers below 1000; `2.0` and the like are no numbers here.
abbrev pub whole_math : Math ℕ
whole_math = record {
  float_of = digits_from 0;
  int_of = λ n. if leb n 1000 then some n else none;
  is_length = λ n. leb n 500;
  pi = 3;
  add = λ x y. x + y;
  sub = λ x y. x - y;
  mul = λ x y. x * y;
  div = λ x y. x / y;
  neg = λ x. 0 - x;
  is_zero = λ x. P.◌==◌ x 0;
  pow = λ x y. some (x ^ y);
  call = λ f x. some x;
}

abbrev pub two_registers : String
two_registers =
    "OPENQASM 2.0; qreg a[1]; qreg b[2]; creg c[2]; gate twist(t) p, q { rx(t*2 + 1) q; cx p,q; } // layout\ntwist(pi) a[0], b; measure b -> c; if (c == 2) h b;"

abbrev pub run : String → Outcome (Circuit ℕ)
run = parse whole_math ascii

ascii-IsPython : IsPython ascii
ascii-IsPython = record { alnum = λ c h. ground arith }

abbrev outcome : Outcome (Circuit ℕ)
unfolding parse
outcome = run two_registers

-- A size that int() refuses.
abbrev too_large : String
too_large = "qreg a[99999];"

abbrev circuit_or : Circuit ℕ → Outcome (Circuit ℕ) → Circuit ℕ
circuit_or default (ok c) = c
circuit_or default _ = default

abbrev read_circuit : Circuit ℕ
unfolding parse
read_circuit = circuit_or bell (run two_registers)

two_registers_size : read_circuit.num_qubits ≡ 3
unfolding parse new_circuit
two_registers_size = refl

parse-ne-out_of_fuel_example : run two_registers ≢ out_of_fuel
parse-ne-out_of_fuel_example = parse-ne-out_of_fuel whole_math ascii ascii-IsPython two_registers

parse-IsLiteralFault_example : IsLiteralFault overflow_error
unfolding parse
parse-IsLiteralFault_example =
    parse-IsLiteralFault whole_math ascii ascii-IsPython too_large overflow_error refl

parse-HasDeclaredBits_example : HasDeclaredBits read_circuit × (read_circuit.num_qubits ≢ 0)
unfolding parse new_circuit
parse-HasDeclaredBits_example =
    parse-HasDeclaredBits whole_math ascii ascii-IsPython two_registers read_circuit refl

-- `qreg a[2];` read by a fresh parser.
abbrev declaration : Cursor
unfolding tokenize
declaration = elim (tokenize ascii "qreg a[2];") [
  | ok c ↦ c
  | _ ↦ record { tokens = []; end_line = 0 }
]

abbrev fresh : Parser ℕ
unfolding new_parser tokenize
fresh = new_parser declaration

abbrev declared : Parser ℕ
unfolding new_parser tokenize parse_statement
declared = elim (parse_statement whole_math (suc (length fresh.cursor.tokens)) fresh) [
  | ok (_, q) ↦ q
  | _ ↦ fresh
]

parse_statement-IsResolved_example :
    IsResolved false declared × (length declared.cursor.tokens < length fresh.cursor.tokens)
unfolding new_parser tokenize parse_statement
parse_statement-IsResolved_example =
    parse_statement-IsResolved whole_math false fresh declared
      (record { qregs_out = refl; cregs_out = refl; circuit_ready = refl }) refl

-- `2 * pi`
abbrev twice_pi : Cursor
twice_pi = record {
  tokens =
      record { kind = number; value = "2"; line = 1 }
      ∷ record { kind = op; value = "*"; line = 1 }
      ∷ record { kind = id; value = "pi"; line = 1 }
      ∷ [];
  end_line = 1;
}

evaluate-Consumed_example : EndsBy IsNumberFault (Consumed 1 3) (evaluate whole_math [] twice_pi)
evaluate-Consumed_example = evaluate-Consumed whole_math [] twice_pi

-- `2 * pi ^ 2 - 1`
abbrev area : Expr
area =
    sum
      (product (positive (plain (literal "2")))
        (times (positive (raised pi (positive (plain (literal "2"))))) no_factors))
      (minus (product (positive (plain (literal "1"))) no_factors) no_terms)

evaluate-value_example :
    evaluate whole_math [] (record { tokens = show_expr 1 area []; end_line = 1 })
    ≡ ok (17, record { tokens = []; end_line = 1 })
unfolding value_expr
evaluate-value_example = evaluate-value whole_math [] 1 1 area [] 17 ((refl, refl), refl) refl
