-- ===== src/Qasm2/Parser/Statements.antt =====
-- frontends/qasm2/parser.py: the header, the statements, and `parse`.
use text.Mathlib.Text.{◌==◌}
use dev_q.Prelude as P
use dev_q.Prelude.{
  ℕ, zero, suc, ◌+◌, ◌*◌, String, Bool, true, false, not, ◌&&◌, ◌||◌, List, [], ◌∷◌, Option, none,
  some, if◌then◌else◌, length, ltb, leb, drop, take,
}
use dev_q.Circuit.{Circuit, Instruction, add_measure, add_reset, add_conditional, add_creg}
use dev_q.Qasm2.Outcome.{
  when_found, Outcome, Method, ok, qasm_error, out_of_fuel, give, error_at, lift, proceed, or_crash,
  crash, overflow_error, attribute_error, version_expected, other_version, unexpected_at_start,
  opaque_gate, no_positive_size, already_declared, unknown_creg, measure_sizes, no_qreg, ◌>>=◌,
  ◌>>◌,
}
use dev_q.Qasm2.Python.{Math, Classes}
use dev_q.Dict.{lookup, has, insert}
use dev_q.Qasm2.Tokens.{
  Token, Cursor, number, id, string, eof, is_kind, peek, next, expect_symbol, expect_kind,
}
use dev_q.Qasm2.Tokenizer.{starts, tokenize}
use dev_q.Qasm2.Parser.{
  Parser, Registers, new_parser, on_cursor, self, ensure_circuit, change_circuit, parse_qubit_arg,
  parse_creg_arg, int_of_text, span,
}
use dev_q.Qasm2.Parser.Definitions.{parse_gate_def, parse_barrier}
use dev_q.Qasm2.Parser.Calls.{parse_gate_call}

-- An absent header is tolerated.
unfoldable pub parse_header : Method Cursor (Unit {0})
unfolding expect_symbol
parse_header = do
  tok ← peek
  let version = do
    next
    ver ← peek
    if not (is_kind ver.kind number)
        then error_at version_expected ver.line
        else if not (starts b'2' ver.value)
        then error_at (other_version ver.value) ver.line
        else (do next; expect_symbol ";"; give tt)
  if is_kind tok.kind id && (tok.value == "OPENQASM") then version else give tt

unfoldable pub parse_include : Method Cursor (Unit {0})
unfolding expect_kind expect_symbol
parse_include = do next; expect_kind string; expect_symbol ";"; give tt

-- `kind == "qreg"`
pub data RegisterKind : Type 0 where
  qreg creg : RegisterKind

module _ {F : Type 0} where
  unfoldable pub declare_qreg : String → ℕ → ℕ → Method (Parser F) (Unit {0})
  unfolding has insert
  declare_qreg name size line p =
      if has name p.qregs
      then error_at (already_declared name) line p
      else ok (
        tt,
        record p {
          qregs = insert name (p.num_qubits, size) p.qregs;
          num_qubits = p.num_qubits + size;
        },
      )

  unfoldable pub declare_creg : String → ℕ → ℕ → Method (Parser F) (Unit {0})
  unfolding has insert
  declare_creg name size line p =
      if has name p.cregs
      then error_at (already_declared name) line p
      else ok (
        tt,
        record p {
          cregs = insert name (p.num_clbits, size) p.cregs;
          num_clbits = p.num_clbits + size;
        },
      )

  unfoldable pub declare : RegisterKind → String → ℕ → ℕ → Method (Parser F) (Unit {0})
  unfolding declare_qreg declare_creg
  declare kind name size line =
      if P.◌==◌ size 0
      then error_at (no_positive_size name) line
      else elim kind [ qreg ↦ declare_qreg name size line | creg ↦ declare_creg name size line ]

  -- `for q, cl in zip(qubits, clbits)`
  unfoldable pub emit_measures : List ℕ → List ℕ → Method (Parser F) (Unit {0})
  unfolding change_circuit add_measure
  emit_measures [] clbits = give tt
  emit_measures (q ∷ qubits) [] = give tt
  emit_measures (q ∷ qubits) (cl ∷ clbits) = do
    change_circuit (λ circuit. add_measure circuit q cl)
    emit_measures qubits clbits

  unfoldable pub emit_resets : List ℕ → Method (Parser F) (Unit {0})
  unfolding change_circuit add_reset
  emit_resets [] = give tt
  emit_resets (q ∷ qubits) = do change_circuit (λ circuit. add_reset circuit q); emit_resets qubits

  unfoldable pub emit_conditionals :
      List ℕ → ℕ → List (Instruction F) → Method (Parser F) (Unit {0})
  unfolding change_circuit add_conditional
  emit_conditionals clbits value [] = give tt
  emit_conditionals clbits value (op ∷ ops) = do
    change_circuit (λ circuit. add_conditional circuit clbits value op)
    emit_conditionals clbits value ops

  -- `self.circuit.instructions`
  abbrev pub instructions_of : Method (Parser F) (List (Instruction F))
  instructions_of p =
      proceed (or_crash p.circuit attribute_error) λ circuit. ok (circuit.instructions, p)

  -- The operations behind `mark`, wrapped.
  unfoldable pub rewrap : List ℕ → ℕ → ℕ → Method (Parser F) (Unit {0})
  unfolding emit_conditionals change_circuit
  rewrap clbits value mark = do
    ops ← instructions_of
    change_circuit (λ circuit. record circuit { instructions = take mark ops })
    emit_conditionals clbits value (drop mark ops)

  unfoldable pub add_cregs : Registers → Circuit F → Circuit F
  unfolding add_creg
  add_cregs [] circuit = circuit
  add_cregs ((name, (base, size)) ∷ rest) circuit = add_cregs rest (add_creg circuit name base size)

module _ {F : Type 0} (m : Math F) where
  unfoldable pub parse_reg : RegisterKind → Method (Parser F) (Unit {0})
  unfolding declare int_of_text expect_kind expect_symbol
  parse_reg kind = do
    on_cursor next
    name_tok ← on_cursor (expect_kind id)
    on_cursor (expect_symbol "[")
    size_tok ← on_cursor (expect_kind number)
    size ← lift (int_of_text m size_tok.value)
    on_cursor (expect_symbol "]")
    on_cursor (expect_symbol ";")
    declare kind name_tok.value size size_tok.line

  unfoldable pub parse_measure : Method (Parser F) (Unit {0})
  unfolding parse_qubit_arg parse_creg_arg ensure_circuit emit_measures expect_symbol
  parse_measure = do
    on_cursor next
    qubits ← parse_qubit_arg m
    on_cursor (expect_symbol "->")
    clbits ← parse_creg_arg m
    on_cursor (expect_symbol ";")
    ensure_circuit
    behind ← on_cursor peek
    if P.◌==◌ (length qubits) (length clbits)
        then emit_measures qubits clbits
        else error_at measure_sizes behind.line

  unfoldable pub parse_reset : Method (Parser F) (Unit {0})
  unfolding parse_qubit_arg ensure_circuit emit_resets expect_symbol
  parse_reset = do
    on_cursor next
    qubits ← parse_qubit_arg m
    on_cursor (expect_symbol ";")
    ensure_circuit
    emit_resets qubits

  -- `if (creg == N)`: the register's bits and the value.
  unfoldable pub parse_condition : Method (Parser F) (List ℕ × ℕ)
  unfolding lookup span int_of_text expect_kind expect_symbol
  parse_condition = do
    if_tok ← on_cursor next
    on_cursor (expect_symbol "(")
    creg_tok ← on_cursor (expect_kind id)
    on_cursor (expect_symbol "==")
    value_tok ← on_cursor (expect_kind number)
    value ← lift (int_of_text m value_tok.value)
    on_cursor (expect_symbol ")")
    p ← self
    when_found (lookup creg_tok.value p.cregs)
        (λ (base, size).
          if m.is_length size then give (span base size, value) else lift (crash overflow_error))
        (error_at (unknown_creg creg_tok.value) if_tok.line)

  -- The guarded statement is read by `statement`.
  unfoldable pub parse_if : Method (Parser F) (Unit {0}) → Method (Parser F) (Unit {0})
  unfolding parse_condition ensure_circuit rewrap
  parse_if statement = do
    (clbits, value) ← parse_condition
    ensure_circuit
    before ← instructions_of
    statement
    rewrap clbits value (length before)

  -- The keyword's case, `if` aside.
  unfoldable pub parse_keyword : Token → Method (Parser F) (Unit {0})
  unfolding parse_include parse_reg parse_gate_def parse_measure parse_reset parse_barrier
      parse_gate_call
  parse_keyword tok =
      if tok.value == "include"
      then on_cursor parse_include
      else if tok.value == "qreg"
      then parse_reg qreg
      else if tok.value == "creg"
      then parse_reg creg
      else if tok.value == "gate"
      then parse_gate_def
      else if tok.value == "opaque"
      then error_at opaque_gate tok.line
      else if tok.value == "measure"
      then parse_measure
      else if tok.value == "reset"
      then parse_reset
      else if tok.value == "barrier"
      then on_cursor parse_barrier >> give tt
      else parse_gate_call m

  unfoldable pub parse_statement : ℕ → Method (Parser F) (Unit {0})
  unfolding parse_if parse_keyword
  parse_statement zero p = out_of_fuel
  parse_statement (suc fuel) p =
      let guarded = parse_if (parse_statement fuel) in
      (do
        tok ← on_cursor peek
        if not (is_kind tok.kind id)
            then error_at (unexpected_at_start tok.value) tok.line
            else if tok.value == "if"
            then guarded
            else parse_keyword tok)
        p

  -- `while not c.at_end()`
  unfoldable pub parse_statements : ℕ → Method (Parser F) (Unit {0})
  unfolding parse_statement
  parse_statements zero p = out_of_fuel
  parse_statements (suc fuel) p =
      let rest = parse_statement (suc (length p.cursor.tokens)) >> parse_statements fuel in
      (do tok ← on_cursor peek; if is_kind tok.kind eof then give tt else rest) p

  -- `_Parser(tokens).parse()`; each statement takes a token, so the fuel is enough.
  unfoldable pub run_parser : Cursor → Outcome (Circuit F)
  unfolding new_parser parse_header parse_statements ensure_circuit add_cregs
  run_parser cursor =
      proceed
        ((do
          on_cursor parse_header
          p ← self
          parse_statements (suc (length p.cursor.tokens))
          ensure_circuit)
          (new_parser cursor))
        λ (_, q).
          proceed (or_crash q.circuit attribute_error) λ circuit. ok (add_cregs q.cregs circuit)

  unfoldable pub with_qubits : Circuit F → Outcome (Circuit F)
  with_qubits circuit = if P.◌==◌ circuit.num_qubits 0 then qasm_error no_qreg none else ok circuit

  unfoldable pub parse : Classes → String → Outcome (Circuit F)
  unfolding run_parser with_qubits tokenize
  parse u source_text =
      proceed (tokenize u source_text)
        λ cursor. proceed (run_parser cursor) λ circuit. with_qubits circuit
