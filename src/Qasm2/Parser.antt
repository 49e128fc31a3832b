-- ===== src/Qasm2/Parser.antt =====
-- frontends/qasm2/parser.py: the parser's object, and the registers that it resolves names against.
pub mod Definitions
pub mod Inline
pub mod Calls
pub mod Statements
pub mod Layout
pub mod Resolved
use Prim.Native.String as NativeString
use text.Mathlib.Text.{◌==◌}
use dev_q.Prelude.{
  ℕ, zero, suc, ◌+◌, ◌*◌, String, Bool, true, false, ◌&&◌, ◌||◌, List, [], ◌∷◌, ◌++◌, Option, none,
  some, if◌then◌else◌, length, ltb,
}
use dev_q.Circuit.{Circuit, new_circuit}
use dev_q.Qasm2.Outcome.{
  when_found, Outcome, Method, give, error_at, lift, proceed, or_crash, ok, value_error,
  overflow_error, attribute_error, unknown_qreg, unknown_creg, out_of_range, ◌>>=◌, ◌>>◌,
}
use dev_q.Qasm2.Python.{Math}
use dev_q.Dict.{lookup}
use dev_q.Qasm2.Tokens.{
  Token, Cursor, number, id, peek, next, at_symbol, expect_symbol, expect_kind,
}

-- `_GateDef`: the captured body is a stream of its own, closed by its EOF.
pub record GateDef : Type 0 where
  pub params : List String
  pub qubits : List String
  pub body : Cursor

-- `name -> (base_index, size)`
abbrev pub Registers : Type 0
Registers = List (String × (ℕ × ℕ))

pub record Parser (F : Type 0) : Type 0 where
  pub cursor : Cursor
  pub qregs : Registers
  pub cregs : Registers
  pub num_qubits : ℕ
  pub num_clbits : ℕ
  pub gate_defs : List (String × GateDef)
  pub circuit : Option (Circuit F)

-- `range(base, base + size)`
unfoldable pub span : ℕ → ℕ → List ℕ
span base zero = []
span base (suc size) = base ∷ span (suc base) size

unfoldable pub int_of_text : {F : Type 0} → Math F → String → Outcome ℕ
int_of_text m text =
    proceed (or_crash (m.float_of text) value_error)
      λ value. or_crash (m.int_of value) overflow_error

module _ {F : Type 0} where
  unfoldable pub new_parser : Cursor → Parser F
  new_parser cursor = record {
    cursor = cursor;
    qregs = [];
    cregs = [];
    num_qubits = 0;
    num_clbits = 0;
    gate_defs = [];
    circuit = none;
  }

  -- A step of the cursor, as a step of the parser that holds it.
  abbrev pub on_cursor : {Value : Type 0} → Method Cursor Value → Method (Parser F) Value
  on_cursor step p =
      proceed (step p.cursor) λ (value, cursor). ok (value, record p { cursor = cursor })

  abbrev pub self : Method (Parser F) (Parser F)
  self p = ok (p, p)

  -- The circuit, made with the widths declared so far where there is none.
  unfoldable pub circuit_or_new : ℕ → ℕ → Option (Circuit F) → Circuit F
  circuit_or_new num_qubits num_clbits none = new_circuit num_qubits num_clbits
  circuit_or_new num_qubits num_clbits (some circuit) = circuit

  unfoldable pub ensure_circuit : Method (Parser F) (Unit {0})
  unfolding circuit_or_new
  ensure_circuit p =
      ok (tt, record p { circuit = some (circuit_or_new p.num_qubits p.num_clbits p.circuit) })

  -- `self.circuit.add_...(...)`: on None it raises AttributeError.
  unfoldable pub change_circuit : (Circuit F → Circuit F) → Method (Parser F) (Unit {0})
  change_circuit change p =
      proceed (or_crash p.circuit attribute_error)
        λ circuit. ok (tt, record p { circuit = some (change circuit) })

  unfoldable pub resolve_qubit : String → ℕ → ℕ → Method (Parser F) ℕ
  unfolding lookup
  resolve_qubit name index line = do
    p ← self
    when_found (lookup name p.qregs)
        (λ (base, size).
          if ltb index size then give (base + index) else error_at (out_of_range name index) line)
        (error_at (unknown_qreg name) line)

  unfoldable pub resolve_clbit : String → ℕ → ℕ → Method (Parser F) ℕ
  unfolding lookup
  resolve_clbit name index line = do
    p ← self
    when_found (lookup name p.cregs)
        (λ (base, size).
          if ltb index size then give (base + index) else error_at (out_of_range name index) line)
        (error_at (unknown_creg name) line)

  module _ (m : Math F) where
    -- `[index]` behind a register's name.
    parse_index : Method (Parser F) (ℕ × ℕ)
    unfolding int_of_text
    parse_index = do
      on_cursor next
      tok ← on_cursor (expect_kind number)
      index ← lift (int_of_text m tok.value)
      on_cursor (expect_symbol "]")
      give (index, tok.line)

    unfoldable pub parse_qubit_arg : Method (Parser F) (List ℕ)
    unfolding parse_index resolve_qubit
    parse_qubit_arg = do
      name_tok ← on_cursor (expect_kind id)
      let name = name_tok.value
      tok ← on_cursor peek
      let one = do
        (index, line) ← parse_index
        qubit ← resolve_qubit name index line
        give (qubit ∷ [])
      let whole = do
        p ← self
        when_found (lookup name p.qregs) (λ (base, size). give (span base size))
            (error_at (unknown_qreg name) tok.line)
      if at_symbol "[" tok then one else whole

    unfoldable pub parse_creg_arg : Method (Parser F) (List ℕ)
    unfolding parse_index resolve_clbit
    parse_creg_arg = do
      name_tok ← on_cursor (expect_kind id)
      let name = name_tok.value
      tok ← on_cursor peek
      let one = do
        (index, line) ← parse_index
        clbit ← resolve_clbit name index line
        give (clbit ∷ [])
      let whole = do
        p ← self
        when_found (lookup name p.cregs) (λ (base, size). give (span base size))
            (error_at (unknown_creg name) tok.line)
      if at_symbol "[" tok then one else whole
