-- ===== src/Qasm2/Parser/Inline.antt =====
-- frontends/qasm2/parser.py: parameter lists, and the inlining of custom gates.
use text.Mathlib.Text.{◌==◌}
use dev_q.Prelude as P
use dev_q.Prelude.{
  ℕ, zero, suc, ◌+◌, ◌*◌, String, Bool, true, false, not, ◌&&◌, ◌||◌, List, [], ◌∷◌, Option, none,
  some, if◌then◌else◌, length, ltb, map, get_elem?,
}
use dev_q.Circuit.{add_gate}
use dev_q.Qasm2.Outcome.{
  when_found, Method, ok, out_of_fuel, give, error_at, lift, proceed, or_crash, key_error,
  unknown_qubit, wrong_arity, nested_too_deep, unexpected_in_body, ◌>>=◌, ◌>>◌,
}
use dev_q.Qasm2.Python.{Math}
use dev_q.Dict.{lookup, has, fill}
use dev_q.Qasm2.Tokens.{Cursor, id, eof, is_kind, peek, next, at_symbol, expect_symbol, expect_kind}
use dev_q.Qasm2.Expression.{evaluate}
use dev_q.Qasm2.Parser.{Parser, on_cursor, self, change_circuit}
use dev_q.Qasm2.Parser.Definitions.{listed, builtin_gates, parse_barrier}

-- `_inline_custom` at the depths that are left.
abbrev pub Inline : Type 0 → Type 0
Inline F = String → List F → List ℕ → ℕ → Method (Parser F) (Unit {0})

-- The loop over the formal qubits of a call inside a gate's body.
unfoldable pub bound_qubits : List (String × ℕ) → ℕ → ℕ → Method Cursor (List ℕ)
unfolding lookup expect_kind
bound_qubits binding line zero c = out_of_fuel
bound_qubits binding line (suc fuel) c =
    let more =
      λ (qubit : ℕ). do next; qubits ← bound_qubits binding line fuel; give (qubit ∷ qubits)
    in let found =
        λ (qubit : ℕ). do sep ← peek; if at_symbol "," sep then more qubit else give (qubit ∷ [])
      in (do
        tok ← expect_kind id
        when_found (lookup tok.value binding) found (error_at (unknown_qubit tok.value) line))
        c

module _ {F : Type 0} where
  module _ (m : Math F) where
    -- The loop over comma-separated expressions.
    unfoldable pub param_values : List (String × F) → ℕ → Method Cursor (List F)
    unfolding evaluate
    param_values binding zero c = out_of_fuel
    param_values binding (suc fuel) c =
        let more = λ (value : F). do next; values ← param_values binding fuel; give (value ∷ values)
        in (do
          value ← evaluate m binding
          sep ← peek
          if at_symbol "," sep then more value else give (value ∷ []))
          c

    unfoldable pub parse_param_list : List (String × F) → Method Cursor (List F)
    unfolding param_values listed
    parse_param_list binding c = listed (param_values binding (suc (length c.tokens))) [] c

  -- A gate that is no custom one: the table gives its shape where it lists the gate.
  unfoldable pub emit_primitive : String → List F → List ℕ → ℕ → Method (Parser F) (Unit {0})
  unfolding builtin_gates lookup change_circuit add_gate
  emit_primitive name params qubits line =
      let append = change_circuit (λ circuit. add_gate circuit name qubits params) in
      when_found (lookup name builtin_gates)
        (λ (num_params, num_qubits).
          if P.◌==◌ (length params) num_params && P.◌==◌ (length qubits) num_qubits
          then append
          else error_at (wrong_arity name) line)
        append

  module _ (m : Math F) where
    unfoldable pub parse_body_call :
        Inline F → List (String × F) → List (String × ℕ) → Method (Parser F) (Unit {0})
    unfolding parse_param_list bound_qubits has emit_primitive expect_kind expect_symbol
    parse_body_call inline params_of qubits_of = do
      name_tok ← on_cursor (expect_kind id)
      let name = name_tok.value
      params ← on_cursor (parse_param_list m params_of)
      before ← self
      qubits ← on_cursor (bound_qubits qubits_of name_tok.line (suc (length before.cursor.tokens)))
      on_cursor (expect_symbol ";")
      p ← self
      if has name p.gate_defs
          then inline name params qubits name_tok.line
          else emit_primitive name params qubits name_tok.line

    -- `while not self.cursor.at_end()`
    unfoldable pub body_loop :
        String → Inline F → List (String × F) → List (String × ℕ) → ℕ → Method (Parser F) (Unit {0})
    unfolding parse_body_call parse_barrier
    body_loop gate inline params_of qubits_of zero p = out_of_fuel
    body_loop gate inline params_of qubits_of (suc fuel) p =
        let rest = body_loop gate inline params_of qubits_of fuel in
        let barrier = on_cursor parse_barrier >> rest in
        let call = parse_body_call inline params_of qubits_of >> rest in
        (do
          inner ← on_cursor peek
          if is_kind inner.kind eof
              then give tt
              else if not (is_kind inner.kind id)
              then error_at (unexpected_in_body inner.value) inner.line
              else if inner.value == "barrier"
              then barrier
              else call)
          p

    -- The body is read with a cursor of its own, and the caller's comes back afterwards.
    unfoldable pub in_body : Cursor → Method (Parser F) (Unit {0}) → Method (Parser F) (Unit {0})
    in_body body call p =
        proceed (call (record p { cursor = body }))
          λ (_, q). ok (tt, record q { cursor = p.cursor })

    unfoldable pub inline_custom : ℕ → Inline F
    unfolding lookup fill body_loop in_body
    inline_custom zero name params qubits line p = error_at (nested_too_deep name) line p
    inline_custom (suc left) name params qubits line p =
        let inner = inline_custom left in
        (do
          gate ← lift (or_crash (lookup name p.gate_defs) key_error)
          if not (P.◌==◌ (length params) (length gate.params))
              then error_at (wrong_arity name) line
              else if not (P.◌==◌ (length qubits) (length gate.qubits))
              then error_at (wrong_arity name) line
              else in_body gate.body (
                  body_loop name inner (fill [] gate.params params) (fill [] gate.qubits qubits)
                    (suc (length gate.body.tokens))))
          p

-- The depths 0 to 100.
abbrev pub max_levels : ℕ
max_levels = 101
