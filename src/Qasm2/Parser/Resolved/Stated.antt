-- ===== src/Qasm2/Parser/Resolved/Stated.antt =====
-- frontends/qasm2/parser.py: each kind of statement, against the parser's invariant.
use text.Mathlib.Text.{◌==◌}
use dev_q.Prelude as P
use dev_q.Prelude.{
  ℕ, zero, suc, ◌+◌, ◌≤◌, ◌<◌, String, Bool, true, false, not, ◌&&◌, ◌||◌, List, [], ◌∷◌, Option,
  none, some, ◌≡◌, ◌≢◌, refl, length, All, arith, if◌then◌else◌,
}
use dev_q.Qasm2.Outcome.{Method}
use dev_q.Qasm2.Python.{Math}
use dev_q.Dict.{lookup, has}
use dev_q.Qasm2.Tokens.{
  Cursor, id, number, string, is_kind, rest_of, first_or, expect_kind, expect_symbol,
}
use dev_q.Qasm2.Tokenizer.{starts}
use dev_q.Qasm2.Ends.{
  Ends, returned, refused, faulted, infinite, Ends-choice, Ends-when_found, Ends-lift,
}
use dev_q.Qasm2.Ends.Cursor.{
  left, Consumed, Consumed-then, expect_kind-Consumed, expect_symbol-Consumed, rest-le,
}
use dev_q.Qasm2.Parser.{Parser, span, int_of_text}
use dev_q.Qasm2.Parser.Definitions.{
  parse_gate_def, formal_params, identifiers, gate_body, builtin_gates,
}
use dev_q.Qasm2.Parser.Statements.{
  parse_header, parse_include, parse_measure, parse_reset, parse_condition, parse_if,
}
use dev_q.Qasm2.Parser.Layout.{Below, Below-weaken, lookup-IsWithin, span-Below}
use dev_q.Qasm2.Parser.Resolved.{
  Acts, IsResolved, After, Any, After-then, After-advance, advance, advance-IsResolved,
  After-ensured, ensured, ensured-IsResolved, After-weaken, on_cursor-After, stay,
}
use dev_q.Qasm2.Parser.Resolved.Pieces.{
  formal_params-Consumed, identifiers-Consumed, gate_body-Consumed,
}
use dev_q.Qasm2.Parser.Resolved.Called.{
  Declares, int_of_text-Ends, parse_qubit_arg-After, parse_creg_arg-After,
}
use dev_q.Qasm2.Parser.Resolved.Declared.{
  emit_measures-After, emit_resets-After, instructions_of-After, rewrap-After,
}

pub parse_header-Consumed : (c : Cursor) → Ends (Consumed 0 (left c)) (parse_header c)
unfolding parse_header
parse_header-Consumed c =
    let least = rest-le c.tokens in
    let least' = rest-le (rest_of c.tokens) in
    Ends-choice
      (is_kind (first_or c.tokens c.end_line).kind id
        && ((first_or c.tokens c.end_line).value == "OPENQASM"))
      _ _ c
      (λ t.
        let ver = first_or (rest_of c.tokens) c.end_line in
        Ends-choice (not (is_kind ver.kind number)) _ _ (record c { tokens = rest_of c.tokens })
          (λ u. refused _ _)
          λ u.
            Ends-choice (not (starts b'2' ver.value)) _ _ (record c { tokens = rest_of c.tokens })
              (λ v. refused _ _)
              (λ v.
                Consumed-then _ 0 1 0 (left c) (length (rest_of (rest_of c.tokens))) _
                  (expect_symbol-Consumed ";" (record c { tokens = rest_of (rest_of c.tokens) }))
                  (λ r q. returned _ (omega arith)) (omega arith)))
      (λ t. returned _ (omega arith))

pub parse_include-Consumed : (c : Cursor) → Ends (Consumed 1 (left c)) (parse_include c)
unfolding parse_include
parse_include-Consumed c =
    let least = rest-le c.tokens in
    Consumed-then _ 1 1 1 (left c) (length (rest_of c.tokens)) _
      (expect_kind-Consumed string (record c { tokens = rest_of c.tokens }) refl)
      (λ r q.
        Consumed-then _ 0 1 1 (left r.1) (left r.1) _ (expect_symbol-Consumed ";" r.1)
          (λ s q'. returned _ (omega arith)) (omega arith))
      (omega arith)

module _ {F : Type 0} where
  pub parse_gate_def-After :
      (ready : Bool) (p : Parser F)
      → IsResolved ready p
      → Ends (After ready p 1 Any) (parse_gate_def p)
  unfolding parse_gate_def
  parse_gate_def-After ready p h =
      let least = rest-le p.cursor.tokens in
      After-advance ready p 1 1 Any _ (omega arith) (
        After-then _ ready ready (advance p) 0 1 1 Any Any _
          (on_cursor-After ready (advance p) 1 (expect_kind id) (advance-IsResolved ready p h)
            (expect_kind-Consumed id (advance p).cursor refl))
          (λ r a.
            After-then _ ready ready r.1 0 0 0 Any Any _
              (on_cursor-After ready r.1 0 formal_params a.resolved
                (formal_params-Consumed r.1.cursor))
              (λ s b.
                After-then _ ready ready s.1 0 1 0 Any Any _
                  (on_cursor-After ready s.1 1 (identifiers (suc (length s.1.cursor.tokens)))
                    b.resolved
                    (identifiers-Consumed (suc (length s.1.cursor.tokens)) s.1.cursor
                      (omega arith)))
                  (λ t c.
                    After-then _ ready ready t.1 0 1 0 Any Any _
                      (on_cursor-After ready t.1 1 (gate_body r.0.value) c.resolved
                        (gate_body-Consumed r.0.value t.1.cursor))
                      (λ u d.
                        Ends-choice (has r.0.value s.1.gate_defs || has r.0.value builtin_gates) _ _
                          u.1 (λ known. refused _ _)
                          (λ fresh. returned _ record {
                            resolved = record {
                              qregs_out = d.resolved.qregs_out;
                              cregs_out = d.resolved.cregs_out;
                              circuit_ready = d.resolved.circuit_ready;
                            };
                            used = omega arith;
                            qubits_grow = omega arith;
                            clbits_grow = omega arith;
                            holds = tt;
                          }))
                      (omega arith))
                  (omega arith))
              (omega arith))
          (omega arith))

  module _ (m : Math F) where
    pub parse_measure-After :
        (ready : Bool) (p : Parser F)
        → IsResolved ready p
        → Ends (After ready p 1 Any) (parse_measure m p)
    unfolding parse_measure
    parse_measure-After ready p h =
        let least = rest-le p.cursor.tokens in
        After-advance ready p 1 1 Any _ (omega arith) (
          After-then _ ready ready (advance p) 0 1 1 (λ qubits q. Declares q.num_qubits qubits) Any
            _ (parse_qubit_arg-After m ready (advance p) (advance-IsResolved ready p h))
            (λ r a.
              After-then _ ready ready r.1 0 1 0 Any Any _
                (on_cursor-After ready r.1 1 (expect_symbol "->") a.resolved
                  (expect_symbol-Consumed "->" r.1.cursor))
                (λ s b.
                  After-then _ ready ready s.1 0 1 0 (λ clbits q. Below q.num_clbits clbits) Any _
                    (parse_creg_arg-After m ready s.1 b.resolved)
                    (λ t c.
                      After-then _ ready ready t.1 0 1 0 Any Any _
                        (on_cursor-After ready t.1 1 (expect_symbol ";") c.resolved
                          (expect_symbol-Consumed ";" t.1.cursor))
                        (λ u d. After-weaken ready u.1 0 Any _ (
                          After-ensured u.1 0 Any _ (
                            Ends-choice (P.◌==◌ (length r.0) (length t.0)) _ _ (ensured u.1)
                              (λ same.
                                emit_measures-After r.0 t.0 (ensured u.1)
                                  (ensured-IsResolved ready u.1 d.resolved)
                                  (Below-weaken r.1.num_qubits u.1.num_qubits r.0
                                    (omega (arith, b.qubits_grow, c.qubits_grow, d.qubits_grow))
                                    a.holds.0)
                                  (Below-weaken t.1.num_clbits u.1.num_clbits t.0 d.clbits_grow
                                    c.holds))
                              (λ other. refused _ _))))
                        (omega arith))
                    (omega arith))
                (omega arith))
            (omega arith))

    pub parse_reset-After :
        (ready : Bool) (p : Parser F)
        → IsResolved ready p
        → Ends (After ready p 1 Any) (parse_reset m p)
    unfolding parse_reset
    parse_reset-After ready p h =
        let least = rest-le p.cursor.tokens in
        After-advance ready p 1 1 Any _ (omega arith) (
          After-then _ ready ready (advance p) 0 1 1 (λ qubits q. Declares q.num_qubits qubits) Any
            _ (parse_qubit_arg-After m ready (advance p) (advance-IsResolved ready p h))
            (λ r a.
              After-then _ ready ready r.1 0 1 0 Any Any _
                (on_cursor-After ready r.1 1 (expect_symbol ";") a.resolved
                  (expect_symbol-Consumed ";" r.1.cursor))
                (λ s b. After-weaken ready s.1 0 Any _ (
                  After-ensured s.1 0 Any _ (
                    emit_resets-After r.0 (ensured s.1) (ensured-IsResolved ready s.1 b.resolved)
                      (Below-weaken r.1.num_qubits s.1.num_qubits r.0 b.qubits_grow a.holds.0))))
                (omega arith))
            (omega arith))

    parse_condition-After :
        (ready : Bool) (p : Parser F)
        → IsResolved ready p
        → Ends (After ready p 1 (λ guard q. Below q.num_clbits guard.0)) (parse_condition m p)
    unfolding parse_condition
    parse_condition-After ready p h =
        let least = rest-le p.cursor.tokens in
        After-advance ready p 1 1 _ _ (omega arith) (
          After-then _ ready ready (advance p) 0 1 1 Any _ _
            (on_cursor-After ready (advance p) 1 (expect_symbol "(") (advance-IsResolved ready p h)
              (expect_symbol-Consumed "(" (advance p).cursor))
            (λ r a.
              After-then _ ready ready r.1 0 1 0 Any _ _
                (on_cursor-After ready r.1 1 (expect_kind id) a.resolved
                  (expect_kind-Consumed id r.1.cursor refl))
                (λ s b.
                  After-then _ ready ready s.1 0 1 0 Any _ _
                    (on_cursor-After ready s.1 1 (expect_symbol "==") b.resolved
                      (expect_symbol-Consumed "==" s.1.cursor))
                    (λ t c.
                      After-then _ ready ready t.1 0 1 0 Any _ _
                        (on_cursor-After ready t.1 1 (expect_kind number) c.resolved
                          (expect_kind-Consumed number t.1.cursor refl))
                        (λ u d.
                          Ends-lift _ (int_of_text m u.0.value) u.1 _ (int_of_text-Ends m u.0.value)
                            λ value q.
                              After-then _ ready ready u.1 0 1 0 Any _ _
                                (on_cursor-After ready u.1 1 (expect_symbol ")") d.resolved
                                  (expect_symbol-Consumed ")" u.1.cursor))
                                (λ v e.
                                  Ends-when_found (lookup s.0.value v.1.cregs) _ _ v.1
                                    (λ reg found.
                                      let within =
                                        lookup-IsWithin s.0.value 0 v.1.cregs v.1.num_clbits reg
                                          e.resolved.cregs_out found in
                                      Ends-choice (m.is_length reg.1) _ _ v.1
                                        (λ t. returned _ (
                                          stay ready v.1 _ (span reg.0 reg.1, value) e.resolved
                                            (span-Below reg.0 reg.1 v.1.num_clbits within.0)))
                                        (λ t. faulted _ infinite))
                                    (λ missing. refused _ _))
                                (omega arith))
                        (omega arith))
                    (omega arith))
                (omega arith))
            (omega arith))

    pub parse_if-After :
        (statement : Method (Parser F) (Unit {0})) (ready : Bool) (p : Parser F)
        → IsResolved ready p
        → ((q : Parser F)
            → IsResolved true q
            → left q.cursor < left p.cursor
            → Ends (After true q 1 Any) (statement q))
        → Ends (After ready p 1 Any) (parse_if m statement p)
    unfolding parse_if
    parse_if-After statement ready p h k =
        After-then _ ready ready p 0 1 1 (λ guard q. Below q.num_clbits guard.0) Any _
          (parse_condition-After ready p h)
          (λ r a.
            let whole = ensured-IsResolved ready r.1 a.resolved in
            After-weaken ready r.1 0 Any _ (
              After-ensured r.1 0 Any _ (
                After-then _ true true (ensured r.1) 0 0 0
                  (λ ops q. All (Acts r.1.num_qubits r.1.num_clbits) ops) Any _
                  (instructions_of-After (ensured r.1) whole)
                  (λ s b.
                    After-then _ true true s.1 0 1 0 Any Any _
                      (k s.1 b.resolved (omega (arith, a.used, b.used)))
                      (λ t c. rewrap-After r.0.0 r.0.1 (length s.0) t.1 c.resolved (
                        Below-weaken r.1.num_clbits t.1.num_clbits r.0.0
                          (omega (arith, b.clbits_grow, c.clbits_grow)) a.holds))
                      (omega arith))
                  (omega arith))))
          (omega arith)
