-- ===== src/Qasm2/Parser/Resolved/Inlined.antt =====
-- frontends/qasm2/parser.py: inlining, against the parser's invariant. The depth stops a definition
-- that names itself, and a body is read to its end.
use text.Mathlib.Text.{◌==◌}
use dev_q.Prelude as P
use dev_q.Prelude.{
  ℕ, zero, suc, ◌+◌, ◌≤◌, ◌<◌, String, Bool, true, false, not, ◌&&◌, List, [], ◌∷◌, Option, none,
  some, ◌≡◌, ◌≢◌, refl, length, All, arith, if◌then◌else◌,
}
use dev_q.Qasm2.Outcome.{Method, key_error}
use dev_q.Qasm2.Python.{Math}
use dev_q.Dict.{lookup, has, fill}
use dev_q.Qasm2.Tokens.{Cursor, id, eof, is_kind, first_or, expect_kind, expect_symbol}
use dev_q.Circuit.{gate}
use dev_q.Qasm2.Ends.{
  Ends, returned, refused, Ends-choice, Ends-when_found, Ends-proceed, Ends-lift, Ends-found_key,
}
use dev_q.Qasm2.Ends.Cursor.{left, expect_kind-Consumed, expect_symbol-Consumed}
use dev_q.Qasm2.Parser.{Parser}
use dev_q.Qasm2.Parser.Definitions.{builtin_gates, parse_barrier}
use dev_q.Qasm2.Parser.Inline.{
  Inline, emit_primitive, parse_param_list, bound_qubits, parse_body_call, body_loop, in_body,
  inline_custom,
}
use dev_q.Qasm2.Parser.Layout.{Below, Below-weaken, Values, fill-Values, has-lookup}
use dev_q.Qasm2.Parser.Resolved.{
  IsResolved, After, Any, After-then, on_cursor-After, on_cursor-holds, stay, emit_op-After,
}
use dev_q.Qasm2.Parser.Resolved.Pieces.{
  parse_param_list-Consumed, bound_qubits-Bound, parse_barrier-Consumed,
}

module _ {F : Type 0} where
  pub emit_primitive-After :
      (name : String) (params : List F) (qubits : List ℕ) (line : ℕ) (p : Parser F)
      → IsResolved true p
      → Below p.num_qubits qubits
      → Ends (After true p 0 Any) (emit_primitive name params qubits line p)
  unfolding emit_primitive
  emit_primitive-After name params qubits line p h low =
      let append =
        emit_op-After p (gate (record { gate = name; qubits = qubits; params = params })) h low in
      Ends-when_found (lookup name builtin_gates) _ _ p
        (λ shape e.
          Ends-choice (P.◌==◌ (length params) shape.0 && P.◌==◌ (length qubits) shape.1) _ _ p
            (λ t. append) (λ t. refused _ _))
        (λ e. append)

  abbrev pub Keeps : Inline F → Type 0
  Keeps inline =
      (name : String) (params : List F) (qubits : List ℕ) (line : ℕ) (p : Parser F)
      → IsResolved true p
      → Below p.num_qubits qubits
      → lookup name p.gate_defs ≢ none
      → Ends (After true p 0 Any) (inline name params qubits line p)

  module _ (m : Math F) where
    parse_body_call-After :
        (inline : Inline F) (params_of : List (String × F)) (qubits_of : List (String × ℕ)) (n : ℕ)
        (p : Parser F)
        → Keeps inline
        → IsResolved true p
        → n ≤ p.num_qubits
        → Values (λ q. q < n) qubits_of
        → Ends (After true p 1 Any) (parse_body_call m inline params_of qubits_of p)
    unfolding parse_body_call
    parse_body_call-After inline params_of qubits_of n p keeps h le v =
        After-then _ true true p 0 1 1 Any Any _
          (on_cursor-After true p 1 (expect_kind id) h (expect_kind-Consumed id p.cursor refl))
          (λ r a.
            After-then _ true true r.1 0 0 0 Any Any _
              (on_cursor-After true r.1 0 (parse_param_list m params_of) a.resolved
                (parse_param_list-Consumed m params_of r.1.cursor))
              (λ s b.
                After-then _ true true s.1 0 1 0 (λ qubits _. Below n qubits) Any _
                  (on_cursor-holds true s.1 1
                    (bound_qubits qubits_of r.0.line (suc (length s.1.cursor.tokens))) (Below n)
                    b.resolved
                    (bound_qubits-Bound n qubits_of r.0.line (suc (length s.1.cursor.tokens))
                      s.1.cursor v (omega arith)))
                  (λ t c.
                    After-then _ true true t.1 0 1 0 Any Any _
                      (on_cursor-After true t.1 1 (expect_symbol ";") c.resolved
                        (expect_symbol-Consumed ";" t.1.cursor))
                      (λ u d.
                        let low =
                          Below-weaken n u.1.num_qubits t.0
                            (omega
                              (arith, a.qubits_grow, b.qubits_grow, c.qubits_grow, d.qubits_grow))
                            c.holds in
                        Ends-choice (has r.0.value u.1.gate_defs) _ _ u.1
                          (λ known.
                            keeps r.0.value s.0 t.0 r.0.line u.1 d.resolved low
                              (has-lookup r.0.value u.1.gate_defs known))
                          (λ unknown.
                            emit_primitive-After r.0.value s.0 t.0 r.0.line u.1 d.resolved low))
                      (omega arith))
                  (omega arith))
              (omega arith))
          (omega arith)

    body_loop-After :
        (name : String) (inline : Inline F) (params_of : List (String × F))
        (qubits_of : List (String × ℕ)) (n fuel : ℕ) (p : Parser F)
        → Keeps inline
        → IsResolved true p
        → n ≤ p.num_qubits
        → Values (λ q. q < n) qubits_of
        → left p.cursor < fuel
        → Ends (After true p 0 Any) (body_loop m name inline params_of qubits_of fuel p)
    unfolding body_loop
    body_loop-After name inline params_of qubits_of n zero p keeps h le v f = elim f [ ]
    body_loop-After name inline params_of qubits_of n (suc fuel) p keeps h le v f =
        Ends-choice (is_kind (first_or p.cursor.tokens p.cursor.end_line).kind eof) _ _ p
          (λ t. returned _ (stay true p Any tt h tt))
          λ t.
            Ends-choice (not (is_kind (first_or p.cursor.tokens p.cursor.end_line).kind id)) _ _ p
              (λ u. refused _ _)
              λ u.
                Ends-choice ((first_or p.cursor.tokens p.cursor.end_line).value == "barrier") _ _ p
                  (λ w.
                    After-then _ true true p 0 1 0 Any Any _
                      (on_cursor-After true p 1 parse_barrier h (parse_barrier-Consumed p.cursor))
                      (λ r a.
                        body_loop-After name inline params_of qubits_of n fuel r.1 keeps a.resolved
                          (omega (arith, a.qubits_grow)) v (omega (arith, a.used)))
                      (omega arith))
                  λ w.
                    After-then _ true true p 0 1 0 Any Any _
                      (parse_body_call-After inline params_of qubits_of n p keeps h le v)
                      (λ r a.
                        body_loop-After name inline params_of qubits_of n fuel r.1 keeps a.resolved
                          (omega (arith, a.qubits_grow)) v (omega (arith, a.used)))
                      (omega arith)

    in_body-After :
        (body : Cursor) (call : Method (Parser F) (Unit {0})) (p : Parser F)
        → Ends (After true (record p { cursor = body }) 0 Any) (call (record p { cursor = body }))
        → Ends (After true p 0 Any) (in_body m body call p)
    unfolding in_body
    in_body-After body call p h = Ends-proceed _ _ _ h λ r a. returned _ record {
      resolved = record {
        qregs_out = a.resolved.qregs_out;
        cregs_out = a.resolved.cregs_out;
        circuit_ready = a.resolved.circuit_ready;
      };
      used = omega arith;
      qubits_grow = a.qubits_grow;
      clbits_grow = a.clbits_grow;
      holds = tt;
    }

    pub inline_custom-Keeps : (levels : ℕ) → Keeps (inline_custom m levels)
    unfolding inline_custom
    inline_custom-Keeps zero name params qubits line p h low known = refused _ _
    inline_custom-Keeps (suc levels) name params qubits line p h low known =
        Ends-lift _ _ _ _ (Ends-found_key (lookup name p.gate_defs) key_error known) λ gate found.
          Ends-choice (not (P.◌==◌ (length params) (length gate.params))) _ _ p (λ t. refused _ _)
            λ t.
              Ends-choice (not (P.◌==◌ (length qubits) (length gate.qubits))) _ _ p
                (λ u. refused _ _)
                λ u.
                  in_body-After gate.body
                    (body_loop m name (inline_custom m levels) (fill [] gate.params params)
                      (fill [] gate.qubits qubits) (suc (length gate.body.tokens)))
                    p
                    (body_loop-After name (inline_custom m levels) (fill [] gate.params params)
                      (fill [] gate.qubits qubits) p.num_qubits (suc (length gate.body.tokens))
                      (record p { cursor = gate.body }) (inline_custom-Keeps levels)
                      (record {
                        qregs_out = h.qregs_out;
                        cregs_out = h.cregs_out;
                        circuit_ready = h.circuit_ready;
                      })
                      (omega arith)
                      (fill-Values (λ q. q < p.num_qubits) [] gate.qubits qubits tt low)
                      (omega arith))
