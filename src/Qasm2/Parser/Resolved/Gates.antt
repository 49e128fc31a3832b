-- ===== src/Qasm2/Parser/Resolved/Gates.antt =====
-- frontends/qasm2/parser.py: gate calls, against the parser's invariant.
use dev_q.Prelude.{
  ℕ, zero, suc, ◌+◌, ◌<◌, String, Bool, true, List, [], ◌∷◌, ◌≡◌, refl, length, arith,
}
use dev_q.Qasm2.Python.{Math}
use dev_q.Dict.{has}
use dev_q.Qasm2.Tokens.{id, at_symbol, first_or, expect_kind, expect_symbol}
use dev_q.Qasm2.Ends.{Ends, returned, refused, Ends-choice, Ends-lift}
use dev_q.Qasm2.Ends.Cursor.{left, expect_kind-Consumed, expect_symbol-Consumed, rest_of_symbol}
use dev_q.Qasm2.Parser.{Parser}
use dev_q.Qasm2.Parser.Inline.{parse_param_list, max_levels}
use dev_q.Qasm2.Parser.Calls.{
  resolve_slot, broadcast_of, widths_agree, emit_slot, emit_slots, emit_gate, qubit_arguments,
  parse_gate_call,
}
use dev_q.Qasm2.Parser.Layout.{Below-weaken, has-lookup}
use dev_q.Qasm2.Parser.Resolved.{
  IsResolved, After, Any, After-then, After-advance, advance, advance-IsResolved, on_cursor-After,
  stay, After-ensured, ensured, ensured-IsResolved,
}
use dev_q.Qasm2.Parser.Resolved.Pieces.{parse_param_list-Consumed}
use dev_q.Qasm2.Parser.Resolved.Inlined.{inline_custom-Keeps, emit_primitive-After}
use dev_q.Qasm2.Parser.Resolved.Called.{
  Arguments, Arguments-weaken, Declares, resolve_slot-Below, parse_qubit_arg-After,
}

module _ {F : Type 0} (m : Math F) where
  emit_slot-After :
      (name : String) (params : List F) (args : List (List ℕ)) (line slot broadcast : ℕ)
      (p : Parser F)
      → IsResolved true p
      → Arguments p.num_qubits args
      → widths_agree broadcast args ≡ true
      → slot < broadcast
      → Ends (After true p 0 Any) (emit_slot m name params args line slot p)
  unfolding emit_slot
  emit_slot-After name params args line slot broadcast p h a w lt =
      Ends-lift _ (resolve_slot slot args) p _
        (resolve_slot-Below p.num_qubits slot broadcast args a w lt)
        λ qubits low.
          Ends-choice (has name p.gate_defs) _ _ p
            (λ known.
              inline_custom-Keeps m max_levels name params qubits line p h low
                (has-lookup name p.gate_defs known))
            (λ unknown. emit_primitive-After name params qubits line p h low)

  emit_slots-After :
      (name : String) (params : List F) (args : List (List ℕ)) (line slot left_slots broadcast : ℕ)
      (p : Parser F)
      → IsResolved true p
      → Arguments p.num_qubits args
      → widths_agree broadcast args ≡ true
      → slot + left_slots ≡ broadcast
      → Ends (After true p 0 Any) (emit_slots m name params args line slot left_slots p)
  unfolding emit_slots
  emit_slots-After name params args line slot zero broadcast p h a w e =
      returned _ (stay true p Any _ h tt)
  emit_slots-After name params args line slot (suc rest) broadcast p h a w e =
      After-then _ true true p 0 0 0 Any Any _
        (emit_slot-After name params args line slot broadcast p h a w (omega arith))
        (λ r b.
          emit_slots-After name params args line (suc slot) rest broadcast r.1 b.resolved
            (Arguments-weaken p.num_qubits r.1.num_qubits args b.qubits_grow a) w (omega arith))
        (omega arith)

  emit_gate-After :
      (ready : Bool) (name : String) (params : List F) (args : List (List ℕ)) (line : ℕ)
      (p : Parser F)
      → IsResolved ready p
      → Arguments p.num_qubits args
      → Ends (After true p 0 Any) (emit_gate m name params args line p)
  unfolding emit_gate
  emit_gate-After ready name params args line p h a = After-ensured p 0 Any _ (
      Ends-choice (widths_agree (broadcast_of args) args) _ _ (ensured p)
        (λ w.
          emit_slots-After name params args line 0 (broadcast_of args) (broadcast_of args)
            (ensured p) (ensured-IsResolved ready p h) a w (omega arith))
        (λ w. refused _ _))

  qubit_arguments-After :
      (ready : Bool) (fuel : ℕ) (p : Parser F)
      → IsResolved ready p
      → left p.cursor < fuel
      → Ends (After ready p 1 (λ args q. Arguments q.num_qubits args)) (qubit_arguments m fuel p)
  unfolding qubit_arguments
  qubit_arguments-After ready zero p h f = elim f [ ]
  qubit_arguments-After ready (suc fuel) p h f =
      After-then _ ready ready p 0 1 1 (λ qubits q. Declares q.num_qubits qubits) _ _
        (parse_qubit_arg-After m ready p h)
        (λ r a.
          Ends-choice (at_symbol "," (first_or r.1.cursor.tokens r.1.cursor.end_line)) _ _ r.1
            (λ t.
              let less = rest_of_symbol "," r.1.cursor.tokens r.1.cursor.end_line t in
              After-advance ready r.1 0 0 _ _ (omega arith) (
                After-then _ ready ready (advance r.1) 0 1 0 (λ args q. Arguments q.num_qubits args)
                  _ _
                  (qubit_arguments-After ready fuel (advance r.1)
                    (advance-IsResolved ready r.1 a.resolved) (omega (arith, a.used)))
                  (λ s b. returned _ (
                    stay ready s.1 _ (r.0 ∷ s.0) b.resolved (
                      (
                        Below-weaken r.1.num_qubits s.1.num_qubits r.0 b.qubits_grow a.holds.0,
                        a.holds.1,
                      ),
                      b.holds,
                    )))
                  (omega arith)))
            (λ t. returned _ (stay ready r.1 _ (r.0 ∷ []) a.resolved (a.holds, tt))))
        (omega arith)

  pub parse_gate_call-After :
      (ready : Bool) (p : Parser F)
      → IsResolved ready p
      → Ends (After true p 1 Any) (parse_gate_call m p)
  unfolding parse_gate_call
  parse_gate_call-After ready p h =
      After-then _ ready true p 0 1 1 Any Any _
        (on_cursor-After ready p 1 (expect_kind id) h (expect_kind-Consumed id p.cursor refl))
        (λ r a.
          After-then _ ready true r.1 0 0 0 Any Any _
            (on_cursor-After ready r.1 0 (parse_param_list m []) a.resolved
              (parse_param_list-Consumed m [] r.1.cursor))
            (λ s b.
              After-then _ ready true s.1 0 1 0 (λ args q. Arguments q.num_qubits args) Any _
                (qubit_arguments-After ready (suc (length s.1.cursor.tokens)) s.1 b.resolved
                  (omega arith))
                (λ t c.
                  After-then _ ready true t.1 0 1 0 Any Any _
                    (on_cursor-After ready t.1 1 (expect_symbol ";") c.resolved
                      (expect_symbol-Consumed ";" t.1.cursor))
                    (λ u d.
                      emit_gate-After ready r.0.value s.0 t.0 r.0.line u.1 d.resolved
                        (Arguments-weaken t.1.num_qubits u.1.num_qubits t.0 d.qubits_grow c.holds))
                    (omega arith))
                (omega arith))
            (omega arith))
        (omega arith)
