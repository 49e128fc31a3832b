-- ===== src/Qasm2/Parser/Resolved/Declared.antt =====
-- frontends/qasm2/parser.py: declarations and the loops that append operations, against the parser's
-- invariant.
use dev_q.Prelude as P
use dev_q.Prelude.{
  ℕ, zero, suc, ◌+◌, ◌≤◌, ◌<◌, String, Bool, true, false, List, [], ◌∷◌, ◌++◌, Option, none, some,
  ◌≡◌, ◌≢◌, refl, length, All, take, drop, All-take, arith, if◌then◌else◌,
}
use dev_q.Circuit.{Instruction, measure, reset, conditional}
use dev_q.Qasm2.Outcome.{attribute_error}
use dev_q.Qasm2.Python.{Math}
use dev_q.Dict.{has}
use dev_q.Qasm2.Tokens.{id, number, expect_kind, expect_symbol}
use dev_q.Qasm2.Ends.{Ends, returned, refused, Ends-choice, Ends-proceed, Ends-lift, Ends-if}
use dev_q.Qasm2.Ends.Cursor.{expect_kind-Consumed, expect_symbol-Consumed, rest-le}
use dev_q.Qasm2.Parser.{Parser, int_of_text}
use dev_q.Qasm2.Parser.Statements.{
  RegisterKind, qreg, creg, declare, declare_qreg, declare_creg, parse_reg, emit_measures,
  emit_resets, emit_conditionals, instructions_of, rewrap,
}
use dev_q.Qasm2.Parser.Layout.{Below, Below-weaken, IsLaidOut-insert}
use dev_q.Qasm2.Parser.Resolved.{
  IsResolved, IsReady-grow, Acts, Acts-weaken, After, Any, After-then, After-advance, advance,
  advance-IsResolved, on_cursor-After, stay, emit_op-After, change_circuit-After, circuit_or_crash,
}
use dev_q.Qasm2.Parser.Resolved.Called.{int_of_text-Ends}

module _ {F : Type 0} where
  declare_qreg-After :
      (ready : Bool) (name : String) (size line : ℕ) (p : Parser F)
      → IsResolved ready p
      → 0 < size
      → Ends (After ready p 0 Any) (declare_qreg name size line p)
  unfolding declare_qreg
  declare_qreg-After ready name size line p h pos =
      Ends-if (has name p.qregs) _ _ (λ t. refused _ _)
        λ fresh. returned _ record {
          resolved = record {
            qregs_out = IsLaidOut-insert 0 p.qregs p.num_qubits name size h.qregs_out pos fresh;
            cregs_out = h.cregs_out;
            circuit_ready =
                IsReady-grow ready p.num_qubits p.num_clbits (p.num_qubits + size) p.num_clbits
                  p.circuit (omega arith) (omega arith) h.circuit_ready;
          };
          used = omega arith;
          qubits_grow = omega arith;
          clbits_grow = omega arith;
          holds = tt;
        }

  declare_creg-After :
      (ready : Bool) (name : String) (size line : ℕ) (p : Parser F)
      → IsResolved ready p
      → 0 < size
      → Ends (After ready p 0 Any) (declare_creg name size line p)
  unfolding declare_creg
  declare_creg-After ready name size line p h pos =
      Ends-if (has name p.cregs) _ _ (λ t. refused _ _)
        λ fresh. returned _ record {
          resolved = record {
            qregs_out = h.qregs_out;
            cregs_out = IsLaidOut-insert 0 p.cregs p.num_clbits name size h.cregs_out pos fresh;
            circuit_ready =
                IsReady-grow ready p.num_qubits p.num_clbits p.num_qubits (p.num_clbits + size)
                  p.circuit (omega arith) (omega arith) h.circuit_ready;
          };
          used = omega arith;
          qubits_grow = omega arith;
          clbits_grow = omega arith;
          holds = tt;
        }

  pub declare-After :
      (ready : Bool) (kind : RegisterKind) (name : String) (size line : ℕ) (p : Parser F)
      → IsResolved ready p
      → Ends (After ready p 0 Any) (declare kind name size line p)
  unfolding declare
  declare-After ready qreg name size line p h =
      Ends-choice (P.◌==◌ size 0) _ _ p (λ t. refused _ _)
        (λ t. declare_qreg-After ready name size line p h (ground arith))
  declare-After ready creg name size line p h =
      Ends-choice (P.◌==◌ size 0) _ _ p (λ t. refused _ _)
        (λ t. declare_creg-After ready name size line p h (ground arith))

  pub parse_reg-After :
      (m : Math F) (ready : Bool) (kind : RegisterKind) (p : Parser F)
      → IsResolved ready p
      → Ends (After ready p 1 Any) (parse_reg m kind p)
  unfolding parse_reg
  parse_reg-After m ready kind p h =
      let least = rest-le p.cursor.tokens in
      After-advance ready p 1 1 Any _ (omega arith) (
        After-then _ ready ready (advance p) 0 1 1 Any Any _
          (on_cursor-After ready (advance p) 1 (expect_kind id) (advance-IsResolved ready p h)
            (expect_kind-Consumed id (advance p).cursor refl))
          (λ r a.
            After-then _ ready ready r.1 0 1 0 Any Any _
              (on_cursor-After ready r.1 1 (expect_symbol "[") a.resolved
                (expect_symbol-Consumed "[" r.1.cursor))
              (λ s b.
                After-then _ ready ready s.1 0 1 0 Any Any _
                  (on_cursor-After ready s.1 1 (expect_kind number) b.resolved
                    (expect_kind-Consumed number s.1.cursor refl))
                  (λ t c.
                    Ends-lift _ (int_of_text m t.0.value) t.1 _ (int_of_text-Ends m t.0.value)
                      λ size q.
                        After-then _ ready ready t.1 0 1 0 Any Any _
                          (on_cursor-After ready t.1 1 (expect_symbol "]") c.resolved
                            (expect_symbol-Consumed "]" t.1.cursor))
                          (λ u d.
                            After-then _ ready ready u.1 0 1 0 Any Any _
                              (on_cursor-After ready u.1 1 (expect_symbol ";") d.resolved
                                (expect_symbol-Consumed ";" u.1.cursor))
                              (λ v e.
                                declare-After ready kind r.0.value size t.0.line v.1 e.resolved)
                              (omega arith))
                          (omega arith))
                  (omega arith))
              (omega arith))
          (omega arith))

  pub emit_measures-After :
      (qubits clbits : List ℕ) (p : Parser F)
      → IsResolved true p
      → Below p.num_qubits qubits
      → Below p.num_clbits clbits
      → Ends (After true p 0 Any) (emit_measures qubits clbits p)
  unfolding emit_measures
  emit_measures-After [] clbits p h low low' = returned _ (stay true p Any _ h tt)
  emit_measures-After (q ∷ qubits) [] p h low low' = returned _ (stay true p Any _ h tt)
  emit_measures-After (q ∷ qubits) (c ∷ clbits) p h low low' =
      After-then _ true true p 0 0 0 Any Any _ (emit_op-After p (measure q c) h (low.0, low'.0))
        (λ r a.
          emit_measures-After qubits clbits r.1 a.resolved
            (Below-weaken p.num_qubits r.1.num_qubits qubits a.qubits_grow low.1)
            (Below-weaken p.num_clbits r.1.num_clbits clbits a.clbits_grow low'.1))
        (omega arith)

  pub emit_resets-After :
      (qubits : List ℕ) (p : Parser F)
      → IsResolved true p
      → Below p.num_qubits qubits
      → Ends (After true p 0 Any) (emit_resets qubits p)
  unfolding emit_resets
  emit_resets-After [] p h low = returned _ (stay true p Any _ h tt)
  emit_resets-After (q ∷ qubits) p h low =
      After-then _ true true p 0 0 0 Any Any _ (emit_op-After p (reset q) h low.0)
        (λ r a.
          emit_resets-After qubits r.1 a.resolved
            (Below-weaken p.num_qubits r.1.num_qubits qubits a.qubits_grow low.1))
        (omega arith)

  emit_conditionals-After :
      (n n' : ℕ) (clbits : List ℕ) (value : ℕ) (ops : List (Instruction F)) (p : Parser F)
      → IsResolved true p
      → n ≤ p.num_qubits
      → n' ≤ p.num_clbits
      → Below n' clbits
      → All (Acts n n') ops
      → Ends (After true p 0 Any) (emit_conditionals clbits value ops p)
  unfolding emit_conditionals
  emit_conditionals-After n n' clbits value [] p h le le' low acts =
      returned _ (stay true p Any _ h tt)
  emit_conditionals-After n n' clbits value (op ∷ ops) p h le le' low acts =
      After-then _ true true p 0 0 0 Any Any _
        (emit_op-After p (conditional clbits value op) h (
          Below-weaken n' p.num_clbits clbits le' low,
          Acts-weaken n n' p.num_qubits p.num_clbits op le le' acts.0,
        ))
        (λ r a.
          emit_conditionals-After n n' clbits value ops r.1 a.resolved
            (omega (arith, a.qubits_grow)) (omega (arith, a.clbits_grow)) low acts.1)
        (omega arith)

  All-drop :
      (nq nc k : ℕ) (ops : List (Instruction F))
      → All (Acts nq nc) ops
      → All (Acts nq nc) (drop k ops)
  All-drop nq nc zero ops h = h
  All-drop nq nc (suc k) [] h = tt
  All-drop nq nc (suc k) (op ∷ ops) h = All-drop nq nc k ops h.1

  pub instructions_of-After :
      (p : Parser F)
      → IsResolved true p
      → Ends
          (After true p 0 (λ ops q. All (Acts p.num_qubits p.num_clbits) ops))
          (instructions_of p)
  instructions_of-After p h =
      Ends-proceed _ _ _
        (circuit_or_crash p.num_qubits p.num_clbits p.circuit attribute_error h.circuit_ready)
        λ c w. returned _ (stay true p _ c.instructions h w.acts)

  pub rewrap-After :
      (clbits : List ℕ) (value mark : ℕ) (p : Parser F)
      → IsResolved true p
      → Below p.num_clbits clbits
      → Ends (After true p 0 Any) (rewrap clbits value mark p)
  unfolding rewrap
  rewrap-After clbits value mark p h low =
      After-then _ true true p 0 0 0 (λ ops q. All (Acts p.num_qubits p.num_clbits) ops) Any _
        (instructions_of-After p h)
        (λ r a.
          After-then _ true true r.1 0 0 0 Any Any _
            (change_circuit-After r.1 (λ c. record c { instructions = take mark r.0 }) a.resolved
              λ c w. record {
                acts = All-take _ mark r.0 (
                    P.All-map _ _ r.0
                      (λ op.
                        Acts-weaken p.num_qubits p.num_clbits r.1.num_qubits r.1.num_clbits op
                          a.qubits_grow a.clbits_grow)
                      a.holds);
                qubits_le = w.qubits_le;
                clbits_le = w.clbits_le;
                no_cregs = w.no_cregs;
              })
            (λ s b.
              emit_conditionals-After p.num_qubits p.num_clbits clbits value (drop mark r.0) s.1
                b.resolved (omega (arith, a.qubits_grow, b.qubits_grow))
                (omega (arith, a.clbits_grow, b.clbits_grow)) low
                (All-drop p.num_qubits p.num_clbits mark r.0 a.holds))
            (omega arith))
        (omega arith)
