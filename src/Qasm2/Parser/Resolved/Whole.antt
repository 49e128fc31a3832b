-- ===== src/Qasm2/Parser/Resolved/Whole.antt =====
-- frontends/qasm2/parser.py: a statement, the loop over them and the whole parser, against the
-- parser's invariant.
use text.Mathlib.Text.{◌==◌}
use dev_q.Prelude.{
  ℕ, zero, suc, ◌≤◌, ◌<◌, Bool, true, false, not, [], ◌∷◌, ◌≡◌, refl, sym, length, All, subst, ◌+◌,
  String, arith,
}
use text.Mathlib.TextEquality.{eq_iff}
use dev_q.Dict.{insert, has, has-insert}
use dev_q.Circuit.{Circuit, add_creg}
use dev_q.Qasm2.Outcome.{attribute_error}
use dev_q.Qasm2.Python.{Math}
use dev_q.Qasm2.Tokens.{Token, Cursor, id, eof, is_kind, first_or}
use dev_q.Qasm2.Ends.{Ends, returned, refused, Ends-choice, Ends-proceed}
use dev_q.Qasm2.Ends.Cursor.{left}
use dev_q.Qasm2.Parser.{Parser, Registers, new_parser}
use dev_q.Qasm2.Parser.Definitions.{parse_barrier}
use dev_q.Qasm2.Parser.Statements.{
  qreg, creg, parse_header, parse_include, parse_keyword, parse_statement, parse_statements,
  add_cregs, run_parser,
}
use dev_q.Qasm2.Parser.Layout.{IsLaidOut, IsLaidOut-insert, IsFresh}
use dev_q.Qasm2.Parser.Resolved.{
  IsResolved, IsCircuitWithin, Acts, After, Any, After-then, After-ensured, ensured,
  ensured-IsResolved, After-weaken, on_cursor-After, stay, circuit_or_crash,
}
use dev_q.Qasm2.Parser.Resolved.Pieces.{parse_barrier-Consumed}
use dev_q.Qasm2.Parser.Resolved.Gates.{parse_gate_call-After}
use dev_q.Qasm2.Parser.Resolved.Declared.{parse_reg-After}
use dev_q.Qasm2.Parser.Resolved.Stated.{
  parse_header-Consumed, parse_include-Consumed, parse_gate_def-After, parse_measure-After,
  parse_reset-After, parse_if-After,
}

module _ {F : Type 0} (m : Math F) where
  parse_keyword-After :
      (tok : Token) (ready : Bool) (p : Parser F)
      → IsResolved ready p
      → Ends (After ready p 1 Any) (parse_keyword m tok p)
  unfolding parse_keyword
  parse_keyword-After tok ready p h =
      Ends-choice (tok.value == "include") _ _ p
        (λ t. on_cursor-After ready p 1 parse_include h (parse_include-Consumed p.cursor))
        λ t.
          Ends-choice (tok.value == "qreg") _ _ p (λ t. parse_reg-After m ready qreg p h)
            λ t.
              Ends-choice (tok.value == "creg") _ _ p (λ t. parse_reg-After m ready creg p h)
                λ t.
                  Ends-choice (tok.value == "gate") _ _ p (λ t. parse_gate_def-After ready p h)
                    λ t.
                      Ends-choice (tok.value == "opaque") _ _ p (λ t. refused _ _)
                        λ t.
                          Ends-choice (tok.value == "measure") _ _ p
                            (λ t. parse_measure-After m ready p h)
                            λ t.
                              Ends-choice (tok.value == "reset") _ _ p
                                (λ t. parse_reset-After m ready p h)
                                λ t.
                                  Ends-choice (tok.value == "barrier") _ _ p
                                    (λ t.
                                      After-then _ ready ready p 0 1 1 Any Any _
                                        (on_cursor-After ready p 1 parse_barrier h
                                          (parse_barrier-Consumed p.cursor))
                                        (λ r a. returned _ (stay ready r.1 Any _ a.resolved tt))
                                        (omega arith))
                                    (λ t.
                                      After-weaken ready p 1 Any _
                                        (parse_gate_call-After m ready p h))

  pub parse_statement-After :
      (fuel : ℕ) (ready : Bool) (p : Parser F)
      → IsResolved ready p
      → left p.cursor < fuel
      → Ends (After ready p 1 Any) (parse_statement m fuel p)
  unfolding parse_statement
  parse_statement-After zero ready p h f = elim f [ ]
  parse_statement-After (suc fuel) ready p h f =
      let tok = first_or p.cursor.tokens p.cursor.end_line in
      Ends-choice (not (is_kind tok.kind id)) _ _ p (λ t. refused _ _)
        λ t.
          Ends-choice (tok.value == "if") _ _ p
            (λ u.
              parse_if-After m (parse_statement m fuel) ready p h
                λ q g less. parse_statement-After fuel true q g (omega arith))
            (λ u. parse_keyword-After tok ready p h)

  pub parse_statements-After :
      (fuel : ℕ) (ready : Bool) (p : Parser F)
      → IsResolved ready p
      → left p.cursor < fuel
      → Ends (After ready p 0 Any) (parse_statements m fuel p)
  unfolding parse_statements
  parse_statements-After zero ready p h f = elim f [ ]
  parse_statements-After (suc fuel) ready p h f =
      Ends-choice (is_kind (first_or p.cursor.tokens p.cursor.end_line).kind eof) _ _ p
        (λ t. returned _ (stay ready p Any _ h tt))
        (λ t.
          After-then _ ready ready p 0 1 0 Any Any _
            (parse_statement-After (suc (length p.cursor.tokens)) ready p h (omega arith))
            (λ r a. parse_statements-After fuel ready r.1 a.resolved (omega (arith, a.used)))
            (omega arith))

  new_parser-IsResolved : (cursor : Cursor) → IsResolved false (new_parser {F = F} cursor)
  unfolding new_parser
  new_parser-IsResolved cursor = record { qregs_out = refl; cregs_out = refl; circuit_ready = refl }

-- The names of a list stay free behind a write of another name.
fresh_behind :
    (name : String) (register : ℕ × ℕ) (d rs : Registers)
    → IsFresh name rs
    → All (λ e. has e.0 d ≡ false) rs
    → All (λ e. has e.0 (insert name register d) ≡ false) rs
fresh_behind name register d [] n h = tt
fresh_behind name register d ((other, old) ∷ rs) n h = (
  ground (arith, has-insert name other register d, eq_iff name other, eq_iff other name, n.0, h.0),
  fresh_behind name register d rs n.1 h.1,
)

none_held : (rs : Registers) → All (λ e. has {Value = ℕ × ℕ} e.0 [] ≡ false) rs
unfolding has
none_held [] = tt
none_held (r ∷ rs) = (refl, none_held rs)

module _ {F : Type 0} where
  -- Registers laid out behind those of the circuit are all added.
  add_cregs-IsLaidOut :
      (rs : Registers) (c : Circuit F) (start total : ℕ)
      → IsLaidOut 0 c.cregs start
      → IsLaidOut start rs total
      → All (λ e. has e.0 c.cregs ≡ false) rs
      → ((add_cregs rs c).instructions ≡ c.instructions)
        × ((add_cregs rs c).num_clbits ≡ c.num_clbits)
        × IsLaidOut 0 (add_cregs rs c).cregs total
  unfolding add_cregs add_creg
  add_cregs-IsLaidOut [] c start total before here fresh =
      (refl, refl, subst (IsLaidOut 0 c.cregs) here before)
  add_cregs-IsLaidOut ((name, (base, size)) ∷ rest) c start total before (e, pos, d, h) fresh =
      add_cregs-IsLaidOut rest (add_creg c name base size) (start + size) total
        (rw e (IsLaidOut-insert 0 c.cregs start name size before pos fresh.0)) h
        (fresh_behind name (base, size) c.cregs rest d fresh.1)

-- The classical registers are laid out in `nc` bits, and every operation acts on bits of theirs.
abbrev pub HasDeclaredBits : {F : Type 0} → Circuit F → Type 0
HasDeclaredBits circuit =
    (nq : ℕ) × (nc : ℕ) × IsLaidOut 0 circuit.cregs nc
    × All (Acts nq nc) circuit.instructions
    × (circuit.num_clbits ≤ nc)

module _ {F : Type 0} (m : Math F) where
  add_cregs-HasDeclaredBits :
      (q : Parser F) (c : Circuit F)
      → IsLaidOut 0 q.cregs q.num_clbits
      → IsCircuitWithin q.num_qubits q.num_clbits c
      → HasDeclaredBits (add_cregs q.cregs c)
  add_cregs-HasDeclaredBits q c h w =
      let (ops, bits, regs) = add_cregs-IsLaidOut q.cregs c 0 q.num_clbits (rw w.no_cregs refl) h (
        subst (λ (d : Registers). All (λ e. has e.0 d ≡ false) q.cregs) (sym w.no_cregs)
          (none_held q.cregs)) in
      (q.num_qubits, q.num_clbits, regs, rw ops w.acts, rw bits w.clbits_le)

  pub run_parser-Ends : (cursor : Cursor) → Ends HasDeclaredBits (run_parser m cursor)
  unfolding run_parser
  run_parser-Ends cursor =
      Ends-proceed _ _ _
        (After-then _ false true (new_parser cursor) 0 0 0 Any Any _
          (on_cursor-After false (new_parser cursor) 0 parse_header (new_parser-IsResolved m cursor)
            (parse_header-Consumed (new_parser {F = F} cursor).cursor))
          (λ r a.
            After-then _ false true r.1 0 0 0 Any Any _
              (parse_statements-After m (suc (length r.1.cursor.tokens)) false r.1 a.resolved
                (omega arith))
              (λ s b. After-ensured s.1 0 Any _ (
                returned _
                  (stay true (ensured s.1) Any tt (ensured-IsResolved false s.1 b.resolved) tt)))
              (omega arith))
          (omega arith))
        λ r a.
          Ends-proceed _ _ _
            (circuit_or_crash r.1.num_qubits r.1.num_clbits r.1.circuit attribute_error
              a.resolved.circuit_ready)
            λ c w. returned _ (add_cregs-HasDeclaredBits r.1 c a.resolved.cregs_out w)
