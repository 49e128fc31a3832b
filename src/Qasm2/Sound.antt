-- ===== src/Qasm2/Sound.antt =====
-- frontends/qasm2 as a whole: what `parse` may end in, and what its statements keep.
use dev_q.Prelude as P
use dev_q.Prelude.{ℕ, suc, ◌+◌, ◌≤◌, ◌<◌, String, Bool, ◌≡◌, ◌≢◌, subst, length, arith}
use dev_q.Circuit.{Circuit}
use dev_q.Qasm2.Outcome.{ok, out_of_fuel, crash, Fault}
use dev_q.Qasm2.Python.{Math, Classes, IsPython}
use dev_q.Qasm2.Tokenizer.Total.{tokenize-Ends}
use dev_q.Qasm2.Ends.{
  Ends, returned, refused, Ends-ok, Ends-crash, Ends-ne-out_of_fuel, Ends-proceed, Ends-if,
  IsLiteralFault,
}
use dev_q.Qasm2.Parser.{Parser}
use dev_q.Qasm2.Parser.Statements.{parse, with_qubits, parse_statement}
use dev_q.Qasm2.Parser.Resolved.{IsResolved}
use dev_q.Qasm2.Parser.Resolved.Whole.{HasDeclaredBits, run_parser-Ends, parse_statement-After}

module _ {F : Type 0} (m : Math F) (u : Classes) (python : IsPython u) where
  parse-Ends :
      (text : String)
      → Ends (λ circuit. HasDeclaredBits circuit × (circuit.num_qubits ≢ 0)) (parse m u text)
  unfolding parse with_qubits
  parse-Ends text = Ends-proceed _ _ _ (tokenize-Ends u python text) λ cursor q.
      Ends-proceed _ _ _ (run_parser-Ends m cursor) λ circuit bits.
        Ends-if (P.◌==◌ circuit.num_qubits 0) _ _ (λ t. refused _ _)
          (λ t. returned _ (bits, λ zero. ground arith))

  -- Reading a source ends, for every text: the fuel of the tokenizer, of the loops over statements,
  -- arguments and gate bodies, and of the expression evaluator never runs out. `isalnum` is taken to
  -- hold wherever `isalpha` does.
  pub parse-ne-out_of_fuel : (text : String) → parse m u text ≢ out_of_fuel
  parse-ne-out_of_fuel text = Ends-ne-out_of_fuel (parse m u text) (parse-Ends text)

  -- Where reading raises another exception than a QASMError, it is the ValueError of float() or the
  -- OverflowError of int() on a literal, or that of list() on a register's range: no lookup fails on a missing key or index, and no operation
  -- is appended to a circuit that does not exist yet.
  pub parse-IsLiteralFault :
      (text : String) (fault : Fault) → parse m u text ≡ crash fault → IsLiteralFault fault
  parse-IsLiteralFault text fault raised =
      Ends-crash fault (subst (Ends _) raised (parse-Ends text))

  -- A circuit that is read has a qubit, its classical registers follow one another from bit 0 with
  -- no gap and no overlap, and each bit that it measures into or tests belongs to one of them.
  pub parse-HasDeclaredBits :
      (text : String) (circuit : Circuit F)
      → parse m u text ≡ ok circuit
      → HasDeclaredBits circuit × (circuit.num_qubits ≢ 0)
  parse-HasDeclaredBits text circuit read = Ends-ok circuit (subst (Ends _) read (parse-Ends text))

module _ {F : Type 0} (m : Math F) where
  -- A statement keeps the parser's invariant, which is that the quantum and the classical registers
  -- are each laid out one after another from index 0 up to the running total, and that every
  -- operation of the circuit acts on declared qubits and bits. It also takes a token at least.
  pub parse_statement-IsResolved :
      (ready : Bool) (p q : Parser F)
      → IsResolved ready p
      → parse_statement m (suc (length p.cursor.tokens)) p ≡ ok (tt, q)
      → IsResolved ready q × (length q.cursor.tokens < length p.cursor.tokens)
  parse_statement-IsResolved ready p q h read =
      let a =
        Ends-ok (tt, q)
          (subst (Ends _) read
            (parse_statement-After m (suc (length p.cursor.tokens)) ready p h (omega arith))) in
      (a.resolved, omega (arith, a.used))
