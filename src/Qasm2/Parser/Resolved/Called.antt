-- ===== src/Qasm2/Parser/Resolved/Called.antt =====
-- frontends/qasm2/parser.py: the arguments of a statement, against the parser's invariant. They name
-- declared registers, and a broadcast reads each within its width.
use dev_q.Prelude.{
  ℕ, zero, suc, ◌+◌, ◌≤◌, ◌<◌, String, Bool, true, List, [], ◌∷◌, ◌≡◌, refl, length, get_elem?, All,
  All-map, arith, if◌then◌else◌, ltb,
}
use dev_q.Qasm2.Outcome.{or_crash, index_error, value_error, overflow_error}
use dev_q.Qasm2.Python.{Math}
use dev_q.Dict.{lookup}
use dev_q.Qasm2.Tokens.{id, number, at_symbol, first_or, expect_kind, expect_symbol}
use dev_q.Qasm2.Ends.{
  Ends, returned, refused, no_number, infinite, Ends-choice, Ends-when_found, Ends-proceed,
  Ends-lift, Ends-or_crash,
}
use dev_q.Qasm2.Ends.Cursor.{expect_kind-Consumed, expect_symbol-Consumed, rest-le}
use dev_q.Qasm2.Parser.{
  Parser, span, int_of_text, parse_index, resolve_qubit, resolve_clbit, parse_qubit_arg,
  parse_creg_arg,
}
use dev_q.Qasm2.Parser.Calls.{resolve_slot, widths_agree}
use dev_q.Qasm2.Parser.Layout.{Below, Below-weaken, lookup-IsWithin, span-Below, length-span}
use dev_q.Qasm2.Parser.Resolved.{
  IsResolved, After, Any, After-then, After-advance, advance, advance-IsResolved, on_cursor-After,
  stay,
}

-- The indices are declared, and there is one at least.
abbrev pub Declares : ℕ → List ℕ → Type 0
Declares n qs = Below n qs × (0 < length qs)

module _ {F : Type 0} (m : Math F) where
  pub int_of_text-Ends : (text : String) → Ends (λ n. Unit {0}) (int_of_text m text)
  unfolding int_of_text
  int_of_text-Ends text =
      Ends-proceed _ _ _ (Ends-or_crash (m.float_of text) value_error no_number)
        λ value q. Ends-or_crash (m.int_of value) overflow_error infinite

  parse_index-After :
      (ready : Bool) (p : Parser F)
      → IsResolved ready p
      → Ends (After ready p 1 Any) (parse_index m p)
  unfolding parse_index
  parse_index-After ready p h =
      let least = rest-le p.cursor.tokens in
      After-advance ready p 1 1 Any _ (omega arith) (
        After-then _ ready ready (advance p) 0 1 1 Any Any _
          (on_cursor-After ready (advance p) 1 (expect_kind number) (advance-IsResolved ready p h)
            (expect_kind-Consumed number (advance p).cursor refl))
          (λ s b.
            Ends-lift _ (int_of_text m s.0.value) s.1 _ (int_of_text-Ends s.0.value) λ index q.
              After-then _ ready ready s.1 0 1 0 Any Any _
                (on_cursor-After ready s.1 1 (expect_symbol "]") b.resolved
                  (expect_symbol-Consumed "]" s.1.cursor))
                (λ t c. returned _ (stay ready t.1 _ _ c.resolved tt)) (omega arith))
          (omega arith))

  resolve_qubit-After :
      (ready : Bool) (name : String) (index line : ℕ) (p : Parser F)
      → IsResolved ready p
      → Ends (After ready p 0 (λ qubit q. qubit < q.num_qubits)) (resolve_qubit name index line p)
  unfolding resolve_qubit
  resolve_qubit-After ready name index line p h =
      Ends-when_found (lookup name p.qregs) _ _ p
        (λ r found.
          let within = lookup-IsWithin name 0 p.qregs p.num_qubits r h.qregs_out found in
          Ends-choice (ltb index r.1) _ _ p
            (λ t. returned _ (stay ready p _ (r.0 + index) h (ground arith))) (λ t. refused _ _))
        (λ missing. refused _ _)

  resolve_clbit-After :
      (ready : Bool) (name : String) (index line : ℕ) (p : Parser F)
      → IsResolved ready p
      → Ends (After ready p 0 (λ clbit q. clbit < q.num_clbits)) (resolve_clbit name index line p)
  unfolding resolve_clbit
  resolve_clbit-After ready name index line p h =
      Ends-when_found (lookup name p.cregs) _ _ p
        (λ r found.
          let within = lookup-IsWithin name 0 p.cregs p.num_clbits r h.cregs_out found in
          Ends-choice (ltb index r.1) _ _ p
            (λ t. returned _ (stay ready p _ (r.0 + index) h (ground arith))) (λ t. refused _ _))
        (λ missing. refused _ _)

  pub parse_qubit_arg-After :
      (ready : Bool) (p : Parser F)
      → IsResolved ready p
      → Ends (After ready p 1 (λ qubits q. Declares q.num_qubits qubits)) (parse_qubit_arg m p)
  unfolding parse_qubit_arg
  parse_qubit_arg-After ready p h =
      After-then _ ready ready p 0 1 1 Any _ _
        (on_cursor-After ready p 1 (expect_kind id) h (expect_kind-Consumed id p.cursor refl))
        (λ r a.
          Ends-choice (at_symbol "[" (first_or r.1.cursor.tokens r.1.cursor.end_line)) _ _ r.1
            (λ t.
              After-then _ ready ready r.1 0 1 0 Any _ _ (parse_index-After ready r.1 a.resolved)
                (λ s b.
                  After-then _ ready ready s.1 0 0 0 (λ qubit q. qubit < q.num_qubits) _ _
                    (resolve_qubit-After ready r.0.value s.0.0 s.0.1 s.1 b.resolved)
                    (λ u c.
                      returned _
                        (stay ready u.1 _ (u.0 ∷ []) c.resolved ((c.holds, tt), omega arith)))
                    (omega arith))
                (omega arith))
            (λ t.
              Ends-when_found (lookup r.0.value r.1.qregs) _ _ r.1
                (λ reg found.
                  let within =
                    lookup-IsWithin r.0.value 0 r.1.qregs r.1.num_qubits reg a.resolved.qregs_out
                      found in
                  returned _ (
                    stay ready r.1 _ (span reg.0 reg.1) a.resolved (
                      span-Below reg.0 reg.1 r.1.num_qubits within.0,
                      omega (arith, length-span reg.0 reg.1),
                    )))
                (λ missing. refused _ _)))
        (omega arith)

  pub parse_creg_arg-After :
      (ready : Bool) (p : Parser F)
      → IsResolved ready p
      → Ends (After ready p 1 (λ clbits q. Below q.num_clbits clbits)) (parse_creg_arg m p)
  unfolding parse_creg_arg
  parse_creg_arg-After ready p h =
      After-then _ ready ready p 0 1 1 Any _ _
        (on_cursor-After ready p 1 (expect_kind id) h (expect_kind-Consumed id p.cursor refl))
        (λ r a.
          Ends-choice (at_symbol "[" (first_or r.1.cursor.tokens r.1.cursor.end_line)) _ _ r.1
            (λ t.
              After-then _ ready ready r.1 0 1 0 Any _ _ (parse_index-After ready r.1 a.resolved)
                (λ s b.
                  After-then _ ready ready s.1 0 0 0 (λ clbit q. clbit < q.num_clbits) _ _
                    (resolve_clbit-After ready r.0.value s.0.0 s.0.1 s.1 b.resolved)
                    (λ u c. returned _ (stay ready u.1 _ (u.0 ∷ []) c.resolved (c.holds, tt)))
                    (omega arith))
                (omega arith))
            (λ t.
              Ends-when_found (lookup r.0.value r.1.cregs) _ _ r.1
                (λ reg found.
                  let within =
                    lookup-IsWithin r.0.value 0 r.1.cregs r.1.num_clbits reg a.resolved.cregs_out
                      found in
                  returned _ (
                    stay ready r.1 _ (span reg.0 reg.1) a.resolved
                      (span-Below reg.0 reg.1 r.1.num_clbits within.0)))
                (λ missing. refused _ _)))
        (omega arith)

-- Each argument declares its indices.
abbrev pub Arguments : ℕ → List (List ℕ) → Type 0
Arguments n = All (Declares n)

pub Arguments-weaken :
    (n k : ℕ) (args : List (List ℕ)) → n ≤ k → Arguments n args → Arguments k args
Arguments-weaken n k args le h = All-map _ _ args (λ qs d. (Below-weaken n k qs le d.0, d.1)) h

get_elem?-Below :
    (n : ℕ) (qs : List ℕ) (i : ℕ)
    → Below n qs
    → i < length qs
    → Ends (λ q. q < n) (or_crash (get_elem? qs i) index_error)
get_elem?-Below n [] i h lt = elim lt [ ]
get_elem?-Below n (q ∷ qs) zero h lt = returned q h.0
get_elem?-Below n (q ∷ qs) (suc i) h lt = get_elem?-Below n qs i h.1 (omega arith)

pub resolve_slot-Below :
    (n slot broadcast : ℕ) (args : List (List ℕ))
    → Arguments n args
    → widths_agree broadcast args ≡ true
    → slot < broadcast
    → Ends (Below n) (resolve_slot slot args)
unfolding resolve_slot widths_agree
resolve_slot-Below n slot broadcast [] h w lt = returned [] tt
resolve_slot-Below n slot broadcast (a ∷ rest) h w lt =
    Ends-proceed _ _ _
      (get_elem?-Below n a (if ltb 1 (length a) then slot else 0) h.0.0 (ground arith))
      λ q low.
        Ends-proceed _ _ _ (resolve_slot-Below n slot broadcast rest h.1 (ground arith) lt)
          λ qs lows. returned _ (low, lows)
