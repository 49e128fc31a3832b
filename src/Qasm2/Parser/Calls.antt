-- ===== src/Qasm2/Parser/Calls.antt =====
-- frontends/qasm2/parser.py: gate calls at the top level, with broadcast over registers.
use dev_q.Prelude as P
use dev_q.Prelude.{
  ℕ, zero, suc, ◌+◌, ◌*◌, String, Bool, true, false, not, ◌&&◌, ◌||◌, List, [], ◌∷◌, Option, none,
  some, if◌then◌else◌, length, ltb, map, get_elem?,
}
use dev_q.Circuit.{max_from}
use dev_q.Qasm2.Outcome.{
  Outcome, Method, ok, out_of_fuel, give, error_at, lift, proceed, or_crash, index_error,
  sizes_disagree, ◌>>=◌, ◌>>◌,
}
use dev_q.Qasm2.Python.{Math}
use dev_q.Dict.{has}
use dev_q.Qasm2.Tokens.{id, peek, next, at_symbol, expect_symbol, expect_kind}
use dev_q.Qasm2.Parser.{Parser, on_cursor, self, ensure_circuit, parse_qubit_arg}
use dev_q.Qasm2.Parser.Inline.{emit_primitive, parse_param_list, inline_custom, max_levels}

-- `a[slot] if len(a) > 1 else a[0]` for each argument.
unfoldable pub resolve_slot : ℕ → List (List ℕ) → Outcome (List ℕ)
resolve_slot slot [] = ok []
resolve_slot slot (a ∷ rest) =
    proceed (or_crash (get_elem? a (if ltb 1 (length a) then slot else 0)) index_error)
      λ qubit. proceed (resolve_slot slot rest) λ qubits. ok (qubit ∷ qubits)

-- `max(widths) if widths else 1`
unfoldable pub broadcast_of : List (List ℕ) → ℕ
unfolding max_from
broadcast_of [] = 1
broadcast_of (a ∷ rest) = max_from (length a) (map length rest)

-- No width is other than one and `broadcast`.
unfoldable pub widths_agree : ℕ → List (List ℕ) → Bool
widths_agree broadcast [] = true
widths_agree broadcast (a ∷ rest) =
    (P.◌==◌ (length a) 1 || P.◌==◌ (length a) broadcast) && widths_agree broadcast rest

module _ {F : Type 0} (m : Math F) where
  unfoldable pub emit_slot : String → List F → List (List ℕ) → ℕ → ℕ → Method (Parser F) (Unit {0})
  unfolding resolve_slot inline_custom has emit_primitive
  emit_slot name params qubit_args line slot = do
    resolved ← lift (resolve_slot slot qubit_args)
    p ← self
    if has name p.gate_defs
        then inline_custom m max_levels name params resolved line
        else emit_primitive name params resolved line

  -- `for slot in range(broadcast)`, from `slot` on.
  unfoldable pub emit_slots :
      String → List F → List (List ℕ) → ℕ → ℕ → ℕ → Method (Parser F) (Unit {0})
  unfolding emit_slot
  emit_slots name params qubit_args line slot zero = give tt
  emit_slots name params qubit_args line slot (suc left) = do
    emit_slot name params qubit_args line slot
    emit_slots name params qubit_args line (suc slot) left

  unfoldable pub emit_gate : String → List F → List (List ℕ) → ℕ → Method (Parser F) (Unit {0})
  unfolding ensure_circuit emit_slots broadcast_of widths_agree
  emit_gate name params qubit_args line = do
    ensure_circuit
    let broadcast = broadcast_of qubit_args
    if widths_agree broadcast qubit_args
        then emit_slots name params qubit_args line 0 broadcast
        else error_at (sizes_disagree name) line

  -- The loop over comma-separated qubit arguments.
  unfoldable pub qubit_arguments : ℕ → Method (Parser F) (List (List ℕ))
  unfolding parse_qubit_arg
  qubit_arguments zero p = out_of_fuel
  qubit_arguments (suc fuel) p =
      let more = λ (qubits : List ℕ). do
        on_cursor next
        arguments ← qubit_arguments fuel
        give (qubits ∷ arguments)
      in (do
        qubits ← parse_qubit_arg m
        sep ← on_cursor peek
        if at_symbol "," sep then more qubits else give (qubits ∷ []))
        p

  -- `_parse_gate_call` at the top level, the only place that calls it.
  unfoldable pub parse_gate_call : Method (Parser F) (Unit {0})
  unfolding parse_param_list qubit_arguments emit_gate expect_kind expect_symbol
  parse_gate_call = do
    name_tok ← on_cursor (expect_kind id)
    params ← on_cursor (parse_param_list m [])
    p ← self
    arguments ← qubit_arguments (suc (length p.cursor.tokens))
    on_cursor (expect_symbol ";")
    emit_gate name_tok.value params arguments name_tok.line
