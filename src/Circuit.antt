-- ===== src/Circuit.antt =====
-- circuits/circuit_rep.py: the circuit as one ordered stream of tagged operations.
-- An operation's dict is a constructor, and the body of a conditional is any operation. Gate
-- parameters are numbers of the type `F`.
pub mod Reuse
pub mod Depth
use dev_q.Prelude.{
  ℕ, ◌+◌, String, Bool, true, false, List, [], ◌∷◌, ◌++◌, Option, none, some, get_elem?, set, leb,
  if◌then◌else◌, contains, add, replicate,
}
use dev_q.Dict.{insert}
use dev_q.Errors.{Result, ok, raise, ◌>>=◌, or_raise, index_error, value_error}

pub record Gate (F : Type 0) : Type 0 where
  pub gate : String
  pub qubits : List ℕ
  pub params : List F

pub data Instruction (F : Type 0) : Type 0 where
  gate : Gate F → Instruction F
  measure : (qubit clbit : ℕ) → Instruction F
  reset : (qubit : ℕ) → Instruction F
  conditional : (clbits : List ℕ) (value : ℕ) (body : Instruction F) → Instruction F

pub record Circuit (F : Type 0) : Type 0 where
  pub num_qubits : ℕ
  pub num_clbits : ℕ
  pub instructions : List (Instruction F)
  pub cregs : List (String × (ℕ × ℕ))
  pub unrunnable_reason : Option String

-- What `find_mid_circuit_measurement` reports, in place of its text.
pub data MidCircuit : Type 0 where
  used_by_gate : (qubit : ℕ) (name : String) → MidCircuit
  used_by_conditional : (qubit : ℕ) (name : String) → MidCircuit
  reset_after : (qubit : ℕ) → MidCircuit

-- The `for q in ...: if q in measured: return ...` loops.
unfoldable pub first_in : List ℕ → List ℕ → Option ℕ
first_in measured [] = none
first_in measured (q ∷ qs) = if contains q measured then some q else first_in measured qs

module _ {F : Type 0} where
  unfoldable pub new_circuit : (num_qubits num_clbits : ℕ) → Circuit F
  new_circuit num_qubits num_clbits = record {
    num_qubits = num_qubits;
    num_clbits = num_clbits;
    instructions = [];
    cregs = [];
    unrunnable_reason = none;
  }

  -- `_cregs[name] = (base_index, size)`
  unfoldable pub add_creg : Circuit F → String → ℕ → ℕ → Circuit F
  unfolding insert
  add_creg c name base_index size = record c { cregs = insert name (base_index, size) c.cregs }

  append_instruction : Circuit F → Instruction F → Circuit F
  append_instruction c i = record c { instructions = c.instructions ++ i ∷ [] }

  unfoldable pub add_gate : Circuit F → String → List ℕ → List F → Circuit F
  unfolding append_instruction
  add_gate c name qubits params =
      append_instruction c (gate (record { gate = name; qubits = qubits; params = params }))

  unfoldable pub add_measure : Circuit F → ℕ → ℕ → Circuit F
  unfolding append_instruction
  add_measure c qubit clbit = append_instruction c (measure qubit clbit)

  unfoldable pub add_reset : Circuit F → ℕ → Circuit F
  unfolding append_instruction
  add_reset c qubit = append_instruction c (reset qubit)

  unfoldable pub add_conditional : Circuit F → List ℕ → ℕ → Instruction F → Circuit F
  unfolding append_instruction
  add_conditional c clbits value body = append_instruction c (conditional clbits value body)

  measurements_of : List (Instruction F) → List (ℕ × ℕ)
  measurements_of [] = []
  measurements_of (measure q c ∷ rest) = (q, c) ∷ measurements_of rest
  measurements_of (_ ∷ rest) = measurements_of rest

  -- The properties `measurements`, `resets` and `conditionals`: views of the stream.
  unfoldable pub measurements : Circuit F → List (ℕ × ℕ)
  unfolding measurements_of
  measurements c = measurements_of c.instructions

  resets_of : List (Instruction F) → List ℕ
  resets_of [] = []
  resets_of (reset q ∷ rest) = q ∷ resets_of rest
  resets_of (_ ∷ rest) = resets_of rest

  unfoldable pub resets : Circuit F → List ℕ
  unfolding resets_of
  resets c = resets_of c.instructions

  conditionals_of : List (Instruction F) → List (List ℕ × ℕ × Instruction F)
  conditionals_of [] = []
  conditionals_of (conditional clbits value body ∷ rest) =
      (clbits, value, body) ∷ conditionals_of rest
  conditionals_of (_ ∷ rest) = conditionals_of rest

  unfoldable pub conditionals : Circuit F → List (List ℕ × ℕ × Instruction F)
  unfolding conditionals_of
  conditionals c = conditionals_of c.instructions

  any_conditional : List (Instruction F) → Bool
  any_conditional [] = false
  any_conditional (conditional _ _ _ ∷ rest) = true
  any_conditional (_ ∷ rest) = any_conditional rest

  unfoldable pub is_dynamic : Circuit F → Bool
  unfolding any_conditional
  is_dynamic c = any_conditional c.instructions

  -- `body["qubits"]` and `body["gate"]` of a guarded gate; another guarded operation is not looked
  -- at.
  unfoldable pub guarded_qubits : Instruction F → List ℕ
  guarded_qubits (gate g) = g.qubits
  guarded_qubits _ = []

  guarded_name : Instruction F → String
  guarded_name (gate g) = g.gate
  guarded_name _ = ""

  -- The loop over the instructions, with the set of the qubits measured so far.
  unfoldable pub find_hazard : List ℕ → List (Instruction F) → Option MidCircuit
  unfolding first_in guarded_qubits guarded_name
  find_hazard measured [] = none
  find_hazard measured (measure q c ∷ rest) = find_hazard (add q measured) rest
  find_hazard measured (gate g ∷ rest) = elim (first_in measured g.qubits) [
    | some q ↦ some (used_by_gate q g.gate)
    | none ↦ find_hazard measured rest
  ]
  find_hazard measured (conditional clbits value body ∷ rest) =
      elim (first_in measured (guarded_qubits body)) [
        | some q ↦ some (used_by_conditional q (guarded_name body))
        | none ↦ find_hazard measured rest
      ]
  find_hazard measured (reset q ∷ rest) = elim (contains q measured) [
    | true ↦ some (reset_after q)
    | false ↦ find_hazard measured rest
  ]

  unfoldable pub find_mid_circuit_measurement : Circuit F → Option MidCircuit
  unfolding find_hazard
  find_mid_circuit_measurement c = find_hazard [] c.instructions

  unfoldable pub has_mid_circuit_measurement : Circuit F → Bool
  unfolding find_mid_circuit_measurement
  has_mid_circuit_measurement c = elim (find_mid_circuit_measurement c) [
    | some _ ↦ true
    | none ↦ false
  ]

  unfoldable pub gates_of : List (Instruction F) → List (Gate F)
  gates_of [] = []
  gates_of (gate g ∷ rest) = g ∷ gates_of rest
  gates_of (_ ∷ rest) = gates_of rest

-- `max(...)` of a non-empty sequence; of an empty one it raises ValueError.
unfoldable pub max_from : ℕ → List ℕ → ℕ
max_from m [] = m
max_from m (x ∷ xs) = max_from (if leb x m then m else x) xs

unfoldable pub max_of : List ℕ → Result ℕ
unfolding max_from
max_of [] = raise value_error
max_of (x ∷ xs) = ok (max_from x xs)

-- `[depths[q] for q in qubits]`: a qubit out of range raises IndexError.
unfoldable pub read_each : List ℕ → List ℕ → Result (List ℕ)
read_each depths [] = ok []
read_each depths (q ∷ qs) = do
  d ← or_raise (get_elem? depths q) index_error
  ds ← read_each depths qs
  ok (d ∷ ds)

unfoldable pub write_each : ℕ → List ℕ → List ℕ → List ℕ
write_each d [] depths = depths
write_each d (q ∷ qs) depths = write_each d qs (set depths q d)

module _ {F : Type 0} where
  -- The loop body of `get_depth`: the depths after one gate.
  unfoldable pub place_gate : List ℕ → Gate F → Result (List ℕ)
  unfolding read_each max_of write_each
  place_gate depths g = do
    levels ← read_each depths g.qubits
    current_max ← max_of levels
    ok (write_each (current_max + 1) g.qubits depths)

  unfoldable pub place_gates : List ℕ → List (Gate F) → Result (List ℕ)
  unfolding place_gate
  place_gates depths [] = ok depths
  place_gates depths (g ∷ gs) = do depths' ← place_gate depths g; place_gates depths' gs

  unfoldable pub get_depth : Circuit F → Result ℕ
  unfolding gates_of place_gates max_of
  get_depth c = elim (gates_of c.instructions) [
    | [] ↦ ok 0
    | g ∷ gs ↦ do depths ← place_gates (replicate c.num_qubits 0) (g ∷ gs); max_of depths
  ]
