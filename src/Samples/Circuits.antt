-- ===== src/Samples/Circuits.antt =====
-- Circuits that the scan for mid-circuit measurement and the depth are run on.
use dev_q.Prelude.{ℕ, ◌≤◌, refl, [], ◌∷◌, none, length, contains, add}
use dev_q.Circuit.{Circuit, measure, reset, get_depth, gates_of, has_mid_circuit_measurement}
use dev_q.Circuit.Reuse.Operated.{IsReuse}
use dev_q.Circuit.Reuse.Exact.{has_mid_circuit_measurement-IsReuse}
use dev_q.Circuit.Depth.{get_depth-bounds}
use dev_q.Samples.{bell}

-- A qubit is reset after it was measured.
abbrev recycled : Circuit ℕ
recycled = record {
  num_qubits = 2;
  num_clbits = 1;
  instructions = measure 0 0 ∷ reset 1 ∷ reset 0 ∷ [];
  cregs = [];
  unrunnable_reason = none;
}

has_mid_circuit_measurement-IsReuse_example : IsReuse recycled.instructions
unfolding has_mid_circuit_measurement contains add
has_mid_circuit_measurement-IsReuse_example =
    (has_mid_circuit_measurement-IsReuse recycled (tt, (tt, (tt, tt)))).0 refl

get_depth-bounds_example : 2 ≤ length (gates_of bell.instructions)
unfolding get_depth
get_depth-bounds_example = (get_depth-bounds bell 2 refl).0
