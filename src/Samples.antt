-- ===== src/Samples.antt =====
-- Small devices, circuits and jobs, on which the theorems are applied and the definitions run.
-- Error rates and weights are natural numbers in units of 1/10000.
pub mod Allocators
pub mod Schedulers
pub mod Kernels
pub mod Packing
pub mod Circuits
pub mod Sources
pub mod Settings
use dev_q.Prelude.{
  ℕ, zero, suc, ◌+◌, ◌-◌, ◌*◌, ◌≡◌, refl, Bool, true, false, List, [], ◌∷◌, Option, none, some, ltb,
  leb, ◌==◌, ==_iff, if◌then◌else◌, arith,
}
use Prim.Native.Nat.{◌/◌, ◌^◌}
use dev_q.Numeric.{Float, IsOrdered}
use dev_q.Circuit.{Circuit, Gate, gate, measure}
use dev_q.Device.{Device}
use dev_q.Pool.{Pool}
use dev_q.Alloc.{Limits, BlockWeights}
use dev_q.Process.{Request}

instance abbrev pub nat_float : Float ℕ
nat_float = record {
  decimal = λ m e. m * 10 ^ (4 - e);
  inf = 1_000_000_000_000;
  of_count = λ n. n * 10000;
  of_integer = λ n. if ltb n 100000000 then some (n * 10000) else none;
  plus = λ x y. x + y;
  minus = λ x y. x - y;
  times = λ x y. x * y / 10000;
  divide = λ x y. x * 10000 / y;
  at_most = leb;
  less = ltb;
  equal = ◌==◌;
}

pub nat_float-IsOrdered : IsOrdered nat_float
nat_float-IsOrdered = record {
  reflexive = λ x. ground arith;
  transitive = λ x y z p q. ground arith;
  comparable = λ x y p q. ground arith;
  equal_iff = λ x y. ==_iff x y;
}

abbrev pub no_limits : Limits ℕ
no_limits = record { max_qubit_error = none; max_edge_error = none; max_1q_gate_error = none }

-- Three qubits in a line; the middle one reads out best.
abbrev pub line : Device ℕ
line = record {
  kind = some "line";
  num_qubits = 3;
  neighbors = λ q. if q == 1 then 0 ∷ 2 ∷ [] else 1 ∷ [];
  error_map = (0, 300) ∷ (1, 100) ∷ (2, 200) ∷ [];
  edge_error_map = ((0, 1), 500) ∷ ((1, 2), 400) ∷ [];
  gate_error_map = [];
  t2_map = [];
  gate_1q_duration = none;
  gate_2q_duration = none;
  index = some 0;
  name = none;
  supports_dynamic = λ c. false;
  supports_mid_circuit_measurement = λ c. false;
}

abbrev pub bell : Circuit ℕ
bell = record {
  num_qubits = 2;
  num_clbits = 2;
  instructions =
      gate (record { gate = "h"; qubits = 0 ∷ []; params = [] })
      ∷ gate (record { gate = "cx"; qubits = 0 ∷ 1 ∷ []; params = [] })
      ∷ measure 0 0
      ∷ measure 1 1
      ∷ [];
  cregs = [];
  unrunnable_reason = none;
}

abbrev pub line_pool : Pool
line_pool = record { free_qubits = 0 ∷ 1 ∷ 2 ∷ []; temporary = false }

abbrev pub weights : BlockWeights ℕ
weights = record { qubit_error_weight = 1000; edge_error_weight = 9000 }

abbrev pub request : Request ℕ
request = record {
  circuit = bell;
  limits = no_limits;
  exec_on = none;
  no_exec_on = none;
  shots = some 100;
}
