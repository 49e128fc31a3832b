-- ===== src/Alloc.antt =====
-- kernel/memory/allocators/base_allocator.py: what an allocator is given and what it answers.
-- The class hierarchy is a record of functions, so that a registered third-party allocator is a
-- value as well. An allocator's stash `_last_decision` is part of the answer of the call that sets
-- it: whoever reads the stash reads it directly after that call.
pub mod Placement
pub mod Filtering
pub mod Static
pub mod Graph
pub mod Progress
pub mod NoiseGraph
use dev_q.Prelude.{
  ℕ, suc, String, Bool, true, false, List, [], ◌∷◌, Option, none, some, map, length, ltb, range,
  range_from, if◌then◌else◌,
}
use dev_q.Circuit.{Circuit}
use dev_q.Device.{Device}
use dev_q.Pool
use dev_q.Pool.{Pool, Reserve, taken, refused, raises}

-- The three thresholds that travel together; `none` is no filtering.
pub record Limits (F : Type 0) : Type 0 where
  pub max_qubit_error : Option F
  pub max_edge_error : Option F
  pub max_1q_gate_error : Option F

-- Why one device can never run a circuit, in place of the text that the program makes of it.
pub data DeviceReason (F : Type 0) : Type 0 where
  no_classical_feedback : DeviceReason F
  no_mid_circuit_measurement : DeviceReason F
  too_few_qubits : (required num_qubits : ℕ) → DeviceReason F
  too_few_eligible : (required eligible : ℕ) (limits : Limits F) → DeviceReason F
  no_connected_block : (required : ℕ) (limits : Limits F) → DeviceReason F

-- A dict from virtual to physical qubits, in insertion order.
abbrev pub Mapping : Type 0
Mapping = List (ℕ × ℕ)

unfoldable pub values : Mapping → List ℕ
values m = map (λ e. e.1) m

-- `{v: p for v, p in enumerate(selected)}`, counting from `i`.
unfoldable pub enumerate_from : ℕ → List ℕ → Mapping
enumerate_from i [] = []
enumerate_from i (p ∷ ps) = (i, p) ∷ enumerate_from (suc i) ps

pub record BlockTerms (F : Type 0) : Type 0 where
  pub qubit_error_sum : F
  pub edge_error_sum : F

pub record BlockWeights (F : Type 0) : Type 0 where
  pub qubit_error_weight : F
  pub edge_error_weight : F

pub record BlockDetail (F : Type 0) : Type 0 where
  pub terms : BlockTerms F
  pub block_cost : F
  pub weights : BlockWeights F

-- The candidate blocks of one allocation, with their raw terms.
abbrev pub Decision : Type 0 → Type 0
Decision F = List (List ℕ × BlockTerms F)

-- `cannot_place` is AllocationError; `bug` is any other exception. By the docstring of `allocate` a
-- call that returns gives a dict, so None is no case.
pub data Attempt : Type 0 where
  placed : Mapping → Attempt
  cannot_place bug : Attempt

-- The outcome of a call, the pool as the call leaves it, and the stash.
pub record Allocation (F : Type 0) : Type 0 where
  pub attempt : Attempt
  pub pool : Pool
  pub decision : Option (Decision F)

-- `scores` is `explain_recorded` of an allocator that scores (`is_sweepable`).
pub record Allocator (F : Type 0) : Type 0 where
  pub allocate : Circuit F → Device F → Pool → Limits F → Allocation F
  pub feasible : Circuit F → Device F → Limits F → Option (DeviceReason F)
  pub scores : Option (Decision F → List (List ℕ × F × BlockDetail F))

module _ {F : Type 0} where
  -- How every shipped allocator ends: reserve the block, whatever `pool.allocate` returns, and
  -- map the virtual qubits to it in order.
  unfoldable pub reserve : Pool → List ℕ → Option (Decision F) → Reserve → Allocation F
  unfolding enumerate_from
  reserve pool block decision (taken pool') = record {
    attempt = placed (enumerate_from 0 block);
    pool = pool';
    decision = decision;
  }
  reserve pool block decision refused = record {
    attempt = placed (enumerate_from 0 block);
    pool = pool;
    decision = decision;
  }
  reserve pool block decision (raises pool') = record {
    attempt = bug;
    pool = pool';
    decision = decision;
  }

  unfoldable pub place : Pool → List ℕ → Option (Decision F) → Allocation F
  unfolding reserve Pool.allocate
  place pool block decision = reserve pool block decision (Pool.allocate pool block)

  unfoldable pub fail : Pool → Allocation F
  fail pool = record { attempt = cannot_place; pool = pool; decision = none }
