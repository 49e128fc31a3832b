-- ===== src/Memory.antt =====
-- kernel/memory/memory_manager.py: the entry point for allocation on one device, which holds the
-- allocator to its contract, and the classification of what a device can never run.
pub mod Contract
use dev_q.Prelude.{ℕ, ◌&&◌, not, List, Option, some, select, contains, is_empty, if◌then◌else◌}
use dev_q.Errors.{Exception, allocator_contract_error, allocator_bug}
use dev_q.Circuit.{Circuit, is_dynamic, has_mid_circuit_measurement}
use dev_q.Device.{Device}
use dev_q.Pool
use dev_q.Pool.{Pool, new_pool}
use dev_q.Alloc.{
  Limits, DeviceReason, no_classical_feedback, no_mid_circuit_measurement, Mapping, values,
  Decision, Attempt, placed, cannot_place, bug, Allocator,
}

pub record MemoryManager (F : Type 0) : Type 0 where
  pub device : Device F
  pub pool : Pool
  pub allocator : Allocator F

-- A mapping, AllocationError, or any other exception.
pub data Outcome : Type 0 where
  allocated : Mapping → Outcome
  no_placement : Outcome
  failed : Exception → Outcome

-- A call of `allocate`: the manager with its pool as the call leaves it, and the stash.
pub record Call (F : Type 0) : Type 0 where
  pub outcome : Outcome
  pub manager : MemoryManager F
  pub decision : Option (Decision F)

-- The physical qubits of a mapping that the pool still holds as free.
unfoldable pub unreserved : Pool → Mapping → List ℕ
unfolding select contains values
unreserved pool m = select (λ p. contains p pool.free_qubits) (values m)

unfoldable pub check_reserved : Pool → Attempt → Outcome
unfolding unreserved
check_reserved pool (placed m) =
    if is_empty (unreserved pool m) then allocated m else failed allocator_contract_error
check_reserved pool cannot_place = no_placement
check_reserved pool bug = failed allocator_bug

module _ {F : Type 0} where
  unfoldable pub new_manager : Device F → Allocator F → MemoryManager F
  unfolding new_pool
  new_manager d a = record { device = d; pool = new_pool d.num_qubits; allocator = a }

  unfoldable pub allocate : MemoryManager F → Circuit F → Limits F → Call F
  unfolding check_reserved
  allocate mm c l =
      let a = mm.allocator.allocate c mm.device mm.pool l in
      record {
        outcome = check_reserved a.pool a.attempt;
        manager = record mm { pool = a.pool };
        decision = a.decision;
      }

  unfoldable pub unsatisfiable_reason :
      MemoryManager F → Circuit F → Limits F → Option (DeviceReason F)
  unfolding is_dynamic has_mid_circuit_measurement
  unsatisfiable_reason mm c l =
      if is_dynamic c && not (mm.device.supports_dynamic c)
      then some no_classical_feedback
      else if has_mid_circuit_measurement c && not (mm.device.supports_mid_circuit_measurement c)
      then some no_mid_circuit_measurement
      else mm.allocator.feasible c mm.device l

  unfoldable pub free : MemoryManager F → List ℕ → MemoryManager F
  unfolding Pool.free
  free mm qubits = record mm { pool = Pool.free mm.pool qubits }
