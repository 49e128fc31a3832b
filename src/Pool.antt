-- ===== src/Pool.antt =====
-- kernel/memory/qubit_pool.py: which physical qubits are free. A Python set is a list of its
-- members in iteration order, so nothing is proved from one particular order.
pub mod Conservation
pub mod AbstractSet
use dev_q.Prelude.{
  ℕ, Bool, true, false, List, [], ◌∷◌, contains, add, discard, range, sorted, sort_by, range_from,
}

-- `temporary` tells the class of the object: QubitPool, or the TempPool that
-- kernel/scheduler/packing_scheduler.py passes to an allocator in its place.
pub record Pool : Type 0 where
  pub free_qubits : List ℕ
  pub temporary : Bool

-- What `allocate` does: it reserves, or returns False, or raises, with the pool as it leaves it.
-- A KeyError comes of `remove` at a qubit that an earlier one of the same call took.
pub data Reserve : Type 0 where
  taken : Pool → Reserve
  refused : Reserve
  raises : Pool → Reserve

unfoldable pub new_pool : ℕ → Pool
unfolding range_from
new_pool num_qubits = record { free_qubits = range num_qubits; temporary = false }

unfoldable pub all_free : List ℕ → List ℕ → Bool
unfolding contains
all_free free [] = true
all_free free (q ∷ qs) = elim (contains q free) [ true ↦ all_free free qs | false ↦ false ]

unfoldable pub remove_each : Pool → List ℕ → Reserve
unfolding contains discard
remove_each pool [] = taken pool
remove_each pool (q ∷ qs) = elim (contains q pool.free_qubits) [
  | true ↦ remove_each (record pool { free_qubits = discard q pool.free_qubits }) qs
  | false ↦ raises pool
]

-- Not every qubit is free: QubitPool returns False, TempPool raises.
refuse : Pool → Bool → Reserve
refuse pool false = refused
refuse pool true = raises pool

unfoldable pub allocate : Pool → List ℕ → Reserve
unfolding all_free remove_each refuse
allocate pool qubits = elim (all_free pool.free_qubits qubits) [
  | true ↦ remove_each pool qubits
  | false ↦ refuse pool pool.temporary
]

unfoldable pub add_each : List ℕ → List ℕ → List ℕ
unfolding add
add_each free [] = free
add_each free (q ∷ qs) = add_each (add q free) qs

unfoldable pub free : Pool → List ℕ → Pool
unfolding add_each
free pool qubits = record pool { free_qubits = add_each pool.free_qubits qubits }

unfoldable pub available : Pool → List ℕ
unfolding sort_by
available pool = sorted pool.free_qubits
