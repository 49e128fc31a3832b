-- ===== src/Alloc/Static.antt =====
-- kernel/memory/allocators/static_allocator.py: the first eligible qubits.
pub mod Sound
pub mod Feasible
use dev_q.Prelude.{ℕ, List, none, select, contains, length, take, ltb, if◌then◌else◌}
use dev_q.Numeric.{Float}
use dev_q.Circuit.{Circuit}
use dev_q.Device.{Device}
use dev_q.Pool.{Pool, available}
use dev_q.Alloc.{Limits, Allocation, Allocator, place, fail}
use dev_q.Alloc.Filtering.{eligible_qubits, base_feasible}

module _ {F : Type 0} ⦃fl : Float F⦄ where
  -- `[q for q in free if q in allowed]`
  unfoldable pub usable_in_order : Device F → Pool → Limits F → List ℕ
  unfolding available eligible_qubits select contains
  usable_in_order d pool l =
      let allowed = eligible_qubits d (available pool) l in
      select (λ q. contains q allowed) (available pool)

  unfoldable pub static_allocate : Circuit F → Device F → Pool → Limits F → Allocation F
  unfolding usable_in_order place fail
  static_allocate c d pool l =
      let usable = usable_in_order d pool l in
      if ltb (length usable) c.num_qubits
      then fail pool
      else place pool (take c.num_qubits usable) none

  unfoldable pub static_allocator : Allocator F
  unfolding static_allocate base_feasible
  static_allocator = record { allocate = static_allocate; feasible = base_feasible; scores = none }
