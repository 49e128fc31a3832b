-- ===== src/Alloc/Static/Feasible.antt =====
-- The feasibility answer of the static allocator is exact.
use dev_q.Prelude.{
  ℕ, ◌≤◌, ◌<◌, ◌≡◌, refl, true, false, List, none, some, inl, inr, take, length, ltb, contains,
  count, range, count-sort_by, count-take-le, count-select-le, contains-count, not_contains-count,
  Bool-cases, if◌then◌else◌, arith,
}
use dev_q.Numeric.{Float}
use dev_q.Circuit.{Circuit}
use dev_q.Device.{Device}
use dev_q.Pool.{Pool, new_pool, available}
use dev_q.Alloc.{Limits, DeviceReason, Mapping, placed, cannot_place, fail}
use dev_q.Alloc.Filtering.{is_eligible, eligible_qubits, base_feasible}
use dev_q.Alloc.Progress.{IsComplete, place-placed, length-count-le, count-select}
use dev_q.Alloc.Static.{usable_in_order, static_allocate, static_allocator}

module _ {F : Type 0} ⦃fl : Float F⦄ (d : Device F) (l : Limits F) where
  count-eligible :
      (q : ℕ) (s : List ℕ)
      → count q (eligible_qubits d s l) ≡ (if is_eligible d l q then count q s else 0)
  unfolding eligible_qubits
  count-eligible q s = count-select q (is_eligible d l) s

  -- The usable qubits are the free ones that are eligible.
  count-usable :
      (q : ℕ) (pool : Pool)
      → count q (usable_in_order d pool l) ≡ count q (eligible_qubits d pool.free_qubits l)
  unfolding usable_in_order available
  count-usable q pool = ground (
    arith,
    count-select q (λ p. contains p (eligible_qubits d (available pool) l)) (available pool),
    count-eligible q (available pool),
    count-eligible q pool.free_qubits,
    count-sort_by (λ n. n) q pool.free_qubits,
    contains-count q (eligible_qubits d (available pool) l),
    not_contains-count q (eligible_qubits d (available pool) l),
  )

  pub base_feasible-none :
      (c : Circuit F)
      → base_feasible c d l ≡ none
      → ltb (length (eligible_qubits d (range d.num_qubits) l)) c.num_qubits ≡ false
  unfolding base_feasible
  base_feasible-none c h =
      elim (Bool-cases (ltb (length (eligible_qubits d (range d.num_qubits) l)) c.num_qubits)) [
        | inr enough ↦ enough
        | inl few ↦ absurd (cc (rw (few, base_feasible) at h))
      ]

  base_feasible-some :
      (c : Circuit F) (reason : DeviceReason F)
      → base_feasible c d l ≡ some reason
      → length (eligible_qubits d (range d.num_qubits) l) < c.num_qubits
  unfolding base_feasible
  base_feasible-some c reason h =
      elim (Bool-cases (ltb (length (eligible_qubits d (range d.num_qubits) l)) c.num_qubits)) [
        | inl few ↦ ground (arith, few)
        | inr enough ↦ absurd (cc (rw (enough, base_feasible) at h))
      ]

-- A circuit that the static allocator calls feasible is placed on every pool that holds each qubit
-- of the device as free, in whatever order.
pub static_allocate-feasible :
    {F : Type 0} ⦃fl : Float F⦄ (c : Circuit F) (d : Device F) (pool : Pool) (l : Limits F)
    → ((q : ℕ) → count q (range d.num_qubits) ≤ count q pool.free_qubits)
    → base_feasible c d l ≡ none
    → (m : Mapping) × ((static_allocate c d pool l).attempt ≡ placed m)
unfolding static_allocate
static_allocate-feasible c d pool l whole feasible =
    let usable = usable_in_order d pool l in
    let same : length (eligible_qubits d (range d.num_qubits) l) ≤ length usable =
      length-count-le (eligible_qubits d (range d.num_qubits) l) usable (λ q. ground (
        arith,
        whole q,
        count-usable d l q pool,
        count-eligible d l q pool.free_qubits,
        count-eligible d l q (range d.num_qubits),
      )) in
    let enough : ltb (length usable) c.num_qubits ≡ false =
      ground (arith, same, base_feasible-none d l c feasible) in
    rw enough (
      place-placed pool (take c.num_qubits usable) none (λ q. omega (
        arith,
        count-take-le q c.num_qubits usable,
        count-usable d l q pool,
        count-select-le q (is_eligible d l) pool.free_qubits,
      )))

static_allocator-IsComplete :
    {F : Type 0} ⦃fl : Float F⦄ (d : Device F) → IsComplete static_allocator d
unfolding static_allocator new_pool
static_allocator-IsComplete d = record {
  places = λ c l some_qubits feasible.
      static_allocate-feasible c d (new_pool d.num_qubits) l (λ q. omega arith) feasible;
}

-- A circuit that the static allocator calls infeasible is placed on no part of the device: with
-- any of its qubits free, the allocator raises AllocationError.
pub static_allocate-infeasible :
    {F : Type 0} ⦃fl : Float F⦄ (c : Circuit F) (d : Device F) (pool : Pool) (l : Limits F)
    (reason : DeviceReason F)
    → ((q : ℕ) → count q pool.free_qubits ≤ count q (range d.num_qubits))
    → base_feasible c d l ≡ some reason
    → (static_allocate c d pool l).attempt ≡ cannot_place
unfolding static_allocate
static_allocate-infeasible c d pool l reason part infeasible =
    let usable = usable_in_order d pool l in
    let few : length usable ≤ length (eligible_qubits d (range d.num_qubits) l) =
      length-count-le usable (eligible_qubits d (range d.num_qubits) l) (λ q. ground (
        arith,
        part q,
        count-usable d l q pool,
        count-eligible d l q pool.free_qubits,
        count-eligible d l q (range d.num_qubits),
      )) in
    let short : ltb (length usable) c.num_qubits ≡ true =
      ground (arith, few, base_feasible-some d l c reason infeasible) in
    rw short (unfold fail in refl)
