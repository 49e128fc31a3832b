-- ===== src/Alloc/Static/Sound.antt =====
-- The static allocator keeps the contract of base_allocator.py.
use dev_q.Prelude.{
  ℕ, ◌≤◌, ◌≡◌, refl, true, inl, inr, none, contains, count, take, length, ltb, length-take,
  count-take-le, count-select-le, count-sort_by, contains-take, contains-select, IsDistinct,
  Bool-cases, arith,
}
use dev_q.Numeric.{Float}
use dev_q.Circuit.{Circuit}
use dev_q.Device.{Device}
use dev_q.Pool.{Pool, available}
use dev_q.Alloc.{Limits}
use dev_q.Alloc.Filtering.{eligible_qubits, is_eligible}
use dev_q.Alloc.Static.{usable_in_order, static_allocate}
use dev_q.Alloc.Placement.{IsSound, place-IsSound}

module _ {F : Type 0} ⦃fl : Float F⦄ (d : Device F) (l : Limits F) (pool : Pool) where
  count-usable_in_order-le : (q : ℕ) → count q (usable_in_order d pool l) ≤ count q pool.free_qubits
  unfolding usable_in_order available
  count-usable_in_order-le q = omega (
    arith,
    count-select-le q (λ p. contains p (eligible_qubits d (available pool) l)) (available pool),
    count-sort_by (λ n. n) q pool.free_qubits,
  )

  usable_in_order-eligible :
      (q : ℕ) → contains q (usable_in_order d pool l) ≡ true → is_eligible d l q ≡ true
  unfolding usable_in_order eligible_qubits
  usable_in_order-eligible q h =
      let allowed =
        contains-select q (λ p. contains p (eligible_qubits d (available pool) l)) (available pool)
          h in
      (contains-select q (is_eligible d l) (available pool) allowed.1).1

-- On a pool without repetitions the static allocator either reserves exactly a block of the
-- circuit's size, of distinct qubits within the per-qubit thresholds, or raises AllocationError
-- and leaves the pool as it was; it never raises anything else.
pub static_allocate-IsSound :
    {F : Type 0} ⦃fl : Float F⦄ (c : Circuit F) (d : Device F) (pool : Pool) (l : Limits F)
    → IsDistinct pool.free_qubits
    → IsSound c d l pool (static_allocate c d pool l).attempt (static_allocate c d pool l).pool
unfolding static_allocate
static_allocate-IsSound c d pool l dist =
    elim (Bool-cases (ltb (length (usable_in_order d pool l)) c.num_qubits)) [
      | inl few ↦ rw (few) refl
      | inr enough ↦ rw (enough) (
          place-IsSound (take c.num_qubits (usable_in_order d pool l)) none dist (record {
            size = length-take c.num_qubits (usable_in_order d pool l) (ground arith);
            free = λ q. omega (
              arith,
              count-take-le q c.num_qubits (usable_in_order d pool l),
              count-usable_in_order-le d l pool q,
            );
            eligible = λ q h.
                usable_in_order-eligible d l pool q
                  (contains-take q c.num_qubits (usable_in_order d pool l) h);
          }))
    ]
