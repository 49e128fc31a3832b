-- ===== src/Memory/Contract.antt =====
-- The contract that kernel/memory/memory_manager.py holds an allocator to.
use dev_q.Prelude.{
  ℕ, ◌≡◌, refl, Bool, true, false, List, [], ◌∷◌, inl, inr, contains, select, is_empty,
  contains-count, IsDistinct, Bool-cases, arith, contains-select_of,
}
use dev_q.Numeric.{Float}
use dev_q.Circuit.{Circuit}
use dev_q.Device.{Device, edges}
use dev_q.Pool.{Pool}
use dev_q.Alloc.{
  Limits, BlockWeights, Mapping, values, Attempt, placed, cannot_place, bug, Allocator,
}
use dev_q.Alloc.Static.{static_allocator}
use dev_q.Alloc.Static.Sound.{static_allocate-IsSound}
use dev_q.Alloc.Graph.{graph_allocator}
use dev_q.Alloc.Graph.Sound.{graph_allocate-IsSound}
use dev_q.Alloc.NoiseGraph.{noise_graph_allocator}
use dev_q.Alloc.NoiseGraph.Sound.{HasNoLoop, noise_allocate-IsSound}
use dev_q.Alloc.Placement.{IsPlacement, IsSound}
use dev_q.Memory.{
  MemoryManager, Outcome, allocated, no_placement, failed, allocate, check_reserved, unreserved,
}

module _ {F : Type 0} ⦃fl : Float F⦄ where
  -- What a client may assume of an allocator on a device.
  pub record IsHonest (a : Allocator F) (d : Device F) : Type 0 where
    pub sound :
        (c : Circuit F) (pool : Pool) (l : Limits F)
        → IsDistinct pool.free_qubits
        → IsSound c d l pool (a.allocate c d pool l).attempt (a.allocate c d pool l).pool

  static_allocator-IsHonest : (d : Device F) → IsHonest static_allocator d
  unfolding static_allocator
  static_allocator-IsHonest d = record { sound = λ c pool l. static_allocate-IsSound c d pool l }

  pub graph_allocator-IsHonest : (d : Device F) → IsHonest graph_allocator d
  unfolding graph_allocator
  graph_allocator-IsHonest d = record { sound = λ c pool l. graph_allocate-IsSound c d pool l }

  noise_graph_allocator-IsHonest :
      (w : BlockWeights F) (d : Device F)
      → HasNoLoop (edges d)
      → IsHonest (noise_graph_allocator w) d
  unfolding noise_graph_allocator
  noise_graph_allocator-IsHonest w d loops = record {
    sound = λ c pool l dist. noise_allocate-IsSound w c d pool l dist loops;
  }

select-is_empty :
    (t : ℕ → Bool) (s : List ℕ) (q : ℕ)
    → is_empty (select t s) ≡ true
    → contains q s ≡ true
    → t q ≡ false
unfolding contains
select-is_empty t s q e h = elim (Bool-cases (t q)) [
  | inr f ↦ f
  | inl p ↦ absurd (empty (select t s) e (contains-select_of q t s h p))
]
  where
    empty : (xs : List ℕ) → is_empty xs ≡ true → contains q xs ≡ true → ⊥
    empty [] e h = cc
    empty (x ∷ xs) e h = cc

select-none :
    (t : ℕ → Bool) (s : List ℕ)
    → ((q : ℕ) → contains q s ≡ true → t q ≡ false)
    → is_empty (select t s) ≡ true
unfolding contains select
select-none t [] h = refl
select-none t (x ∷ s) h =
    let here : t x ≡ false = h x (ground arith) in
    rw here (select-none t s (λ q m. h q (ground arith)))

check_reserved-reserved :
    (attempt : Attempt) (pool : Pool) (m : Mapping) (q : ℕ)
    → check_reserved pool attempt ≡ allocated m
    → contains q (values m) ≡ true
    → contains q pool.free_qubits ≡ false
unfolding check_reserved
check_reserved-reserved (placed n) pool m q e h = elim (Bool-cases (is_empty (unreserved pool n))) [
  | inr some_free ↦ absurd (ground (arith, some_free))
  | inl all_gone ↦
      let same : n ≡ m = ground (arith, all_gone) in
      select-is_empty (λ p. contains p pool.free_qubits) (values n) q all_gone (rw same h)
]
check_reserved-reserved cannot_place pool m q e h = absurd (cc)
check_reserved-reserved bug pool m q e h = absurd (cc)

-- Whatever the allocator does, a mapping that `allocate` returns names only qubits that the pool
-- no longer holds as free.
pub allocate-reserved :
    {F : Type 0} (mm : MemoryManager F) (c : Circuit F) (l : Limits F) (m : Mapping) (q : ℕ)
    → (allocate mm c l).outcome ≡ allocated m
    → contains q (values m) ≡ true
    → contains q (allocate mm c l).manager.pool.free_qubits ≡ false
unfolding allocate
allocate-reserved mm c l m q e h =
    let a = mm.allocator.allocate c mm.device mm.pool l in
    check_reserved-reserved a.attempt a.pool m q e h

module _ {F : Type 0} ⦃fl : Float F⦄ where
  -- Either a placement, or AllocationError with the manager as it was.
  abbrev pub IsClean : Circuit F → Limits F → MemoryManager F → Outcome → MemoryManager F → Type 0
  IsClean c l before (allocated m) after =
      IsPlacement c before.device l before.pool (values m) after.pool
      × (after ≡ record before { pool = after.pool })
  IsClean c l before no_placement after = after ≡ before
  IsClean c l before (failed e) after = ⊥

  -- The block that a placement reserved is not in the pool any more.
  placement-unreserved :
      {c : Circuit F} {d : Device F} {l : Limits F} {before after : Pool} (m : Mapping)
      → IsDistinct before.free_qubits
      → IsPlacement c d l before (values m) after
      → is_empty (unreserved after m) ≡ true
  unfolding unreserved
  placement-unreserved {after = after} m dist p =
      select-none (λ q. contains q after.free_qubits) (values m)
        λ q h. elim (Bool-cases (contains q after.free_qubits)) [
          | inr out ↦ out
          | inl held ↦ absurd (
              omega (
                arith,
                dist q,
                p.reserved q,
                contains-count q (values m) h,
                contains-count q after.free_qubits held,
              ))
        ]

  check_reserved-IsClean :
      (c : Circuit F) (l : Limits F) (mm : MemoryManager F) (attempt : Attempt) (pool : Pool)
      → IsDistinct mm.pool.free_qubits
      → IsSound c mm.device l mm.pool attempt pool
      → IsClean c l mm (check_reserved pool attempt) (record mm { pool = pool })
  unfolding check_reserved
  check_reserved-IsClean c l mm (placed m) pool dist p =
      rw (placement-unreserved m dist p) (p, refl)
  check_reserved-IsClean c l mm cannot_place pool dist p = rw p
  check_reserved-IsClean c l mm bug pool dist p = absurd p

-- With an allocator that keeps its contract, `allocate` either reserves exactly a placement or
-- reports AllocationError with the manager as it was. It never raises the contract error.
pub allocate-IsClean :
    {F : Type 0} ⦃fl : Float F⦄ (mm : MemoryManager F) (c : Circuit F) (l : Limits F)
    → IsHonest mm.allocator mm.device
    → IsDistinct mm.pool.free_qubits
    → IsClean c l mm (allocate mm c l).outcome (allocate mm c l).manager
unfolding allocate
allocate-IsClean mm c l honest dist =
    let a = mm.allocator.allocate c mm.device mm.pool l in
    check_reserved-IsClean c l mm a.attempt a.pool dist (honest.sound c mm.pool l dist)
