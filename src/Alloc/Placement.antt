-- ===== src/Alloc/Placement.antt =====
-- What a caller may expect of an allocator, and the last step that all allocators share.
use dev_q.Prelude.{
  ℕ, suc, ◌+◌, ◌≤◌, ◌≡◌, refl, ap, true, List, [], ◌∷◌, Option, length, contains, count, IsDistinct,
  arith,
}
use dev_q.Numeric.{Float}
use dev_q.Circuit.{Circuit}
use dev_q.Device.{Device}
use dev_q.Pool.{Pool}
use dev_q.Pool.Conservation.{allocate-taken, count-allocate, allocate-temporary}
use dev_q.Alloc.{
  Limits, values, enumerate_from, Attempt, placed, cannot_place, bug, Decision, reserve, place,
}
use dev_q.Alloc.Filtering.{is_eligible}

pub values-enumerate_from : (i : ℕ) (block : List ℕ) → values (enumerate_from i block) ≡ block
unfolding values enumerate_from
values-enumerate_from i [] = refl
values-enumerate_from i (p ∷ ps) = ap (λ l. p ∷ l) (values-enumerate_from (suc i) ps)

module _ {F : Type 0} ⦃fl : Float F⦄ where
  -- A block of the right size, of distinct eligible qubits, and the pool without exactly these.
  pub record IsPlacement (c : Circuit F) (d : Device F) (l : Limits F) (before : Pool)
      (block : List ℕ) (after : Pool) : Type 0 where
    pub size : length block ≡ c.num_qubits
    pub distinct : IsDistinct block
    pub eligible : (q : ℕ) → contains q block ≡ true → is_eligible d l q ≡ true
    pub reserved : (q : ℕ) → count q after.free_qubits + count q block ≡ count q before.free_qubits
    pub same_class : after.temporary ≡ before.temporary

  -- Either such a block, or AllocationError with the pool untouched; no other exception.
  abbrev pub IsSound : Circuit F → Device F → Limits F → Pool → Attempt → Pool → Type 0
  IsSound c d l before (placed m) after = IsPlacement c d l before (values m) after
  IsSound c d l before cannot_place after = after ≡ before
  IsSound c d l before bug after = ⊥

  -- A block that an allocator may choose.
  pub record IsChoice (c : Circuit F) (d : Device F) (l : Limits F) (pool : Pool) (block : List ℕ)
      : Type 0 where
    pub size : length block ≡ c.num_qubits
    pub free : (q : ℕ) → count q block ≤ count q pool.free_qubits
    pub eligible : (q : ℕ) → contains q block ≡ true → is_eligible d l q ≡ true

module _ {F : Type 0} ⦃fl : Float F⦄ {c : Circuit F} {d : Device F} {l : Limits F}
    {pool : Pool} where
  pub place-IsSound :
      (block : List ℕ) (decision : Option (Decision F))
      → IsDistinct pool.free_qubits
      → IsChoice c d l pool block
      → IsSound c d l pool (place pool block decision).attempt (place pool block decision).pool
  unfolding place
  place-IsSound block decision dist choice =
      let (p, e) = allocate-taken pool block choice.free in
      rw (e, reserve)
        (rw (values-enumerate_from 0 block) (record {
          size = choice.size;
          distinct = λ q. omega (arith, choice.free q, dist q);
          eligible = choice.eligible;
          reserved = count-allocate pool p block e;
          same_class = allocate-temporary pool p block e;
        }))
