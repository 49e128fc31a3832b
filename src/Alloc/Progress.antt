-- ===== src/Alloc/Progress.antt =====
-- What the feasibility answer of base_allocator.py promises about an idle device.
use dev_q.Prelude.{
  ℕ, suc, ◌≤◌, ◌<◌, ◌≡◌, refl, Bool, true, List, [], ◌∷◌, Option, none, length, contains, count,
  discard, select, count-discard, count-contains, if◌then◌else◌, arith,
}
use dev_q.Circuit.{Circuit}
use dev_q.Device.{Device}
use dev_q.Pool.{Pool, new_pool}
use dev_q.Pool.Conservation.{count-cons_self, count-cons_split, allocate-taken}
use dev_q.Alloc.{Limits, Mapping, Decision, placed, Allocator, reserve, place}

-- A circuit with a qubit that is feasible is placed on the pool with which the device is built.
pub record IsComplete {F : Type 0} (a : Allocator F) (d : Device F) : Type 0 where
  pub places :
      (c : Circuit F) (l : Limits F)
      → 0 < c.num_qubits
      → a.feasible c d l ≡ none
      → (m : Mapping) × ((a.allocate c d (new_pool d.num_qubits) l).attempt ≡ placed m)

-- A block of free qubits is placed.
pub place-placed :
    {F : Type 0} (pool : Pool) (block : List ℕ) (decision : Option (Decision F))
    → ((q : ℕ) → count q block ≤ count q pool.free_qubits)
    → (m : Mapping) × ((place pool block decision).attempt ≡ placed m)
unfolding place
place-placed pool block decision free =
    let (p, e) = allocate-taken pool block free in rw (e, reserve) (_, refl)

length-discard : (x : ℕ) (t : List ℕ) → contains x t ≡ true → suc (length (discard x t)) ≡ length t
unfolding contains discard
length-discard x [] h = absurd (cc)
length-discard x (y ∷ t) h = ground (arith, length-discard x t)

-- A list that holds everything at most as often as another is not longer.
pub length-count-le : (s t : List ℕ) → ((q : ℕ) → count q s ≤ count q t) → length s ≤ length t
length-count-le [] t h = omega arith
length-count-le (x ∷ s) t h =
    let here : 0 < count x t = omega (arith, h x, count-cons_self x s) in
    omega (
      arith,
      length-discard x t (count-contains x t here),
      length-count-le s (discard x t)
          (λ q. omega (arith, h q, count-cons_split q x s, count-discard q x t here)),
    )

pub count-select :
    (q : ℕ) (p : ℕ → Bool) (s : List ℕ) → count q (select p s) ≡ (if p q then count q s else 0)
unfolding count select
count-select q p [] = ground arith
count-select q p (x ∷ s) = ground (arith, count-select q p s)
