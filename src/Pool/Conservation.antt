-- ===== src/Pool/Conservation.antt =====
-- What `allocate` and `free` of kernel/memory/qubit_pool.py do to the number of times that each
-- qubit stands in the free set.
use dev_q.Prelude.{
  ℕ, ◌+◌, ◌≤◌, ◌<◌, ◌≡◌, refl, true, List, [], ◌∷◌, arith, inl, inr, Bool-cases, count, contains,
  discard, add, ◌==◌, count-discard, count-add, contains-count, count-contains, if◌then◌else◌,
  IsDistinct,
}
use dev_q.Pool.{Pool, taken, all_free, remove_each, allocate, add_each, free, refuse}

pub count-cons_self : (q : ℕ) (s : List ℕ) → 0 < count q (q ∷ s)
unfolding count
count-cons_self q s = ground arith

pub count-cons_split :
    (q p : ℕ) (s : List ℕ) → count q (p ∷ s) ≡ count q s + (if p == q then 1 else 0)
unfolding count
count-cons_split q p s = ground arith

all_free_of_le : (s qs : List ℕ) → ((q : ℕ) → count q qs ≤ count q s) → all_free s qs ≡ true
unfolding all_free
all_free_of_le s [] h = refl
all_free_of_le s (p ∷ qs) h =
    let here : contains p s ≡ true =
      count-contains p s (omega (arith, h p, count-cons_self p qs)) in
    rw (here, all_free) (all_free_of_le s qs (λ q. omega (arith, h q, count-cons_split q p qs)))

remove_each-taken :
    (pool : Pool) (qs : List ℕ)
    → ((q : ℕ) → count q qs ≤ count q pool.free_qubits)
    → (p : Pool) × (remove_each pool qs ≡ taken p)
unfolding remove_each
remove_each-taken pool [] h = (pool, refl)
remove_each-taken pool (p ∷ qs) h =
    let held : 0 < count p pool.free_qubits = omega (arith, h p, count-cons_self p qs) in
    rw (count-contains p pool.free_qubits held, remove_each)
      (remove_each-taken (record pool { free_qubits = discard p pool.free_qubits }) qs
        (λ q. omega (arith, h q, count-cons_split q p qs, count-discard q p pool.free_qubits held)))

remove_each-count :
    (pool p' : Pool) (qs : List ℕ)
    → remove_each pool qs ≡ taken p'
    → (q : ℕ) → count q p'.free_qubits + count q qs ≡ count q pool.free_qubits
unfolding remove_each
remove_each-count pool p' [] e q = unfold count in ground arith
remove_each-count pool p' (p ∷ qs) e q = elim (Bool-cases (contains p pool.free_qubits)) [
  | inl held ↦
      let rest =
        remove_each-count (record pool { free_qubits = discard p pool.free_qubits }) p' qs
          (rw (held, remove_each) at e) q in
      omega (
        arith,
        rest,
        count-cons_split q p qs,
        count-discard q p pool.free_qubits (contains-count p pool.free_qubits held),
      )
  | inr gone ↦ absurd (ground (arith, gone))
]

remove_each-temporary :
    (pool p' : Pool) (qs : List ℕ) → remove_each pool qs ≡ taken p' → p'.temporary ≡ pool.temporary
unfolding remove_each
remove_each-temporary pool p' [] e = ground arith
remove_each-temporary pool p' (p ∷ qs) e =
    ground (
      arith,
      remove_each-temporary (record pool { free_qubits = discard p pool.free_qubits }) p' qs,
    )

-- The object stays of its class.
pub allocate-temporary :
    (pool p' : Pool) (qs : List ℕ) → allocate pool qs ≡ taken p' → p'.temporary ≡ pool.temporary
unfolding allocate refuse
allocate-temporary pool p' qs e = ground (arith, remove_each-temporary pool p' qs)

-- A list of qubits that stand in the pool as often as in the list is reserved.
pub allocate-taken :
    (pool : Pool) (qs : List ℕ)
    → ((q : ℕ) → count q qs ≤ count q pool.free_qubits)
    → (p : Pool) × (allocate pool qs ≡ taken p)
unfolding allocate
allocate-taken pool qs h =
    rw (all_free_of_le pool.free_qubits qs h, allocate) (remove_each-taken pool qs h)

-- A reservation takes its qubits out of the pool, each as often as it is listed.
pub count-allocate :
    (pool p' : Pool) (qs : List ℕ)
    → allocate pool qs ≡ taken p'
    → (q : ℕ) → count q p'.free_qubits + count q qs ≡ count q pool.free_qubits
unfolding allocate refuse
count-allocate pool p' qs e = remove_each-count pool p' qs (ground (arith, e))

count-add_each :
    (s qs : List ℕ)
    → ((q : ℕ) → count q s + count q qs ≤ 1)
    → (q : ℕ) → count q (add_each s qs) ≡ count q s + count q qs
unfolding add_each
count-add_each s [] h q = unfold count in omega arith
count-add_each s (p ∷ qs) h q =
    let absent : count p s ≡ 0 = omega (arith, h p, count-cons_self p qs) in
    omega (
      arith,
      count-add_each (add p s) qs
          (λ r. omega (arith, h r, count-cons_split r p qs, count-add r p s absent)) q,
      count-cons_split q p qs,
      count-add q p s absent,
    )

-- Qubits that the pool does not hold go back into it, each once.
count-free :
    (pool : Pool) (qs : List ℕ)
    → ((q : ℕ) → count q pool.free_qubits + count q qs ≤ 1)
    → (q : ℕ) → count q (free pool qs).free_qubits ≡ count q pool.free_qubits + count q qs
unfolding free
count-free pool qs h = count-add_each pool.free_qubits qs h

-- Reserving distinct free qubits and freeing them again gives back the free set.
pub free-allocate :
    (pool p' : Pool) (qs : List ℕ)
    → IsDistinct pool.free_qubits
    → allocate pool qs ≡ taken p'
    → (q : ℕ) → count q (free p' qs).free_qubits ≡ count q pool.free_qubits
free-allocate pool p' qs d e q = omega (
  arith,
  count-free p' qs (λ r. omega (arith, d r, count-allocate pool p' qs e r)) q,
  count-allocate pool p' qs e q,
)
