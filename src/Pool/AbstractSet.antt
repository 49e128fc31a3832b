-- ===== src/Pool/AbstractSet.antt =====
-- kernel/memory/qubit_pool.py against what a pool promises: a set of free qubits, from which an
-- allocation takes all of its qubits or none, and to which a release adds.
use dev_q.Prelude.{
  ℕ, ◌+◌, ◌≤◌, ◌≡◌, refl, sym, ◌∙◌, ap, Bool, true, false, not, ◌&&◌, ◌||◌, List, [], ◌∷◌, All,
  contains, count, IsDistinct, contains-count, not_contains-count, Bool-cases, inl, inr,
  if◌then◌else◌, arith, add, count-add, contains-append, ◌==◌,
}
use mathlib.Core.Path.{fun_ext}
use dev_q.Pool.{Pool, Reserve, taken, refused, raises, allocate, free, all_free, add_each, refuse}
use dev_q.Pool.Conservation.{count-allocate, allocate-taken, allocate-temporary}

-- A set of qubits, by its membership test: order and representation are forgotten.
abbrev pub QubitSet : Type 0
QubitSet = ℕ → Bool

abbrev pub members : Pool → QubitSet
members pool = λ q. contains q pool.free_qubits

abbrev pub includes : QubitSet → List ℕ → Bool
includes s [] = true
includes s (q ∷ qs) = if s q then includes s qs else false

pub data Request : Type 0 where
  take_qubits : (qubits : List ℕ) → Request
  release : (qubits : List ℕ) → Request

abbrev pub qubits_of : Request → List ℕ
qubits_of (take_qubits qubits) = qubits
qubits_of (release qubits) = qubits

-- What a request promises.
abbrev pub promised : Request → QubitSet → QubitSet
promised (take_qubits qubits) s =
    if includes s qubits then (λ q. s q && not (contains q qubits)) else s
promised (release qubits) s = λ q. s q || contains q qubits

-- What the pool does: `allocate` that returns False leaves it.
abbrev pub left_by : Pool → Reserve → Pool
left_by pool (taken p) = p
left_by pool refused = pool
left_by pool (raises p) = p

unfoldable pub serve_request : Request → Pool → Pool
unfolding allocate free
serve_request (take_qubits qubits) pool = left_by pool (allocate pool qubits)
serve_request (release qubits) pool = free pool qubits

abbrev pub promised_all : List Request → QubitSet → QubitSet
promised_all [] s = s
promised_all (r ∷ rs) s = promised_all rs (promised r s)

unfoldable pub serve_all : List Request → Pool → Pool
unfolding serve_request
serve_all [] pool = pool
serve_all (r ∷ rs) pool = serve_all rs (serve_request r pool)

includes-all_free : (s qs : List ℕ) → all_free s qs ≡ includes (λ q. contains q s) qs
unfolding all_free
includes-all_free s [] = refl
includes-all_free s (q ∷ qs) = ground (arith, includes-all_free s qs)

includes-contains :
    (s qs : List ℕ) (q : ℕ)
    → includes (λ x. contains x s) qs ≡ true
    → contains q qs ≡ true
    → contains q s ≡ true
unfolding contains
includes-contains s [] q h m = cc
includes-contains s (x ∷ qs) q h m = ground (arith, includes-contains s qs q)

covers :
    (s qs : List ℕ) (q : ℕ)
    → count q qs ≤ 1
    → includes (λ x. contains x s) qs ≡ true
    → count q qs ≤ count q s
covers s qs q one h = elim (Bool-cases (contains q qs)) [
  | inl there ↦ omega (arith, contains-count q s (includes-contains s qs q h there))
  | inr gone ↦ omega (arith, not_contains-count q qs gone)
]

-- With distinct qubits the members are what the counts say.
contains-of_counts :
    (q : ℕ) (s t u : List ℕ)
    → count q u ≤ 1
    → count q s + count q t ≡ count q u
    → contains q s ≡ (contains q u && not (contains q t))
contains-of_counts q s t u one h = ground (
  arith,
  contains-count q s,
  contains-count q t,
  contains-count q u,
  not_contains-count q s,
  not_contains-count q t,
  not_contains-count q u,
)

contains-add : (q x : ℕ) (s : List ℕ) → contains q (add x s) ≡ (contains q s || contains q (x ∷ []))
unfolding contains add
contains-add q x s = ground (arith, contains-append q s (x ∷ []))

contains-add_each :
    (q : ℕ) (s qs : List ℕ) → contains q (add_each s qs) ≡ (contains q s || contains q qs)
unfolding add_each contains
contains-add_each q s [] = ground arith
contains-add_each q s (x ∷ qs) =
    ground (arith, contains-add_each q (add x s) qs, contains-add q x s)

add-IsDistinct : (x : ℕ) (s : List ℕ) → IsDistinct s → IsDistinct (add x s)
unfolding add
add-IsDistinct x s d q = elim (Bool-cases (contains x s)) [
  | inl present ↦ rw present (d q)
  | inr absent ↦
      let none_there = not_contains-count x s absent in
      let grown : count q (add x s) ≡ count q s + (if x == q then 1 else 0) =
        count-add q x s none_there in
      ground (arith, grown, d q, d x, none_there)
]

add_each-IsDistinct : (s qs : List ℕ) → IsDistinct s → IsDistinct (add_each s qs)
unfolding add_each
add_each-IsDistinct s [] d = d
add_each-IsDistinct s (x ∷ qs) d = add_each-IsDistinct (add x s) qs (add-IsDistinct x s d)

record IsServed (r : Request) (pool p : Pool) : Type 0 where
  same : members p ≡ promised r (members pool)
  distinct : IsDistinct p.free_qubits
  lasting : p.temporary ≡ false

taken-IsServed :
    (pool p : Pool) (qs : List ℕ)
    → IsDistinct pool.free_qubits
    → pool.temporary ≡ false
    → all_free pool.free_qubits qs ≡ true
    → allocate pool qs ≡ taken p
    → IsServed (take_qubits qs) pool p
taken-IsServed pool p qs d lasting all e =
    let counts = count-allocate pool p qs e in
    record {
      same =
          rw (sym (includes-all_free pool.free_qubits qs) ∙ all)
            (fun_ext λ q. contains-of_counts q p.free_qubits qs pool.free_qubits (d q) (counts q));
      distinct = λ q. omega (arith, counts q, d q);
      lasting = allocate-temporary pool p qs e ∙ lasting;
    }

allocate-refused :
    (pool : Pool) (qs : List ℕ)
    → all_free pool.free_qubits qs ≡ false
    → pool.temporary ≡ false
    → allocate pool qs ≡ refused
unfolding allocate refuse
allocate-refused pool qs h lasting = ground arith

serve_request-IsServed :
    (r : Request) (pool : Pool)
    → IsDistinct pool.free_qubits
    → pool.temporary ≡ false
    → IsDistinct (qubits_of r)
    → IsServed r pool (serve_request r pool)
unfolding serve_request free
serve_request-IsServed (release qs) pool d lasting dq = record {
  same = fun_ext λ q. contains-add_each q pool.free_qubits qs;
  distinct = add_each-IsDistinct pool.free_qubits qs d;
  lasting = lasting;
}
serve_request-IsServed (take_qubits qs) pool d lasting dq =
    elim (Bool-cases (all_free pool.free_qubits qs)) [
      | inl all ↦
          let covered : (q : ℕ) → count q qs ≤ count q pool.free_qubits = λ q.
            covers pool.free_qubits qs q (dq q)
              (sym (includes-all_free pool.free_qubits qs) ∙ all) in
          let (p, e) = allocate-taken pool qs covered in
          rw e (taken-IsServed pool p qs d lasting all e)
      | inr some_taken ↦ rw (allocate-refused pool qs some_taken lasting) (record {
        same = rw (sym (includes-all_free pool.free_qubits qs) ∙ some_taken) refl;
        distinct = d;
        lasting = lasting;
      })
    ]

-- A pool that serves requests for distinct qubits in turn behaves as the set of its free qubits: an
-- allocation removes all of its qubits if each of them is free, and otherwise changes nothing, and
-- a release adds its qubits. The pool is not a temporary one and holds each qubit once.
pub serve_all-refines :
    (rs : List Request) (pool : Pool)
    → IsDistinct pool.free_qubits
    → pool.temporary ≡ false
    → All (λ r. IsDistinct (qubits_of r)) rs
    → members (serve_all rs pool) ≡ promised_all rs (members pool)
unfolding serve_all
serve_all-refines [] pool d lasting dq = refl
serve_all-refines (r ∷ rs) pool d lasting dq =
    let served = serve_request-IsServed r pool d lasting dq.0 in
    serve_all-refines rs (serve_request r pool) served.distinct served.lasting dq.1
    ∙ ap (promised_all rs) served.same
