-- ===== src/Alloc/Graph/Sound.antt =====
-- The graph allocator keeps the contract of base_allocator.py.
use dev_q.Prelude.{
  ℕ, zero, suc, ◌+◌, ◌≤◌, ◌≡◌, refl, true, false, List, [], ◌∷◌, ◌++◌, Option, inl, inr, none, some,
  contains, count, take, length, leb, length-take, count-take-le, count-select-le, contains-take,
  contains-select, contains-append, contains-count, not_contains-count, count-append, IsDistinct,
  Bool-cases, Option-cases, if◌then◌else◌, ◌==◌, arith,
}
use dev_q.Numeric.{Float}
use dev_q.Circuit.{Circuit}
use dev_q.Device.{Device}
use dev_q.Pool.{Pool}
use dev_q.Alloc.{Limits}
use dev_q.Alloc.Filtering.{eligible_qubits, is_eligible, next_qubits}
use dev_q.Alloc.Graph.{visit_block, first_block, graph_allocate}
use dev_q.Alloc.Placement.{IsSound, IsChoice, place-IsSound}

-- Distinct qubits of a set.
pub record IsWithin (usable block : List ℕ) : Type 0 where
  pub distinct : IsDistinct block
  pub members : (q : ℕ) → contains q block ≡ true → contains q usable ≡ true

count-snoc : (q p : ℕ) (s : List ℕ) → count q (s ++ p ∷ []) ≡ count q s + (if p == q then 1 else 0)
unfolding count
count-snoc q p s = ground (arith, count-append q s (p ∷ []))

IsWithin-snoc :
    (usable visited : List ℕ) (p : ℕ)
    → IsWithin usable visited
    → contains p visited ≡ false
    → contains p usable ≡ true
    → IsWithin usable (visited ++ p ∷ [])
unfolding contains
IsWithin-snoc usable visited p w fresh ok = record {
  distinct =
      λ q. ground (arith, count-snoc q p visited, w.distinct q, not_contains-count p visited fresh);
  members = λ q h. ground (arith, contains-append q visited (p ∷ []), w.members q);
}

module _ {F : Type 0} ⦃fl : Float F⦄ (d : Device F) (edge : Option F) (usable : List ℕ) where
  pub visit_block-IsWithin :
      (missing : ℕ) (queue visited : List ℕ)
      → IsWithin usable visited
      → IsWithin usable (visit_block d edge usable missing queue visited)
  unfolding visit_block
  visit_block-IsWithin zero queue visited w = w
  visit_block-IsWithin (suc missing) [] visited w = w
  visit_block-IsWithin (suc missing) (q ∷ queue) visited w =
      elim (Bool-cases (contains q visited)) [
        | inl old ↦ rw (old, visit_block) (visit_block-IsWithin (suc missing) queue visited w)
        | inr new ↦ elim (Bool-cases (contains q usable)) [
          | inr out ↦
              rw (new, out, visit_block) (visit_block-IsWithin (suc missing) queue visited w)
          | inl ok ↦
              rw (new, ok, visit_block)
                (visit_block-IsWithin missing
                  (queue ++ next_qubits d edge usable (visited ++ q ∷ []) q) (visited ++ q ∷ [])
                  (IsWithin-snoc usable visited q w new ok))
        ]
      ]

  -- The chosen block: its size, and that a search from some start visited it.
  pub record IsFound (required : ℕ) (block : List ℕ) : Type 0 where
    pub start : ℕ
    pub enough : required ≤ length (visit_block d edge usable required (start ∷ []) [])
    pub prefix : block ≡ take required (visit_block d edge usable required (start ∷ []) [])

  pub first_block-IsFound :
      (required : ℕ) (starts block : List ℕ)
      → first_block d edge usable required starts ≡ some block
      → IsFound required block
  unfolding first_block
  first_block-IsFound required [] block e = absurd (cc)
  first_block-IsFound required (start ∷ starts) block e =
      elim (Bool-cases
        (leb required (length (visit_block d edge usable required (start ∷ []) [])))) [
          | inl big ↦ record { start = start; enough = ground arith; prefix = ground arith }
          | inr small ↦ first_block-IsFound required starts block (ground arith)
        ]

  pub IsFound-IsWithin :
      (required : ℕ) (block : List ℕ) → IsFound required block → IsWithin usable block
  IsFound-IsWithin required block f =
      let visited = visit_block d edge usable required (f.start ∷ []) [] in
      let w = visit_block-IsWithin required (f.start ∷ []) [] (record {
        distinct = λ q. unfold count in omega arith;
        members = λ q h. absurd (unfold contains in cc);
      }) in
      rw f.prefix (record {
        distinct = λ q. omega (arith, w.distinct q, count-take-le q required visited);
        members = λ q h. w.members q (contains-take q required visited h);
      })

module _ {F : Type 0} ⦃fl : Float F⦄ (c : Circuit F) (d : Device F) (pool : Pool)
    (l : Limits F) where
  -- Distinct eligible free qubits in the right number are a choice.
  pub IsWithin-IsChoice :
      (block : List ℕ)
      → length block ≡ c.num_qubits
      → IsWithin (eligible_qubits d pool.free_qubits l) block
      → IsChoice c d l pool block
  unfolding eligible_qubits
  IsWithin-IsChoice block size w = record {
    size = size;
    free = λ q. elim (Bool-cases (contains q block)) [
      | inr out ↦ omega (arith, not_contains-count q block out)
      | inl held ↦ omega (
        arith,
        w.distinct q,
        contains-count q (eligible_qubits d pool.free_qubits l) (w.members q held),
        count-select-le q (is_eligible d l) pool.free_qubits,
      )
    ];
    eligible = λ q h. (contains-select q (is_eligible d l) pool.free_qubits (w.members q h)).1;
  }

-- On a pool without repetitions the graph allocator either reserves exactly a block of the
-- circuit's size, of distinct qubits within the per-qubit thresholds, or raises AllocationError
-- and leaves the pool as it was; it never raises anything else.
pub graph_allocate-IsSound :
    {F : Type 0} ⦃fl : Float F⦄ (c : Circuit F) (d : Device F) (pool : Pool) (l : Limits F)
    → IsDistinct pool.free_qubits
    → IsSound c d l pool (graph_allocate c d pool l).attempt (graph_allocate c d pool l).pool
unfolding graph_allocate
graph_allocate-IsSound c d pool l dist =
    let usable = eligible_qubits d pool.free_qubits l in
    elim (Option-cases (first_block d l.max_edge_error usable c.num_qubits usable)) [
      | inl e ↦ rw (e, graph_allocate) refl
      | inr (block, e) ↦
          let found = first_block-IsFound d l.max_edge_error usable c.num_qubits usable block e in
          rw (e, graph_allocate)
            (place-IsSound block none dist (
              IsWithin-IsChoice c d pool l block
                (rw found.prefix (length-take c.num_qubits _ found.enough))
                (IsFound-IsWithin d l.max_edge_error usable c.num_qubits block found)))
    ]
