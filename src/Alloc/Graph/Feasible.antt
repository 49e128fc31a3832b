-- ===== src/Alloc/Graph/Feasible.antt =====
-- What the feasibility answer of the graph allocator promises: its search and the component search
-- of filtering.py visit the same qubits in the same order.
use dev_q.Prelude.{
  ℕ, zero, suc, ◌+◌, ◌≤◌, ◌<◌, ◌≡◌, true, ◌&&◌, not, List, [], ◌∷◌, ◌++◌, Option, none, inl, inr,
  length, leb, contains, range, contains-select, contains-All, All, All-append, All-contained,
  length-append, length-take, Bool-cases, Option-cases, arith,
}
use dev_q.Numeric.{Float}
use dev_q.Circuit.{Circuit}
use dev_q.Device.{Device}
use dev_q.Pool.{new_pool}
use dev_q.Alloc.{Limits}
use dev_q.Alloc.Filtering.{
  eligible_qubits, next_qubits, edge_allowed, grow_component, search_components,
  has_connected_block, base_feasible, graph_feasible,
}
use dev_q.Alloc.Progress.{IsComplete, place-placed}
use dev_q.Alloc.Static.Feasible.{base_feasible-none}
use dev_q.Alloc.Graph.{visit_block, first_block, graph_allocate, graph_allocator}
use dev_q.Alloc.Graph.Sound.{first_block-IsFound, IsFound-IsWithin, IsWithin-IsChoice}

module _ {F : Type 0} ⦃fl : Float F⦄ (d : Device F) (edge : Option F) (usable : List ℕ) where
  abbrev IsUsable : ℕ → Type 0
  IsUsable q = contains q usable ≡ true

  next_qubits-IsUsable :
      (visited : List ℕ) (q : ℕ) → All IsUsable (next_qubits d edge usable visited q)
  unfolding next_qubits
  next_qubits-IsUsable visited q = All-contained IsUsable _ (λ p h. ground (
    arith,
    (contains-select p
        (λ n. contains n usable && not (contains n visited) && edge_allowed d q n edge)
        (d.neighbors q) h).1,
  ))

  -- Where the component search comes to enough qubits, so does the allocator's.
  visit-grow :
      (room missing required : ℕ) (queue visited : List ℕ)
      → missing ≤ room
      → length visited + missing ≡ required
      → All IsUsable queue
      → required ≤ length (grow_component d edge usable room queue visited)
      → required ≤ length (visit_block d edge usable missing queue visited)
  unfolding visit_block grow_component
  visit-grow room zero required queue visited fits size all enough = omega (arith, size)
  visit-grow room (suc missing) required [] visited fits size all enough = enough
  visit-grow zero (suc missing) required (q ∷ queue) visited fits size all enough =
      absurd (omega (arith, fits))
  visit-grow (suc room) (suc missing) required (q ∷ queue) visited fits size all enough =
      elim (Bool-cases (contains q visited)) [
        | inl old ↦
            rw (old, visit_block)
              (visit-grow (suc room) (suc missing) required queue visited fits size all.1
                (rw (old, grow_component) at enough))
        | inr new ↦
            rw (new, all.0, visit_block)
              (visit-grow room missing required
                (queue ++ next_qubits d edge usable (visited ++ q ∷ []) q) (visited ++ q ∷ [])
                (omega (arith, fits)) (omega (arith, size, length-append visited (q ∷ [])))
                (All-append IsUsable queue _ all.1 (next_qubits-IsUsable (visited ++ q ∷ []) q))
                (rw (new, grow_component) at enough))
      ]

  visit-single : (q : ℕ) → IsUsable q → 1 ≤ length (visit_block d edge usable 1 (q ∷ []) [])
  unfolding visit_block contains
  visit-single q h = rw (h, visit_block) (omega arith)

  search-found :
      (required : ℕ) (starts seen : List ℕ)
      → search_components d edge usable required starts seen ≡ true
      → (start : ℕ) × (contains start starts ≡ true)
        × (required ≤ length (grow_component d edge usable (length usable) (start ∷ []) []))
  unfolding search_components contains
  search-found required [] seen h = absurd (cc)
  search-found required (s ∷ starts) seen h =
      let later : search_components d edge usable required starts seen ≡ true
          → (start : ℕ) × (contains start (s ∷ starts) ≡ true)
            × (required ≤ length (grow_component d edge usable (length usable) (start ∷ []) [])) =
        λ e.
          let (start, inside, big) = search-found required starts seen e in
          (start, ground (arith, inside), big) in
      let component = grow_component d edge usable (length usable) (s ∷ []) [] in
      elim (Bool-cases (contains s seen)) [
        | inl old ↦ later (rw (old, search_components) at h)
        | inr new ↦ elim (Bool-cases (leb required (length component))) [
          | inl big ↦ (s, ground arith, ground (arith, big))
          | inr small ↦
              let (start, inside, big) =
                search-found required starts (seen ++ component)
                  (rw (new, small, search_components) at h) in
              (start, ground (arith, inside), big)
        ]
      ]

  first_block-none :
      (required : ℕ) (starts : List ℕ)
      → first_block d edge usable required starts ≡ none
      → All (λ s. length (visit_block d edge usable required (s ∷ []) []) < required) starts
  unfolding first_block
  first_block-none required [] h = tt
  first_block-none required (s ∷ starts) h =
      elim (Bool-cases (leb required (length (visit_block d edge usable required (s ∷ []) [])))) [
        | inl big ↦ absurd (cc (rw (big, first_block) at h))
        | inr small ↦
            (ground (arith, small), first_block-none required starts (rw (small, first_block) at h))
      ]

module _ {F : Type 0} ⦃fl : Float F⦄ (c : Circuit F) (d : Device F) (l : Limits F) where
  graph_feasible-none :
      graph_feasible c d l ≡ none
      → (base_feasible c d l ≡ none)
        × (has_connected_block d
              (eligible_qubits d (range d.num_qubits) l)
              c.num_qubits
              l.max_edge_error
            ≡ true)
  unfolding graph_feasible
  graph_feasible-none h = elim (Option-cases (base_feasible c d l)) [
    | inr (reason, e) ↦ absurd (cc (rw (e, graph_feasible) at h))
    | inl e ↦ (
      e,
      elim (Bool-cases (
          has_connected_block d (eligible_qubits d (range d.num_qubits) l) c.num_qubits
            l.max_edge_error)) [
              | inl found ↦ found
              | inr missing ↦ absurd (cc (rw (e, missing, graph_feasible) at h))
            ],
    )
  ]

  -- Some start of the allocator's loop visits a whole block.
  connected-found :
      (usable : List ℕ)
      → 0 < c.num_qubits
      → c.num_qubits ≤ length usable
      → has_connected_block d usable c.num_qubits l.max_edge_error ≡ true
      → (start : ℕ) × (contains start usable ≡ true)
        × (c.num_qubits
            ≤ length (visit_block d l.max_edge_error usable c.num_qubits (start ∷ []) []))
  unfolding has_connected_block
  connected-found [] some_qubits enough h = absurd (omega (arith, some_qubits, enough))
  connected-found (s ∷ usable) some_qubits enough h =
      let here : contains s (s ∷ usable) ≡ true = unfold contains in ground arith in
      elim (Bool-cases (leb c.num_qubits 1)) [
        | inl single ↦
            let one : c.num_qubits ≡ 1 = ground (arith, single, some_qubits) in
            (s, here, rw one (visit-single d l.max_edge_error (s ∷ usable) s here))
        | inr several ↦
            let (start, inside, big) =
              search-found d l.max_edge_error (s ∷ usable) c.num_qubits (s ∷ usable) []
                (rw (several, has_connected_block) at h) in
            (
              start,
              inside,
              visit-grow d l.max_edge_error (s ∷ usable) (length (s ∷ usable)) c.num_qubits
                  c.num_qubits (start ∷ []) [] enough (omega arith) (inside, tt) big,
            )
      ]

-- A circuit with a qubit that the graph allocator calls feasible is placed on the pool with which
-- the device is built.
pub graph_allocator-IsComplete :
    {F : Type 0} ⦃fl : Float F⦄ (d : Device F) → IsComplete graph_allocator d
unfolding graph_allocator graph_allocate new_pool
graph_allocator-IsComplete d = record {
  places = λ c l some_qubits feasible.
      let usable = eligible_qubits d (range d.num_qubits) l in
      let (base, connected) = graph_feasible-none c d l feasible in
      let enough : c.num_qubits ≤ length usable = ground (arith, base_feasible-none d l c base) in
      let (start, inside, big) = connected-found c d l usable some_qubits enough connected in
      elim (Option-cases (first_block d l.max_edge_error usable c.num_qubits usable)) [
        | inl e ↦
            let all = first_block-none d l.max_edge_error usable c.num_qubits usable e in
            let small = contains-All _ start usable all inside in absurd (omega (arith, small, big))
        | inr (block, e) ↦
            let found = first_block-IsFound d l.max_edge_error usable c.num_qubits usable block e in
            let choice =
              IsWithin-IsChoice c d (new_pool d.num_qubits) l block
                (rw found.prefix (length-take c.num_qubits _ found.enough))
                (IsFound-IsWithin d l.max_edge_error usable c.num_qubits block found) in
            rw (e, graph_allocate) (place-placed (new_pool d.num_qubits) block none choice.free)
      ];
}
