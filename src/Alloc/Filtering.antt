-- ===== src/Alloc/Filtering.antt =====
-- kernel/memory/allocators/filtering.py: the thresholds as hard constraints, the default
-- feasibility check of base_allocator.py, and the connected-block test.
use dev_q.Prelude.{
  ℕ, zero, suc, Bool, true, false, ◌&&◌, not, List, [], ◌∷◌, ◌++◌, Option, none, some, select,
  contains, length, leb, ltb, range, range_from, if◌then◌else◌,
}
use dev_q.Numeric.{Float}
use dev_q.Circuit.{Circuit}
use dev_q.Device.{Device, qubit_error, gate_error, edge_error}
use dev_q.Alloc.{Limits, DeviceReason, too_few_qubits, too_few_eligible, no_connected_block}

module _ {F : Type 0} ⦃fl : Float F⦄ where
  -- `threshold is None or error <= threshold`
  unfoldable pub within : Option F → F → Bool
  within none err = true
  within (some threshold) err = fl.at_most err threshold

  unfoldable pub is_eligible : Device F → Limits F → ℕ → Bool
  unfolding within qubit_error gate_error
  is_eligible d l q =
      within l.max_qubit_error (qubit_error d q) && within l.max_1q_gate_error (gate_error d q)

  -- Without thresholds the test of each qubit is true, so the early return is this call too.
  unfoldable pub eligible_qubits : Device F → List ℕ → Limits F → List ℕ
  unfolding select is_eligible
  eligible_qubits d free_qubits l = select (is_eligible d l) free_qubits

  unfoldable pub edge_allowed : Device F → ℕ → ℕ → Option F → Bool
  unfolding within edge_error
  edge_allowed d u v max_edge_error = within max_edge_error (edge_error d u v)

  -- The neighbours of `q` that a search adds to its queue: in `usable`, not yet `visited`, and
  -- over an allowed edge.
  unfoldable pub next_qubits : Device F → Option F → List ℕ → List ℕ → ℕ → List ℕ
  unfolding select contains edge_allowed
  next_qubits d max_edge_error usable visited q =
      select
        (λ n. contains n usable && not (contains n visited) && edge_allowed d q n max_edge_error)
        (d.neighbors q)

  -- The `while queue` loop of `has_connected_block`. `room` bounds how many qubits the component
  -- can still take; `has_connected_block` starts with all the eligible ones.
  unfoldable pub grow_component : Device F → Option F → List ℕ → ℕ → List ℕ → List ℕ → List ℕ
  unfolding next_qubits
  grow_component d edge eligible room [] component = component
  grow_component d edge eligible zero (q ∷ queue) component = component
  grow_component d edge eligible (suc room) (q ∷ queue) component = elim (contains q component) [
    | true ↦ grow_component d edge eligible (suc room) queue component
    | false ↦
        let component' = component ++ q ∷ [] in
        grow_component d edge eligible room (queue ++ next_qubits d edge eligible component' q)
          component'
  ]

  -- The `for start in eligible` loop; `starts` are the qubits that it has still to visit.
  unfoldable pub search_components : Device F → Option F → List ℕ → ℕ → List ℕ → List ℕ → Bool
  unfolding grow_component
  search_components d edge eligible required [] seen = false
  search_components d edge eligible required (start ∷ starts) seen = elim (contains start seen) [
    | true ↦ search_components d edge eligible required starts seen
    | false ↦
        let component = grow_component d edge eligible (length eligible) (start ∷ []) [] in
        elim (leb required (length component)) [
          | true ↦ true
          | false ↦ search_components d edge eligible required starts (seen ++ component)
        ]
  ]

  unfoldable pub has_connected_block : Device F → List ℕ → ℕ → Option F → Bool
  unfolding search_components
  has_connected_block d eligible required max_edge_error = elim (leb required 1) [
    | true ↦ leb required (length eligible)
    | false ↦ search_components d max_edge_error eligible required eligible []
  ]

  has_threshold : Limits F → Bool
  has_threshold l = elim l.max_qubit_error [
    | some _ ↦ true
    | none ↦ elim l.max_1q_gate_error [ some _ ↦ true | none ↦ false ]
  ]

  -- BaseAllocator.feasible
  unfoldable pub base_feasible : Circuit F → Device F → Limits F → Option (DeviceReason F)
  unfolding eligible_qubits has_threshold range_from
  base_feasible c d l =
      let eligible = eligible_qubits d (range d.num_qubits) l in
      if ltb (length eligible) c.num_qubits
      then some (
          if has_threshold l
          then too_few_eligible c.num_qubits (length eligible) l
          else too_few_qubits c.num_qubits d.num_qubits)
      else none

  -- The `feasible` of GraphAllocator and of NoiseGraphAllocator.
  unfoldable pub graph_feasible : Circuit F → Device F → Limits F → Option (DeviceReason F)
  unfolding base_feasible has_connected_block eligible_qubits range_from
  graph_feasible c d l = elim (base_feasible c d l) [
    | some reason ↦ some reason
    | none ↦
        if has_connected_block d (eligible_qubits d (range d.num_qubits) l) c.num_qubits
          l.max_edge_error
        then none
        else some (no_connected_block c.num_qubits l)
  ]
