-- ===== src/Alloc/Graph.antt =====
-- kernel/memory/allocators/graph_allocator.py: the first connected block that a breadth-first
-- search finds.
pub mod Sound
pub mod Feasible
use dev_q.Prelude.{
  ℕ, zero, suc, true, false, List, [], ◌∷◌, ◌++◌, Option, none, some, contains, length, take, leb,
}
use dev_q.Numeric.{Float}
use dev_q.Circuit.{Circuit}
use dev_q.Device.{Device}
use dev_q.Pool.{Pool}
use dev_q.Alloc.{Limits, Allocation, Allocator, place, fail}
use dev_q.Alloc.Filtering.{eligible_qubits, next_qubits, graph_feasible}

module _ {F : Type 0} ⦃fl : Float F⦄ where
  -- `while queue and len(visited) < required`: the first number is `required - len(visited)`.
  unfoldable pub visit_block : Device F → Option F → List ℕ → ℕ → List ℕ → List ℕ → List ℕ
  unfolding next_qubits contains
  visit_block d edge usable zero queue visited = visited
  visit_block d edge usable (suc missing) [] visited = visited
  visit_block d edge usable (suc missing) (q ∷ queue) visited = elim (contains q visited) [
    | true ↦ visit_block d edge usable (suc missing) queue visited
    | false ↦ elim (contains q usable) [
      | false ↦ visit_block d edge usable (suc missing) queue visited
      | true ↦
          let visited' = visited ++ q ∷ [] in
          visit_block d edge usable missing (queue ++ next_qubits d edge usable visited' q) visited'
    ]
  ]

  -- The `for start in usable` loop; `starts` are the ones still to try.
  unfoldable pub first_block : Device F → Option F → List ℕ → ℕ → List ℕ → Option (List ℕ)
  unfolding visit_block
  first_block d edge usable required [] = none
  first_block d edge usable required (start ∷ starts) =
      let visited = visit_block d edge usable required (start ∷ []) [] in
      elim (leb required (length visited)) [
        | true ↦ some (take required visited)
        | false ↦ first_block d edge usable required starts
      ]

  unfoldable pub graph_allocate : Circuit F → Device F → Pool → Limits F → Allocation F
  unfolding eligible_qubits first_block place fail
  graph_allocate c d pool l =
      let usable = eligible_qubits d pool.free_qubits l in
      elim (first_block d l.max_edge_error usable c.num_qubits usable) [
        | some selected ↦ place pool selected none
        | none ↦ fail pool
      ]

  unfoldable pub graph_allocator : Allocator F
  unfolding graph_allocate graph_feasible
  graph_allocator = record { allocate = graph_allocate; feasible = graph_feasible; scores = none }
