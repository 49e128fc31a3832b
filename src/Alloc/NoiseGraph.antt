-- ===== src/Alloc/NoiseGraph.antt =====
-- kernel/memory/allocators/noise_graph_allocator.py: the cheapest of the connected blocks.
pub mod Sound
pub mod Best
use dev_q.Prelude.{
  ℕ, Bool, true, false, ◌&&◌, List, [], ◌∷◌, Option, some, map, contains, length, take, leb, ltb,
  ◌==◌, sorted, sort_by, is_empty, if◌then◌else◌,
}
use dev_q.Errors.{Result, ok, raise}
use dev_q.Numeric.{Float}
use dev_q.Circuit.{Circuit}
use dev_q.Device.{Device, Edge, edges, qubit_error, edge_error}
use dev_q.Pool.{Pool}
use dev_q.Sweep.{Scoring, sweep_decision, explain_recorded}
use dev_q.Alloc.{
  Limits, BlockTerms, BlockWeights, BlockDetail, Decision, Allocation, bug, Allocator, place, fail,
}
use dev_q.Alloc.Filtering.{eligible_qubits, edge_allowed, graph_feasible}
use dev_q.Alloc.Graph.{visit_block}

-- `<` and `==` on the tuples of qubits that name the blocks.
unfoldable pub block_less : List ℕ → List ℕ → Bool
block_less _ [] = false
block_less [] (y ∷ ys) = true
block_less (x ∷ xs) (y ∷ ys) = let rest = block_less xs ys in if x == y then rest else ltb x y

block_eq : List ℕ → List ℕ → Bool
block_eq [] [] = true
block_eq (x ∷ xs) (y ∷ ys) = let rest = block_eq xs ys in if x == y then rest else false
block_eq _ _ = false

unfoldable pub block_in : List ℕ → List (List ℕ) → Bool
unfolding block_eq
block_in b [] = false
block_in b (c ∷ cs) = if block_eq c b then true else block_in b cs

module _ {F : Type 0} ⦃fl : Float F⦄ where
  unfoldable pub sum_from : F → List F → F
  sum_from acc [] = acc
  sum_from acc (x ∷ xs) = sum_from (fl.plus acc x) xs

  -- The inner loop over the neighbours of `u`: each internal edge is charged at its lower end.
  add_edge_errors : Device F → List ℕ → ℕ → List ℕ → F → F
  add_edge_errors d block u [] acc = acc
  add_edge_errors d block u (v ∷ vs) acc =
      add_edge_errors d block u vs
        (if contains v block && ltb u v then fl.plus acc (edge_error d u v) else acc)

  block_edge_sum : Device F → List ℕ → List ℕ → F → F
  unfolding add_edge_errors contains edge_error
  block_edge_sum d block [] acc = acc
  block_edge_sum d block (u ∷ us) acc =
      block_edge_sum d block us (add_edge_errors d block u (d.neighbors u) acc)

  block_terms : Device F → List ℕ → BlockTerms F
  unfolding sum_from block_edge_sum qubit_error
  block_terms d block = record {
    qubit_error_sum = sum_from (fl.of_count 0) (map (qubit_error d) block);
    edge_error_sum = block_edge_sum d block block (fl.of_count 0);
  }

  -- The fast path for two qubits: the coupling edges themselves.
  unfoldable pub pair_blocks : Device F → Option F → List ℕ → List Edge → Decision F
  unfolding contains edge_allowed qubit_error edge_error
  pair_blocks d edge usable [] = []
  pair_blocks d edge usable ((u, v) ∷ rest) =
      let others = pair_blocks d edge usable rest in
      let terms : BlockTerms F = record {
        qubit_error_sum = fl.plus (qubit_error d u) (qubit_error d v);
        edge_error_sum = edge_error d u v;
      } in
      if contains u usable && contains v usable && edge_allowed d u v edge
      then ((if ltb u v then u ∷ v ∷ [] else v ∷ u ∷ []), terms) ∷ others
      else others

  -- The `for start in sorted(usable)` loop, with the blocks seen so far.
  unfoldable pub enumerate_blocks :
      Device F → Option F → List ℕ → ℕ → List ℕ → List (List ℕ) → Decision F
  unfolding visit_block sort_by block_in block_terms
  enumerate_blocks d edge usable required [] seen_blocks = []
  enumerate_blocks d edge usable required (start ∷ starts) seen_blocks =
      let visited = visit_block d edge usable required (start ∷ []) [] in
      let block = sorted (take required visited) in
      let skipped = enumerate_blocks d edge usable required starts seen_blocks in
      let others = enumerate_blocks d edge usable required starts (block ∷ seen_blocks) in
      elim (leb required (length visited)) [
        | false ↦ skipped
        | true ↦ elim (block_in block seen_blocks) [
          | true ↦ skipped
          | false ↦ (block, block_terms d block) ∷ others
        ]
      ]

  -- `_sweep_terms`
  unfoldable pub candidate_blocks : Circuit F → Device F → Pool → Limits F → Decision F
  unfolding eligible_qubits pair_blocks enumerate_blocks sort_by edges
  candidate_blocks c d pool l =
      let usable = eligible_qubits d pool.free_qubits l in
      if c.num_qubits == 2
      then pair_blocks d l.max_edge_error usable (edges d)
      else enumerate_blocks d l.max_edge_error usable c.num_qubits (sorted usable) []

  -- `_sweep_score`: S = α·Σq + β·Σe
  block_score : BlockTerms F → BlockWeights F → F
  block_score t w =
      fl.plus (fl.times w.qubit_error_weight t.qubit_error_sum)
        (fl.times w.edge_error_weight t.edge_error_sum)

  -- `_sweep_rank`: the final score is the raw one.
  rank_blocks :
      List (List ℕ × BlockTerms F × F) → BlockWeights F → List (List ℕ × F × BlockDetail F)
  rank_blocks scored w =
      map (λ r. (r.0, r.2, record { terms = r.1; block_cost = r.2; weights = w })) scored

  unfoldable pub noise_scoring :
      Scoring F (List ℕ) (BlockTerms F) (BlockWeights F) F (BlockDetail F)
  unfolding block_score rank_blocks block_less
  noise_scoring = record {
    sweep_score = block_score;
    sweep_rank = rank_blocks;
    key_less = block_less;
  }

  reserve_best : Pool → Decision F → Result (List ℕ) → Allocation F
  unfolding place
  reserve_best pool tagged (ok best_block) = place pool best_block (some tagged)
  reserve_best pool tagged (raise _) = record { attempt = bug; pool = pool; decision = some tagged }

  unfoldable pub noise_allocate :
      BlockWeights F → Circuit F → Device F → Pool → Limits F → Allocation F
  unfolding candidate_blocks noise_scoring sweep_decision reserve_best fail
  noise_allocate w c d pool l =
      let tagged = candidate_blocks c d pool l in
      if is_empty tagged
      then fail pool
      else reserve_best pool tagged (sweep_decision noise_scoring tagged w)

  unfoldable pub noise_graph_allocator : BlockWeights F → Allocator F
  unfolding noise_allocate graph_feasible noise_scoring explain_recorded
  noise_graph_allocator w = record {
    allocate = noise_allocate w;
    feasible = graph_feasible;
    scores = some (λ recorded. explain_recorded noise_scoring recorded w);
  }
