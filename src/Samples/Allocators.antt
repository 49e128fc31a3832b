-- ===== src/Samples/Allocators.antt =====
-- The pool, the sweep and the allocators at small inputs.
use dev_q.Prelude.{ℕ, ◌≡◌, refl, false, [], ◌∷◌, count, IsDistinct, contains, range_from, arith}
use dev_q.Pool.{allocate, free}
use dev_q.Pool.AbstractSet.{
  members, serve_all, promised_all, take_qubits, release, serve_all-refines,
}
use dev_q.Pool.Conservation.{free-allocate}
use dev_q.Sweep.{sweep_decision, explain_recorded}
use dev_q.Sweep.Best.{IsBest, sweep_decision-IsBest}
use dev_q.Device.{edges}
use dev_q.Alloc.{placed, values}
use dev_q.Alloc.Static.{static_allocate}
use dev_q.Alloc.Static.Sound.{static_allocate-IsSound}
use dev_q.Circuit.{Circuit}
use dev_q.Alloc.{Mapping, placed, cannot_place, too_few_qubits}
use dev_q.Alloc.Filtering.{base_feasible}
use dev_q.Alloc.Progress.{IsComplete}
use dev_q.Alloc.Static.Feasible.{static_allocate-feasible, static_allocate-infeasible}
use dev_q.Alloc.Graph.Feasible.{graph_allocator-IsComplete}
use dev_q.Alloc.Graph.{graph_allocate, graph_allocator}
use dev_q.Alloc.Graph.Sound.{graph_allocate-IsSound}
use dev_q.Alloc.NoiseGraph.{noise_allocate, candidate_blocks, noise_scoring, block_less}
use dev_q.Alloc.NoiseGraph.Sound.{noise_allocate-IsSound, HasNoLoop}
use dev_q.Alloc.NoiseGraph.Best.{block_less-IsStrict, noise_allocate-IsBest}
use dev_q.Alloc.Placement.{IsSound}
use dev_q.Memory
use dev_q.Memory.{MemoryManager, allocated}
use dev_q.Memory.Contract.{allocate-reserved}
use dev_q.Samples.{nat_float, nat_float-IsOrdered, no_limits, line, bell, line_pool, weights}

pub line_pool-IsDistinct : IsDistinct line_pool.free_qubits
unfolding count
line_pool-IsDistinct q = ground arith

abbrev wide : Circuit ℕ
wide = record bell { num_qubits = 4 }

static_runs :
    (static_allocate bell line line_pool no_limits).attempt ≡ placed ((0, 0) ∷ (1, 1) ∷ [])
unfolding static_allocate
static_runs = refl

-- The cheaper of the two coupled pairs.
noise_runs :
    (noise_allocate weights bell line line_pool no_limits).attempt ≡ placed ((0, 1) ∷ (1, 2) ∷ [])
unfolding noise_allocate
noise_runs = refl

free-allocate_example :
    count 1 (free (record { free_qubits = 0 ∷ []; temporary = false }) (2 ∷ 1 ∷ [])).free_qubits
    ≡ count 1 line_pool.free_qubits
unfolding allocate
free-allocate_example =
    free-allocate line_pool (record { free_qubits = 0 ∷ []; temporary = false }) (2 ∷ 1 ∷ [])
      line_pool-IsDistinct refl 1

static_allocate-IsSound_example :
    IsSound bell line no_limits line_pool
      (static_allocate bell line line_pool no_limits).attempt
      (static_allocate bell line line_pool no_limits).pool
static_allocate-IsSound_example =
    static_allocate-IsSound bell line line_pool no_limits line_pool-IsDistinct

graph_allocate-IsSound_example :
    IsSound bell line no_limits line_pool
      (graph_allocate bell line line_pool no_limits).attempt
      (graph_allocate bell line line_pool no_limits).pool
graph_allocate-IsSound_example =
    graph_allocate-IsSound bell line line_pool no_limits line_pool-IsDistinct

line-HasNoLoop : HasNoLoop (edges line)
unfolding edges
line-HasNoLoop = omega arith

noise_allocate-IsSound_example :
    IsSound bell line no_limits line_pool
      (noise_allocate weights bell line line_pool no_limits).attempt
      (noise_allocate weights bell line line_pool no_limits).pool
noise_allocate-IsSound_example =
    noise_allocate-IsSound weights bell line line_pool no_limits line_pool-IsDistinct line-HasNoLoop

sweep_decision-IsBest_example :
    IsBest block_less
      (explain_recorded noise_scoring (candidate_blocks bell line line_pool no_limits) weights)
      (1 ∷ 2 ∷ [])
unfolding sweep_decision candidate_blocks noise_scoring
sweep_decision-IsBest_example =
    sweep_decision-IsBest noise_scoring (candidate_blocks bell line line_pool no_limits) weights
      (1 ∷ 2 ∷ []) nat_float-IsOrdered block_less-IsStrict refl

noise_allocate-IsBest_example :
    IsBest block_less
      (explain_recorded noise_scoring (candidate_blocks bell line line_pool no_limits) weights)
      (1 ∷ 2 ∷ [])
unfolding noise_allocate values
noise_allocate-IsBest_example =
    noise_allocate-IsBest weights bell line line_pool no_limits ((0, 1) ∷ (1, 2) ∷ [])
      nat_float-IsOrdered refl

abbrev pub line_manager : MemoryManager ℕ
line_manager = record { device = line; pool = line_pool; allocator = graph_allocator }

allocate-reserved_example :
    contains 1 (Memory.allocate line_manager bell no_limits).manager.pool.free_qubits ≡ false
unfolding Memory.allocate graph_allocator
allocate-reserved_example =
    allocate-reserved line_manager bell no_limits ((0, 0) ∷ (1, 1) ∷ []) 1 refl refl

serve_all-refines_example :
    members (serve_all (take_qubits (1 ∷ 2 ∷ []) ∷ release (1 ∷ []) ∷ []) line_pool)
    ≡ promised_all (take_qubits (1 ∷ 2 ∷ []) ∷ release (1 ∷ []) ∷ []) (members line_pool)
unfolding count
serve_all-refines_example =
    serve_all-refines (take_qubits (1 ∷ 2 ∷ []) ∷ release (1 ∷ []) ∷ []) line_pool
      line_pool-IsDistinct refl ((λ q. ground arith), ((λ q. ground arith), tt))

graph_allocator-IsComplete_example : IsComplete graph_allocator line
graph_allocator-IsComplete_example = graph_allocator-IsComplete line

-- The free qubits in another order than on a new device.
static_allocate-feasible_example :
    (m : Mapping) × ((static_allocate bell line
        (record { free_qubits = 2 ∷ 0 ∷ 1 ∷ []; temporary = false })
        no_limits).attempt
      ≡ placed m)
unfolding base_feasible count range_from
static_allocate-feasible_example =
    static_allocate-feasible bell line (record { free_qubits = 2 ∷ 0 ∷ 1 ∷ []; temporary = false })
      no_limits (λ q. ground arith) refl

-- Four qubits on a device of three.
static_allocate-infeasible_example :
    (static_allocate wide line line_pool no_limits).attempt ≡ cannot_place
unfolding base_feasible
static_allocate-infeasible_example =
    static_allocate-infeasible wide line line_pool no_limits (too_few_qubits 4 3)
      (λ q. ground arith) refl
