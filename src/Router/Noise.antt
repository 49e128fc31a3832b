-- ===== src/Router/Noise.antt =====
-- kernel/router/noise_router.py: the device with the lowest mix of queue pressure and best-case
-- noise cost.
use dev_q.Prelude.{
  ℕ, ◌+◌, ◌&&◌, not, List, [], ◌∷◌, Option, none, some, map, select, contains, ltb, if◌then◌else◌,
}
use dev_q.Errors.{allocator_bug, Result, ok, raise, ◌>>=◌}
use dev_q.Numeric.{Float}
use dev_q.Pool.{new_pool}
use dev_q.Device.{Device, Edge, edges, qubit_error, edge_error}
use dev_q.Sweep.{Scoring, sweep_decision, explain_recorded}
use dev_q.Alloc.{BlockWeights, values, Attempt, placed, cannot_place, bug}
use dev_q.Alloc.NoiseGraph.{sum_from}
use dev_q.Process.{Qcb}
use dev_q.Context.{Context, queue_depth}

-- The error sums of the mapping that the dry run returns; `none` where it fails. The mix of a
-- recorded decision travels with its terms; a live one has none.
pub record RouteTerms (F : Type 0) : Type 0 where
  pub queue_pressure : F
  pub error_sums : Option (F × F)
  pub recorded_mix : Option (F × F)

pub record RouteDetail (F : Type 0) : Type 0 where
  pub queue_pressure : F
  pub best_case_cost : F
  pub error_sums : Option (F × F)
  pub queue_pressure_norm : F
  pub best_case_cost_norm : F
  pub router_queue_weight : F
  pub router_noise_weight : F
  pub weights : BlockWeights F

-- The instance's weights: the fixed mix and the swept split.
pub record RouterWeights (F : Type 0) : Type 0 where
  pub router_queue_weight : F
  pub router_noise_weight : F
  pub weights : BlockWeights F

module _ {F : Type 0} ⦃fl : Float F⦄ where
  finite : List F → List F
  unfolding select
  finite vs = select (λ v. not (fl.equal v fl.inf)) vs

  min_from : F → List F → F
  min_from m [] = m
  min_from m (x ∷ xs) = min_from (if fl.less x m then x else m) xs

  max_from : F → List F → F
  max_from m [] = m
  max_from m (x ∷ xs) = max_from (if fl.less m x then x else m) xs

  -- The loop body of `_min_max`.
  normalise : F → F → F → F
  normalise lo span v =
      if fl.equal v fl.inf
      then fl.of_count 1
      else if fl.equal span (fl.of_count 0)
      then fl.of_count 0
      else fl.divide (fl.minus v lo) span

  min_max : List F → List F
  unfolding finite min_from max_from normalise
  min_max vs = elim (finite vs) [
    | [] ↦ map (λ v. fl.of_count 1) vs
    | x ∷ xs ↦ let lo = min_from x xs in map (normalise lo (fl.minus (max_from x xs) lo)) vs
  ]

  queue_pressure_of : Context F → ℕ
  unfolding queue_depth
  queue_pressure_of c = queue_depth c + c.running_jobs

  -- The loop over the device's edges with both ends in the mapping.
  edge_cost : Device F → List ℕ → List Edge → F → F
  unfolding contains edge_error
  edge_cost d qubits [] acc = acc
  edge_cost d qubits ((u, v) ∷ rest) acc =
      edge_cost d qubits rest
        (if contains u qubits && contains v qubits then fl.plus acc (edge_error d u v) else acc)

  -- `_best_case_cost`: a dry run on a fully free pool. Only the two sums are used.
  cost_of : Device F → Attempt → Result (Option (F × F))
  unfolding sum_from edge_cost edges qubit_error values
  cost_of d cannot_place = ok none
  cost_of d bug = raise allocator_bug
  cost_of d (placed m) = ok (
      some (
        sum_from (fl.of_count 0) (map (qubit_error d) (values m)),
        edge_cost d (values m) (edges d) (fl.of_count 0),
      ))

  best_case_cost : Context F → Qcb F → Result (Option (F × F))
  unfolding cost_of new_pool
  best_case_cost c j =
      let mm = c.memory_manager in
      cost_of mm.device
        (mm.allocator.allocate j.circuit mm.device (new_pool mm.device.num_qubits) j.limits).attempt

  -- `_sweep_terms`
  route_terms : Qcb F → List (Context F) → Result (List (ℕ × RouteTerms F))
  unfolding best_case_cost queue_pressure_of
  route_terms j [] = ok []
  route_terms j (c ∷ cs) = do
    sums ← best_case_cost c j
    rest ← route_terms j cs
    let terms : RouteTerms F = record {
      queue_pressure = fl.of_count (queue_pressure_of c);
      error_sums = sums;
      recorded_mix = none;
    }
    ok ((c.index, terms) ∷ rest)

  -- `_sweep_score`: the pair of pressure and cost.
  route_score : RouteTerms F → BlockWeights F → F × F
  route_score t w = elim t.error_sums [
    | none ↦ (t.queue_pressure, fl.inf)
    | some (q_sum, e_sum) ↦ (
      t.queue_pressure,
      fl.plus (fl.times w.qubit_error_weight q_sum) (fl.times w.edge_error_weight e_sum),
    )
  ]

  -- The mix that the first candidate recorded, or else the instance's own.
  mix_of : RouterWeights F → List (ℕ × RouteTerms F × (F × F)) → F × F
  mix_of r [] = (r.router_queue_weight, r.router_noise_weight)
  mix_of r ((_, t, _) ∷ _) = elim t.recorded_mix [
    | some mix ↦ mix
    | none ↦ (r.router_queue_weight, r.router_noise_weight)
  ]

  zip_rows :
      F × F
      → BlockWeights F
      → List (ℕ × RouteTerms F × (F × F))
      → List F
      → List F
      → List (ℕ × F × RouteDetail F)
  zip_rows mix w ((key, t, raw) ∷ rows) (p ∷ ps) (c ∷ cs) =
      (
        key,
        fl.plus (fl.times mix.0 p) (fl.times mix.1 c),
        record {
          queue_pressure = raw.0;
          best_case_cost = raw.1;
          error_sums = t.error_sums;
          queue_pressure_norm = p;
          best_case_cost_norm = c;
          router_queue_weight = mix.0;
          router_noise_weight = mix.1;
          weights = w;
        },
      )
      ∷ zip_rows mix w rows ps cs
  zip_rows mix w _ _ _ = []

  -- `_sweep_rank`
  rank_routes :
      RouterWeights F
      → List (ℕ × RouteTerms F × (F × F))
      → BlockWeights F
      → List (ℕ × F × RouteDetail F)
  unfolding mix_of zip_rows min_max
  rank_routes r scored w =
      zip_rows (mix_of r scored) w scored (min_max (map (λ s. s.2.0) scored))
        (min_max (map (λ s. s.2.1) scored))

  route_scoring :
      RouterWeights F → Scoring F ℕ (RouteTerms F) (BlockWeights F) (F × F) (RouteDetail F)
  unfolding route_score rank_routes
  route_scoring r = record { sweep_score = route_score; sweep_rank = rank_routes r; key_less = ltb }

  unfoldable pub select_noise : RouterWeights F → Qcb F → List (Context F) → Result ℕ
  unfolding route_terms route_scoring sweep_decision
  select_noise r j candidates = do
    tagged ← route_terms j candidates
    sweep_decision (route_scoring r) tagged r.weights

  unfoldable pub explain_noise :
      RouterWeights F → Qcb F → List (Context F) → Result (List (ℕ × F × RouteDetail F))
  unfolding route_terms route_scoring explain_recorded
  explain_noise r j candidates = do
    tagged ← route_terms j candidates
    ok (explain_recorded (route_scoring r) tagged r.weights)
