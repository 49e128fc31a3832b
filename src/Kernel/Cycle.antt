-- ===== src/Kernel/Cycle.antt =====
-- `step` and `run_job` of kernel/kernel.py, and what the shell asks the kernel.
use dev_q.Prelude.{
  ℕ, Bool, true, false, not, List, Option, none, some, get_elem?, discard, contains, is_empty, any,
  range, range_from, length, if◌then◌else◌,
}
use dev_q.Errors.{key_error, value_error, index_error, Result, ok, raise, ◌>>=◌, or_raise}
use dev_q.Numeric.{Float}
use dev_q.Alloc.{Mapping}
use dev_q.Memory
use dev_q.Memory.{Outcome, allocated, no_placement, failed}
use dev_q.Process.{Qcb, ExecutionResult, unrunnable, waiting, get_job}
use dev_q.Router.Route.{Routed, chosen, unroutable}
use dev_q.Kernel.{Kernel, World, cycle_end, emit, next_cycle, set_job, set_context, reject_job}
use dev_q.Kernel.Dispatch.{execute, schedule_each}
use dev_q.Kernel.Resolve.{resolve_pending}
use dev_q.Kernel.Submit.{decline, place_in_queue, route_job, route_ready_jobs}

module _ {F : Type 0} ⦃fl : Float F⦄ where
  unfoldable pub step : World F → Kernel F → Result (Kernel F × List ℕ)
  unfolding next_cycle resolve_pending route_ready_jobs schedule_each emit range_from
  step w k = do
    collected ← resolve_pending w (next_cycle k)
    routed ← route_ready_jobs collected
    r ← schedule_each w (range (length k.contexts)) routed.0 routed.1
    ok (emit (cycle_end (length r.1)) r.0, r.1)

  -- `try: mapping = allocate(...) except Exception`: every failure leaves the job WAITING.
  unfoldable pub launch_now : World F → ℕ → ℕ → Outcome → Kernel F → Result (Kernel F)
  unfolding set_job execute place_in_queue
  launch_now w i id (allocated m) k = execute w i id (set_job id (λ j. record j { v2p_map = m }) k)
  launch_now w i id no_placement k =
      place_in_queue i id (set_job id (λ j. record j { state = waiting }) k)
  launch_now w i id (failed e) k =
      place_in_queue i id (set_job id (λ j. record j { state = waiting }) k)

  -- `run_job` after the routing.
  unfoldable pub run_routed : World F → ℕ → Qcb F → Routed F → Kernel F → Result (Kernel F)
  unfolding reject_job set_context launch_now Memory.allocate
  run_routed w id j (unroutable reason) k = ok (reject_job id reason k)
  run_routed w id j (chosen i) k = do
    c ← or_raise (get_elem? k.contexts i) index_error
    let call = Memory.allocate c.memory_manager j.circuit j.limits
    launch_now w i id call.outcome (set_context i (record c { memory_manager = call.manager }) k)

  -- `self.router_queue.remove(qcb)` raises ValueError where the job is not in the queue.
  unfoldable pub run_job : World F → ℕ → Kernel F → Result (Kernel F)
  unfolding next_cycle resolve_pending contains discard get_job decline route_job run_routed
  run_job w id k = do
    collected ← resolve_pending w (next_cycle k)
    let left = record collected { router_queue = discard id collected.router_queue }
    elim (contains id collected.router_queue) [
      | false ↦ raise value_error
      | true ↦ do
        j ← or_raise (get_job left.table.jobs id) key_error
        elim j.circuit.unrunnable_reason [
          | some reason ↦ ok (decline id j (unrunnable reason) left)
          | none ↦ do r ← route_job id j left; run_routed w id j r.1 r.0
        ]
    ]

module _ {F : Type 0} where
  unfoldable pub has_pending : Kernel F → Bool
  has_pending k = not (is_empty k.pending)

  unfoldable pub has_queued : Kernel F → Bool
  unfolding any
  has_queued k =
      if is_empty k.router_queue then any (λ c. not (is_empty c.queue)) k.contexts else true

  unfoldable pub get_job_mapping : Kernel F → ℕ → Option Mapping
  unfolding get_job
  get_job_mapping k id = elim (get_job k.table.jobs id) [ some j ↦ some j.v2p_map | none ↦ none ]

  unfoldable pub get_job_result : Kernel F → ℕ → Option ExecutionResult
  unfolding get_job
  get_job_result k id = elim (get_job k.table.jobs id) [ some j ↦ j.result | none ↦ none ]

  unfoldable pub get_free_qubits : Kernel F → ℕ → Result (List ℕ)
  get_free_qubits k i = do
    c ← or_raise (get_elem? k.contexts i) index_error
    ok c.memory_manager.pool.free_qubits
