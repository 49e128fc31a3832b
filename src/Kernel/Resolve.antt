-- ===== src/Kernel/Resolve.antt =====
-- `_resolve_pending` and `poll` of kernel/kernel.py.
use dev_q.Prelude.{
  ℕ, ◌-◌, true, false, List, [], ◌∷◌, ◌++◌, none, some, get_elem?, add, if◌then◌else◌,
}
use dev_q.Errors.{key_error, index_error, type_error, Result, ok, ◌>>=◌, or_raise}
use dev_q.Alloc.{values}
use dev_q.Memory
use dev_q.Process.{Qcb, JobState, finished, failed, ExecutionResult, get_job}
use dev_q.Context.{Context}
use dev_q.Kernel.{Kernel, World, resolve, emit, observe, set_job, set_context}
use dev_q.Kernel.Dispatch.{schedule_each}

abbrev final_state : ExecutionResult → JobState
final_state r = if r.success then finished else failed

module _ {F : Type 0} where
  -- The context after the job's qubits came back.
  unfoldable pub release : Context F → Qcb F → Context F
  unfolding Memory.free values
  release c j = record c {
    memory_manager = Memory.free c.memory_manager (values j.v2p_map);
    running_jobs = c.running_jobs - 1;
  }

  -- What `_resolve_pending` does with a job whose future is done.
  unfoldable pub finalise :
      World F → ℕ → ℕ → Qcb F → Context F → ExecutionResult → Kernel F → Kernel F
  unfolding release set_context set_job observe emit
  finalise w id i j c result k =
      let freed = set_context i (release c j) k in
      let stamped =
        set_job id
          (λ j. record j {
            result = some result;
            state = final_state result;
            resolved_seq = some k.seq;
            resolved_at = some (w.clock k.observations);
          })
          (observe freed) in
      emit (resolve id c.index (final_state result) result j.circuit_hash) stamped

  -- The loop, with `still_pending` and the indices of `freed_ctxs`.
  unfoldable pub collect :
      World F → List ℕ → Kernel F → List ℕ → List ℕ → Result (Kernel F × List ℕ × List ℕ)
  unfolding finalise get_job observe add
  collect w [] k still freed = ok (k, still, freed)
  collect w (id ∷ ids) k still freed = do
    j ← or_raise (get_job k.table.jobs id) key_error
    elim j.future [
      | none ↦ collect w ids k (still ++ id ∷ []) freed
      | some future ↦ elim (w.done future k.observations) [
        | false ↦ collect w ids (observe k) (still ++ id ∷ []) freed
        | true ↦ do
          i ← or_raise j.device_index type_error
          c ← or_raise (get_elem? k.contexts i) index_error
          collect w ids (finalise w id i j c (w.result future) (observe k)) still (add i freed)
      ]
    ]

  unfoldable pub resolve_pending : World F → Kernel F → Result (Kernel F)
  unfolding collect schedule_each
  resolve_pending w k = do
    r ← collect w k.pending k [] []
    let collected = r.0
    retried ← schedule_each w r.2 (record collected { pending = r.1 }) []
    ok retried.0

  unfoldable pub poll : World F → Kernel F → Result (Kernel F)
  unfolding resolve_pending
  poll = resolve_pending
