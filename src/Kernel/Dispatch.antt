-- ===== src/Kernel/Dispatch.antt =====
-- `_execute`, `_allocation_scores` and `_schedule_ctx` of kernel/kernel.py. `_schedule_scores` is
-- None for each shipped scheduler, so no `schedule` event is emitted.
use dev_q.Prelude.{ℕ, suc, ◌-◌, List, [], ◌∷◌, ◌++◌, Option, none, some, get_elem?, if◌then◌else◌}
use dev_q.Errors.{key_error, index_error, Result, ok, ◌>>=◌, or_raise}
use dev_q.Alloc.{Decision, BlockDetail, values}
use dev_q.Process.{Qcb, running, is_rejected, get_job}
use dev_q.Context.{Context, schedule, site_of, put_site}
use dev_q.Kernel
use dev_q.Kernel.{Kernel, World, dispatch, emit, observe, set_job, set_context}

-- `qcb.shots if qcb.shots is not None else ctx.shots`
unfoldable pub resolve_shots : Option ℕ → ℕ → ℕ
resolve_shots (some shots) _ = shots
resolve_shots none shots = shots

module _ {F : Type 0} where
  -- `if not recorded` holds of an empty list as well.
  report_scores :
      Option (Decision F → List (List ℕ × F × BlockDetail F))
      → Option (Decision F)
      → Option (List (List ℕ × F × BlockDetail F))
  report_scores none _ = none
  report_scores (some _) none = none
  report_scores (some _) (some []) = none
  report_scores (some explain_recorded) (some (b ∷ bs)) = some (explain_recorded (b ∷ bs))

  unfoldable pub allocation_scores : Context F → Qcb F → Option (List (List ℕ × F × BlockDetail F))
  unfolding report_scores
  allocation_scores c j = report_scores c.memory_manager.allocator.scores j.alloc_decision

  unfoldable pub emit_scores : ℕ → Context F → Qcb F → Kernel F → Kernel F
  unfolding allocation_scores emit values
  emit_scores id c j k = elim (allocation_scores c j) [
    | none ↦ k
    | some scores ↦ emit (Kernel.allocate id c.index (values j.v2p_map) scores) k
  ]

  -- The last five statements: the stamps, the future, the state, the count and the list.
  unfoldable pub launch : World F → ℕ → ℕ → Context F → Kernel F → Kernel F
  unfolding set_job set_context observe
  launch w i id c k =
      let stamped =
        set_job id
          (λ j. record j {
            dispatched_seq = some (k.seq - 1);
            dispatched_at = some (w.clock k.observations);
            future = some k.futures;
            state = running;
          })
          (observe k) in
      let counted = set_context i (record c { running_jobs = suc c.running_jobs }) stamped in
      record counted { futures = suc k.futures; pending = counted.pending ++ id ∷ [] }

  unfoldable pub execute : World F → ℕ → ℕ → Kernel F → Result (Kernel F)
  unfolding resolve_shots emit emit_scores launch get_job
  execute w i id k = do
    j ← or_raise (get_job k.table.jobs id) key_error
    c ← or_raise (get_elem? k.contexts i) index_error
    let logged = emit (dispatch id c.index j.v2p_map (resolve_shots j.shots c.shots)) k
    ok (launch w i id c (emit_scores id c j logged))

  -- `for job in jobs: if job.state != REJECTED: self._execute(job, ctx)`
  unfoldable pub execute_each : World F → ℕ → List ℕ → Kernel F → Result (Kernel F)
  unfolding execute get_job
  execute_each w i [] k = ok k
  execute_each w i (id ∷ ids) k = do
    j ← or_raise (get_job k.table.jobs id) key_error
    k' ← if is_rejected j.state then ok k else execute w i id k
    execute_each w i ids k'

  unfoldable pub schedule_ctx : World F → ℕ → Kernel F → Result (Kernel F × List ℕ)
  unfolding schedule site_of put_site set_context execute_each
  schedule_ctx w i k = do
    c ← or_raise (get_elem? k.contexts i) index_error
    r ← schedule c.policy (site_of c k.table.jobs)
    let t = k.table
    let scheduled = record k { table = record t { jobs = r.0.jobs } }
    k' ← execute_each w i r.1 (set_context i (put_site c r.0) scheduled)
    ok (k', r.1)

  -- The processed jobs of the contexts with these indices, in turn.
  unfoldable pub schedule_each : World F → List ℕ → Kernel F → List ℕ → Result (Kernel F × List ℕ)
  unfolding schedule_ctx
  schedule_each w [] k processed = ok (k, processed)
  schedule_each w (i ∷ is) k processed = do
    r ← schedule_ctx w i k
    schedule_each w is r.0 (processed ++ r.1)
