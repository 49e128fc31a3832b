-- ===== src/Kernel/Submit.antt =====
-- `submit_job`, `_route` and `_route_ready_jobs` of kernel/kernel.py.
use dev_q.Prelude.{
  ℕ, ◌-◌, List, [], ◌∷◌, ◌++◌, Option, none, some, get_elem?, discard, is_empty, if◌then◌else◌,
}
use dev_q.Errors.{key_error, index_error, Result, ok, ◌>>=◌, or_raise}
use dev_q.Numeric.{Float}
use dev_q.Process.{Qcb, Request, Reason, unrunnable, create_job, get_job}
use dev_q.Context.{Context}
use dev_q.Scheduler.{enqueue}
use dev_q.Router.{candidates, indices_of}
use dev_q.Router.Noise.{RouteDetail}
use dev_q.Router.Route
use dev_q.Router.Route.{Router, Routed, chosen, unroutable, explain}
use dev_q.Kernel
use dev_q.Kernel.{Kernel, World, submit, reject, emit, observe, set_job, set_context, reject_job}

module _ {F : Type 0} where
  unfoldable pub submit_job : World F → Request F → Kernel F → Kernel F × ℕ
  unfolding create_job emit set_job observe
  submit_job w r k =
      let (table, id) = create_job k.table r in
      let queued = record k { table = table; router_queue = k.router_queue ++ id ∷ [] } in
      let logged = emit (submit id r) queued in
      (
        set_job id
            (λ j. record j {
              submitted_seq = some (logged.seq - 1);
              submitted_at = some (w.clock logged.observations);
            })
            (observe logged),
        id,
      )

  -- The guard on `unrunnable_reason`: a rejection with no candidates and no scores.
  unfoldable pub decline : ℕ → Qcb F → Reason F → Kernel F → Kernel F
  unfolding emit reject_job
  decline id j reason k =
      reject_job id reason (emit (reject id [] none reason j.circuit_hash j.circuit_label) k)

  unfoldable pub place_in_queue : ℕ → ℕ → Kernel F → Result (Kernel F)
  unfolding set_context enqueue
  place_in_queue i id k = do
    c ← or_raise (get_elem? k.contexts i) index_error
    ok (set_context i (record c { queue = enqueue id c.queue }) k)

module _ {F : Type 0} ⦃fl : Float F⦄ where
  -- `self.router.explain(qcb, candidates) if candidates else None`
  unfoldable pub explain_candidates :
      Router F → Qcb F → List (Context F) → Result (Option (List (ℕ × F × RouteDetail F)))
  unfolding explain
  explain_candidates r j cs = if is_empty cs then ok none else explain r j cs

  -- The two branches at the end of `_route`.
  unfoldable pub record_route :
      ℕ → Qcb F → List ℕ → Option (List (ℕ × F × RouteDetail F)) → Routed F → Kernel F → Kernel F
  unfolding emit set_job
  record_route id j cs scores (chosen i) k =
      emit (Kernel.route id i cs scores) (set_job id (λ j. record j { device_index = some i }) k)
  record_route id j cs scores (unroutable reason) k =
      emit (reject id cs scores reason j.circuit_hash j.circuit_label) k

  unfoldable pub route_job : ℕ → Qcb F → Kernel F → Result (Kernel F × Routed F)
  unfolding candidates explain_candidates Route.route record_route indices_of
  route_job id j k = do
    let cs = (candidates j k.contexts).0
    scores ← explain_candidates k.router j cs
    r ← Route.route k.router j k.contexts
    ok (record_route id j (indices_of cs) scores r.1 (record k { router = r.0 }), r.1)

  -- After `_route`: the job is rejected, or enters the chosen context's queue.
  unfoldable pub bind_job : ℕ → Routed F → Kernel F → Result (Kernel F × List ℕ)
  unfolding place_in_queue reject_job
  bind_job id (chosen i) k = do k' ← place_in_queue i id k; ok (k', [])
  bind_job id (unroutable reason) k = ok (reject_job id reason k, id ∷ [])

  -- The body of the loop over the router queue: the kernel, and the job if it was rejected.
  unfoldable pub route_ready_job : ℕ → Kernel F → Result (Kernel F × List ℕ)
  unfolding get_job discard decline route_job bind_job
  route_ready_job id k = do
    j ← or_raise (get_job k.table.jobs id) key_error
    let left = record k { router_queue = discard id k.router_queue }
    elim j.circuit.unrunnable_reason [
      | some reason ↦ ok (decline id j (unrunnable reason) left, id ∷ [])
      | none ↦ do r ← route_job id j left; bind_job id r.1 r.0
    ]

  unfoldable pub route_each : List ℕ → Kernel F → List ℕ → Result (Kernel F × List ℕ)
  unfolding route_ready_job
  route_each [] k rejected = ok (k, rejected)
  route_each (id ∷ ids) k rejected = do
    r ← route_ready_job id k
    route_each ids r.0 (rejected ++ r.1)

  unfoldable pub route_ready_jobs : Kernel F → Result (Kernel F × List ℕ)
  unfolding route_each
  route_ready_jobs k = route_each k.router_queue k []
