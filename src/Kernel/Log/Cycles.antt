-- ===== src/Kernel/Log/Cycles.antt =====
-- What a cycle and a direct run of a job in kernel/kernel.py append to the event log.
use dev_q.Prelude.{
  arith, ℕ, ◌≡◌, refl, subst, List, [], inl, inr, Option-cases, Bool-cases, length, get_elem?,
  contains, discard, range,
}
use dev_q.Errors.{ok, >>=-eq-ok, ok-injective, or_raise, key_error, index_error}
use dev_q.Numeric.{Float}
use dev_q.Memory
use dev_q.Memory.{Outcome, allocated, no_placement, failed}
use dev_q.Process.{waiting, Qcb, get_job, unrunnable}
use dev_q.Router.Route.{Routed, chosen, unroutable}
use dev_q.Kernel.{Kernel, World, cycle_end, next_cycle, set_job, set_context, reject_job}
use dev_q.Kernel.Dispatch.{schedule_each}
use dev_q.Kernel.Resolve.{resolve_pending}
use dev_q.Kernel.Submit.{route_job, route_ready_jobs}
use dev_q.Kernel.Cycle.{step, launch_now, run_routed, run_job}
use dev_q.Kernel.Log.{IsLogged, IsLogged-same, IsLogged-trans, emit-IsLogged}
use dev_q.Kernel.Log.Operations.{resolve_pending-IsLogged, schedule_each-IsLogged, execute-IsLogged}
use dev_q.Kernel.Log.Routing.{
  decline-IsLogged, place_in_queue-IsLogged, route_job-IsLogged, route_each-IsLogged,
}

-- A cycle that returns has only appended to the log: the new records are numbered on from the
-- kernel's counter without a gap, all carry the number of this cycle, one more than the last, and
-- the counter stands behind them.
pub step-IsLogged :
    {F : Type 0} ⦃fl : Float F⦄ (w : World F) (k k' : Kernel F) (processed : List ℕ)
    → step w k ≡ ok (k', processed)
    → IsLogged (next_cycle k) k'
unfolding step
step-IsLogged {F} w k k' processed e =
    let begun = next_cycle k in
    let (k1, collected, e1) = >>=-eq-ok (resolve_pending w begun) _ e in
    let (p, routed, e2) = >>=-eq-ok (route_ready_jobs k1) _ e1 in
    let (r, ran, e3) = >>=-eq-ok (schedule_each w (range (length k.contexts)) p.0 p.1) _ e2 in
    subst (λ (x : Kernel F × List ℕ). IsLogged begun x.0) (ok-injective e3)
      (IsLogged-trans begun k1 _ (resolve_pending-IsLogged w begun k1 collected) (
        IsLogged-trans k1 p.0 _
          (route_each-IsLogged k1.router_queue k1 [] p (unfold route_ready_jobs in routed))
          (IsLogged-trans p.0 r.0 _
            (schedule_each-IsLogged w (range (length k.contexts)) p.0 p.1 r ran)
            (emit-IsLogged (cycle_end (length r.1)) r.0))))

module _ {F : Type 0} ⦃fl : Float F⦄ where
  launch_now-IsLogged :
      (w : World F) (i id : ℕ) (o : Outcome) (k k' : Kernel F)
      → launch_now w i id o k ≡ ok k'
      → IsLogged k k'
  unfolding launch_now
  launch_now-IsLogged w i id (allocated m) k k' e =
      let mapped = set_job id (λ j. record j { v2p_map = m }) k in
      IsLogged-trans k mapped k'
        (unfold set_job in IsLogged-same k mapped refl refl refl (omega arith))
        (execute-IsLogged w i id mapped k' e)
  launch_now-IsLogged w i id no_placement k k' e =
      let kept = set_job id (λ j. record j { state = waiting }) k in
      IsLogged-trans k kept k' (unfold set_job in IsLogged-same k kept refl refl refl (omega arith))
        (place_in_queue-IsLogged i id kept k' e)
  launch_now-IsLogged w i id (failed x) k k' e =
      let kept = set_job id (λ j. record j { state = waiting }) k in
      IsLogged-trans k kept k' (unfold set_job in IsLogged-same k kept refl refl refl (omega arith))
        (place_in_queue-IsLogged i id kept k' e)

  run_routed-IsLogged :
      (w : World F) (id : ℕ) (j : Qcb F) (choice : Routed F) (k k' : Kernel F)
      → run_routed w id j choice k ≡ ok k'
      → IsLogged k k'
  unfolding run_routed
  run_routed-IsLogged w id j (unroutable reason) k k' e =
      subst (IsLogged k) (ok-injective e)
        (unfold reject_job set_job in IsLogged-same k _ refl refl refl (omega arith))
  run_routed-IsLogged w id j (chosen i) k k' e =
      let (c, here, e1) = >>=-eq-ok (or_raise (get_elem? k.contexts i) index_error) _ e in
      let call = Memory.allocate c.memory_manager j.circuit j.limits in
      let tried = set_context i (record c { memory_manager = call.manager }) k in
      IsLogged-trans k tried k'
        (unfold set_context in IsLogged-same k tried refl refl refl (omega arith))
        (launch_now-IsLogged w i id call.outcome tried k' e1)

-- A direct run of a job that returns has only appended to the log: the new records are numbered
-- on from the kernel's counter without a gap, all carry the number of the cycle that it began, and
-- the counter stands behind them.
pub run_job-IsLogged :
    {F : Type 0} ⦃fl : Float F⦄ (w : World F) (id : ℕ) (k k' : Kernel F)
    → run_job w id k ≡ ok k'
    → IsLogged (next_cycle k) k'
unfolding run_job
run_job-IsLogged w id k k' e =
    let begun = next_cycle k in
    let (k1, collected, e1) = >>=-eq-ok (resolve_pending w begun) _ e in
    let left = record k1 { router_queue = discard id k1.router_queue } in
    IsLogged-trans begun k1 k' (resolve_pending-IsLogged w begun k1 collected) (
      IsLogged-trans k1 left k' (IsLogged-same k1 left refl refl refl (omega arith))
        (elim (Bool-cases (contains id k1.router_queue)) [
          | inr absent ↦ absurd (cc (rw absent at e1))
          | inl queued ↦
              let (j, found, e2) =
                >>=-eq-ok (or_raise (get_job left.table.jobs id) key_error) _ (rw queued at e1) in
              elim (Option-cases j.circuit.unrunnable_reason) [
                | inr (text, e0) ↦
                    subst (IsLogged left) (ok-injective (rw e0 at e2))
                      (decline-IsLogged id j (unrunnable text) left)
                | inl e0 ↦
                    let (p, routed, e3) = >>=-eq-ok (route_job id j left) _ (rw e0 at e2) in
                    IsLogged-trans left p.0 k' (route_job-IsLogged id j left p routed)
                      (run_routed-IsLogged w id j p.1 p.0 k' e3)
              ]
        ]))
