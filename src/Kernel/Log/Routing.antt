-- ===== src/Kernel/Log/Routing.antt =====
-- What submissions and routing in kernel/kernel.py append to the event log.
use dev_q.Prelude.{
  ℕ, suc, ◌-◌, arith, ◌≡◌, refl, ap, ◌∙◌, subst, List, [], ◌∷◌, ◌++◌, Option, none, some, inl, inr,
  Option-cases, get_elem?, discard,
}
use dev_q.Errors.{ok, >>=-eq-ok, ok-injective, or_raise, key_error, index_error}
use dev_q.Numeric.{Float}
use dev_q.Process.{new_qcb, Reason, create_job, Qcb, Request, get_job, unrunnable}
use dev_q.Router.{candidates, indices_of}
use dev_q.Router.Noise.{RouteDetail}
use dev_q.Router.Route
use dev_q.Router.Route.{Routed, chosen, unroutable}
use dev_q.Process.Table.{IsTable, create_job-fresh, get_job-update_self, map_job}
use dev_q.Kernel
use dev_q.Kernel.{
  Event, Stamped, Kernel, World, emit, dispatch, submit, cycle_end, next_cycle, observe, set_job,
  set_context, reject_job,
}
use dev_q.Kernel.Submit.{
  submit_job, decline, place_in_queue, explain_candidates, record_route, route_job, bind_job,
  route_ready_job, route_each,
}
use dev_q.Kernel.Log.{IsLogged, IsLogged-same, IsLogged-trans, emit-IsLogged}

module _ {F : Type 0} where
  pub decline-IsLogged :
      (id : ℕ) (j : Qcb F) (reason : Reason F) (k : Kernel F) → IsLogged k (decline id j reason k)
  unfolding decline
  decline-IsLogged id j reason k =
      unfold reject_job set_job in
      IsLogged-trans k _ _
        (emit-IsLogged (Kernel.reject id [] none reason j.circuit_hash j.circuit_label) k)
        (IsLogged-same _ _ refl refl refl (omega arith))

  pub place_in_queue-IsLogged :
      (i id : ℕ) (k k' : Kernel F) → place_in_queue i id k ≡ ok k' → IsLogged k k'
  unfolding place_in_queue
  place_in_queue-IsLogged i id k k' e =
      let (c, here, e1) = >>=-eq-ok (or_raise (get_elem? k.contexts i) index_error) _ e in
      subst (IsLogged k) (ok-injective e1)
        (unfold set_context in IsLogged-same k _ refl refl refl (omega arith))

  submit_job-IsLogged :
      (w : World F) (r : Request F) (k : Kernel F) → IsLogged k (submit_job w r k).0
  unfolding submit_job
  submit_job-IsLogged w r k =
      let queued = record k {
        table = (create_job k.table r).0;
        router_queue = k.router_queue ++ (create_job k.table r).1 ∷ [];
      } in
      unfold set_job observe in
      IsLogged-trans k queued _ (IsLogged-same k queued refl refl refl (omega arith)) (
        IsLogged-trans queued _ _ (emit-IsLogged (submit (create_job k.table r).1 r) queued)
          (IsLogged-same _ _ refl refl refl (omega arith)))

module _ {F : Type 0} ⦃fl : Float F⦄ where
  record_route-IsLogged :
      (id : ℕ) (j : Qcb F) (cs : List ℕ) (scores : Option (List (ℕ × F × RouteDetail F)))
      (choice : Routed F) (k : Kernel F)
      → IsLogged k (record_route id j cs scores choice k)
  unfolding record_route
  record_route-IsLogged id j cs scores (chosen i) k =
      unfold set_job in
      IsLogged-trans k _ _ (IsLogged-same k _ refl refl refl (omega arith))
        (emit-IsLogged (Kernel.route id i cs scores) _)
  record_route-IsLogged id j cs scores (unroutable reason) k =
      emit-IsLogged (Kernel.reject id cs scores reason j.circuit_hash j.circuit_label) k

  pub route_job-IsLogged :
      (id : ℕ) (j : Qcb F) (k : Kernel F) (r : Kernel F × Routed F)
      → route_job id j k ≡ ok r
      → IsLogged k r.0
  unfolding route_job
  route_job-IsLogged id j k r e =
      let cs = (candidates j k.contexts).0 in
      let (scores, told, e1) = >>=-eq-ok (explain_candidates k.router j cs) _ e in
      let (p, picked, e2) = >>=-eq-ok (Route.route k.router j k.contexts) _ e1 in
      let routed = record k { router = p.0 } in
      subst (λ (x : Kernel F × Routed F). IsLogged k x.0) (ok-injective e2)
        (IsLogged-trans k routed _ (IsLogged-same k routed refl refl refl (omega arith))
          (record_route-IsLogged id j (indices_of cs) scores p.1 routed))

  bind_job-IsLogged :
      (id : ℕ) (choice : Routed F) (k : Kernel F) (r : Kernel F × List ℕ)
      → bind_job id choice k ≡ ok r
      → IsLogged k r.0
  unfolding bind_job
  bind_job-IsLogged id (chosen i) k r e =
      let (k1, queued, e1) = >>=-eq-ok (place_in_queue i id k) _ e in
      subst (λ (x : Kernel F × List ℕ). IsLogged k x.0) (ok-injective e1)
        (place_in_queue-IsLogged i id k k1 queued)
  bind_job-IsLogged id (unroutable reason) k r e =
      subst (λ (x : Kernel F × List ℕ). IsLogged k x.0) (ok-injective e)
        (unfold reject_job set_job in IsLogged-same k _ refl refl refl (omega arith))

  route_ready_job-IsLogged :
      (id : ℕ) (k : Kernel F) (r : Kernel F × List ℕ) → route_ready_job id k ≡ ok r → IsLogged k r.0
  unfolding route_ready_job
  route_ready_job-IsLogged id k r e =
      let (j, found, e1) = >>=-eq-ok (or_raise (get_job k.table.jobs id) key_error) _ e in
      let left = record k { router_queue = discard id k.router_queue } in
      IsLogged-trans k left r.0 (IsLogged-same k left refl refl refl (omega arith))
        (elim (Option-cases j.circuit.unrunnable_reason) [
          | inr (text, e0) ↦
              subst (λ (x : Kernel F × List ℕ). IsLogged left x.0) (ok-injective (rw e0 at e1))
                (decline-IsLogged id j (unrunnable text) left)
          | inl e0 ↦
              let (p, routed, e2) = >>=-eq-ok (route_job id j left) _ (rw e0 at e1) in
              IsLogged-trans left p.0 r.0 (route_job-IsLogged id j left p routed)
                (bind_job-IsLogged id p.1 p.0 r e2)
        ])

  pub route_each-IsLogged :
      (ids : List ℕ) (k : Kernel F) (gone : List ℕ) (r : Kernel F × List ℕ)
      → route_each ids k gone ≡ ok r
      → IsLogged k r.0
  unfolding route_each
  route_each-IsLogged [] k gone r e =
      subst (λ (x : Kernel F × List ℕ). IsLogged k x.0) (ok-injective e)
        (IsLogged-same k k refl refl refl (omega arith))
  route_each-IsLogged (id ∷ ids) k gone r e =
      let (p, ran, e1) = >>=-eq-ok (route_ready_job id k) _ e in
      IsLogged-trans k p.0 r.0 (route_ready_job-IsLogged id k p ran)
        (route_each-IsLogged ids p.0 (gone ++ p.1) r e1)

-- A submission gives the job an id that no job had, puts it at the end of the router queue, and
-- appends one record: the request under that id, with the number that the job's control block,
-- new but for its stamps, keeps as its place of submission.
pub submit_job-recorded :
    {F : Type 0} (w : World F) (r : Request F) (k : Kernel F)
    → IsTable k.table
    → (get_job k.table.jobs (submit_job w r k).1 ≡ none)
      × ((submit_job w r k).0.router_queue ≡ k.router_queue ++ (submit_job w r k).1 ∷ [])
      × ((submit_job w r k).0.log
          ≡ k.log
            ++ record { event = submit (submit_job w r k).1 r; cycle = k.cycle; seq = k.seq } ∷ [])
      × (get_job (submit_job w r k).0.table.jobs (submit_job w r k).1
          ≡ some (record (new_qcb (submit_job w r k).1 r) {
            submitted_seq = some k.seq;
            submitted_at = some (w.clock k.observations);
          }))
unfolding submit_job
submit_job-recorded {F} w r k v =
    let (fresh, made, others, table) = create_job-fresh k.table r v in
    unfold set_job observe emit in
    (
      fresh,
      refl,
      refl,
      get_job-update_self (create_job k.table r).1 (stamp (suc k.seq - 1))
            (create_job k.table r).0.jobs
          ∙ ap (map_job (stamp (suc k.seq - 1))) made
          ∙ ap (λ (n : ℕ). some (stamp n (new_qcb (create_job k.table r).1 r))) last,
    )
  where
    stamp : ℕ → Qcb F → Qcb F
    stamp n j = record j { submitted_seq = some n; submitted_at = some (w.clock k.observations) }

    last : suc k.seq - 1 ≡ k.seq
    last = omega arith
