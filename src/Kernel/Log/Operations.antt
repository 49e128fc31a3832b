-- ===== src/Kernel/Log/Operations.antt =====
-- What the operations of kernel/kernel.py append to the event log.
use dev_q.Prelude.{
  arith, ℕ, ◌≡◌, refl, subst, List, [], ◌∷◌, ◌++◌, inl, inr, Option-cases, Bool-cases, get_elem?,
  add, if◌then◌else◌,
}
use dev_q.Errors.{ok, >>=-eq-ok, ok-injective, or_raise, key_error, index_error, type_error}
use dev_q.Alloc.{values}
use dev_q.Process.{ExecutionResult, Qcb, is_rejected, get_job}
use dev_q.Context.{Context, schedule, site_of, put_site}
use dev_q.Kernel
use dev_q.Kernel.{
  Event, Stamped, Kernel, World, emit, dispatch, submit, cycle_end, next_cycle, observe, set_job,
  set_context, reject_job,
}
use dev_q.Kernel.Dispatch.{
  resolve_shots, allocation_scores, emit_scores, launch, execute, execute_each, schedule_ctx,
  schedule_each,
}
use dev_q.Kernel.Resolve.{finalise, collect, resolve_pending}
use dev_q.Kernel.Log.{IsLogged, IsLogged-same, IsLogged-trans, emit-IsLogged}

module _ {F : Type 0} where
  emit_scores-IsLogged :
      (id : ℕ) (c : Context F) (j : Qcb F) (k : Kernel F) → IsLogged k (emit_scores id c j k)
  unfolding emit_scores
  emit_scores-IsLogged id c j k = elim (Option-cases (allocation_scores c j)) [
    | inl silent ↦ rw (silent, emit_scores) (IsLogged-same k k refl refl refl (omega arith))
    | inr (scores, e) ↦
        rw (e, emit_scores) (emit-IsLogged (Kernel.allocate id c.index (values j.v2p_map) scores) k)
  ]

  launch-IsLogged :
      (w : World F) (i id : ℕ) (c : Context F) (k : Kernel F) → IsLogged k (launch w i id c k)
  unfolding launch
  launch-IsLogged w i id c k = IsLogged-same k (launch w i id c k) refl refl refl (omega arith)

  pub execute-IsLogged :
      (w : World F) (i id : ℕ) (k k' : Kernel F) → execute w i id k ≡ ok k' → IsLogged k k'
  unfolding execute
  execute-IsLogged w i id k k' e =
      let (j, found, e1) = >>=-eq-ok (or_raise (get_job k.table.jobs id) key_error) _ e in
      let (c, here, e2) = >>=-eq-ok (or_raise (get_elem? k.contexts i) index_error) _ e1 in
      let logged = emit (dispatch id c.index j.v2p_map (resolve_shots j.shots c.shots)) k in
      let scored = emit_scores id c j logged in
      subst (IsLogged k) (ok-injective e2) (
        IsLogged-trans k logged _ (emit-IsLogged _ k) (
          IsLogged-trans logged scored _ (emit_scores-IsLogged id c j logged)
            (launch-IsLogged w i id c scored)))

  execute_each-IsLogged :
      (w : World F) (i : ℕ) (ids : List ℕ) (k k' : Kernel F)
      → execute_each w i ids k ≡ ok k'
      → IsLogged k k'
  unfolding execute_each
  execute_each-IsLogged w i [] k k' e =
      subst (IsLogged k) (ok-injective e) (IsLogged-same k k refl refl refl (omega arith))
  execute_each-IsLogged w i (id ∷ ids) k k' e =
      let (j, found, e1) = >>=-eq-ok (or_raise (get_job k.table.jobs id) key_error) _ e in
      let (k1, ran, e2) = >>=-eq-ok (if is_rejected j.state then ok k else execute w i id k) _ e1 in
      IsLogged-trans k k1 k'
        (elim (Bool-cases (is_rejected j.state)) [
          | inl gone ↦
              subst (IsLogged k) (ok-injective (rw gone at ran))
                (IsLogged-same k k refl refl refl (omega arith))
          | inr live ↦ execute-IsLogged w i id k k1 (rw live at ran)
        ])
        (execute_each-IsLogged w i ids k1 k' e2)

  schedule_ctx-IsLogged :
      (w : World F) (i : ℕ) (k : Kernel F) (r : Kernel F × List ℕ)
      → schedule_ctx w i k ≡ ok r
      → IsLogged k r.0
  unfolding schedule_ctx
  schedule_ctx-IsLogged w i k r e =
      let (c, here, e1) = >>=-eq-ok (or_raise (get_elem? k.contexts i) index_error) _ e in
      let (p, picked, e2) = >>=-eq-ok (schedule c.policy (site_of c k.table.jobs)) _ e1 in
      let t = k.table in
      let scheduled = record k { table = record t { jobs = p.0.jobs } } in
      let ready = set_context i (put_site c p.0) scheduled in
      let (k1, ran, e3) = >>=-eq-ok (execute_each w i p.1 ready) _ e2 in
      subst (λ (x : Kernel F × List ℕ). IsLogged k x.0) (ok-injective e3)
        (IsLogged-trans k ready k1
          (unfold set_context in IsLogged-same k ready refl refl refl (omega arith))
          (execute_each-IsLogged w i p.1 ready k1 ran))

  pub schedule_each-IsLogged :
      (w : World F) (is : List ℕ) (k : Kernel F) (processed : List ℕ) (r : Kernel F × List ℕ)
      → schedule_each w is k processed ≡ ok r
      → IsLogged k r.0
  unfolding schedule_each
  schedule_each-IsLogged w [] k processed r e =
      subst (λ (x : Kernel F × List ℕ). IsLogged k x.0) (ok-injective e)
        (IsLogged-same k k refl refl refl (omega arith))
  schedule_each-IsLogged w (i ∷ is) k processed r e =
      let (p, ran, e1) = >>=-eq-ok (schedule_ctx w i k) _ e in
      IsLogged-trans k p.0 r.0 (schedule_ctx-IsLogged w i k p ran)
        (schedule_each-IsLogged w is p.0 (processed ++ p.1) r e1)

  finalise-IsLogged :
      (w : World F) (id i : ℕ) (j : Qcb F) (c : Context F) (result : ExecutionResult) (k : Kernel F)
      → IsLogged k (finalise w id i j c result k)
  unfolding finalise
  finalise-IsLogged w id i j c result k =
      unfold set_context set_job observe in
      IsLogged-trans k _ _ (IsLogged-same k _ refl refl refl (omega arith)) (emit-IsLogged _ _)

  collect-IsLogged :
      (w : World F) (ids : List ℕ) (k : Kernel F) (still freed : List ℕ)
      (r : Kernel F × List ℕ × List ℕ)
      → collect w ids k still freed ≡ ok r
      → IsLogged k r.0
  unfolding collect
  collect-IsLogged w [] k still freed r e =
      subst (λ (x : Kernel F × List ℕ × List ℕ). IsLogged k x.0) (ok-injective e)
        (IsLogged-same k k refl refl refl (omega arith))
  collect-IsLogged w (id ∷ ids) k still freed r e =
      let (j, found, e1) = >>=-eq-ok (or_raise (get_job k.table.jobs id) key_error) _ e in
      let seen : IsLogged k (observe k) =
        unfold observe in IsLogged-same k (observe k) refl refl refl (omega arith) in
      elim (Option-cases j.future) [
        | inl idle ↦ collect-IsLogged w ids k (still ++ id ∷ []) freed r (rw idle at e1)
        | inr (future, started) ↦ elim (Bool-cases (w.done future k.observations)) [
          | inr running ↦ IsLogged-trans k (observe k) r.0 seen (
              collect-IsLogged w ids (observe k) (still ++ id ∷ []) freed r
                (rw (started, running) at e1))
          | inl done ↦
              let (i, placed, e2) =
                >>=-eq-ok (or_raise j.device_index type_error) _ (rw (started, done) at e1) in
              let (c, here, e3) = >>=-eq-ok (or_raise (get_elem? k.contexts i) index_error) _ e2 in
              let k1 = finalise w id i j c (w.result future) (observe k) in
              IsLogged-trans k (observe k) r.0 seen (
                IsLogged-trans (observe k) k1 r.0
                  (finalise-IsLogged w id i j c (w.result future) (observe k))
                  (collect-IsLogged w ids k1 still (add i freed) r e3))
        ]
      ]

  pub resolve_pending-IsLogged :
      (w : World F) (k k' : Kernel F) → resolve_pending w k ≡ ok k' → IsLogged k k'
  unfolding resolve_pending
  resolve_pending-IsLogged w k k' e =
      let (r, ran, e1) = >>=-eq-ok (collect w k.pending k [] []) _ e in
      let left = record (r.0) { pending = r.1 } in
      let (p, retried, e2) = >>=-eq-ok (schedule_each w r.2 left []) _ e1 in
      subst (IsLogged k) (ok-injective e2) (
        IsLogged-trans k r.0 p.0 (collect-IsLogged w k.pending k [] [] r ran) (
          IsLogged-trans r.0 left p.0 (IsLogged-same r.0 left refl refl refl (omega arith))
            (schedule_each-IsLogged w r.2 left [] p retried)))
