-- ===== src/Scheduler/Attempt.antt =====
-- What `_attempt_allocation` of kernel/scheduler/base_scheduler.py does to one job, given an
-- allocator that keeps its contract.
use dev_q.Prelude.{
  ℕ, ◌+◌, ◌≡◌, ◌≢◌, refl, sym, ap, ◌∙◌, subst, Bool, true, false, ◌⊎◌, inl, inr, Option, none, some,
  count, IsDistinct, Option-cases, arith,
}
use dev_q.Errors.{ok-injective, ok}
use dev_q.Numeric.{Float}
use dev_q.Alloc.{DeviceReason, values}
use dev_q.Memory
use dev_q.Memory.{MemoryManager, Outcome, allocated, no_placement, failed, unsatisfiable_reason}
use dev_q.Memory.Contract.{IsHonest, IsClean, allocate-IsClean}
use dev_q.Process.{Qcb, running, waiting, rejected, get_job, update_job}
use dev_q.Process.Table.{get_job-update_self, get_job-update_ne}
use dev_q.Scheduler.{Site, classify, conclude, attempt_allocation}

module _ {F : Type 0} where
  -- The job's state after the attempt, and the qubits that it holds.
  abbrev pub IsSettled : MemoryManager F → MemoryManager F → Qcb F → Bool → Type 0
  IsSettled before after j true =
      (j.state ≡ running)
      × ((q : ℕ)
          → count q after.pool.free_qubits + count q (values j.v2p_map)
            ≡ count q before.pool.free_qubits)
  IsSettled before after j false =
      (after ≡ before)
      × ((j.state ≡ rejected) × (unsatisfiable_reason before j.circuit j.limits ≢ none)
          ⊎ (j.state ≡ waiting) × (unsatisfiable_reason before j.circuit j.limits ≡ none))

  pub record IsTried (s s' : Site F) (id : ℕ) (success : Bool) : Type 0 where
    pub job : Qcb F
    pub found : get_job s'.jobs id ≡ some job
    pub others : (i : ℕ) → id ≢ i → get_job s'.jobs i ≡ get_job s.jobs i
    pub asked :
        (j : Qcb F)
        → get_job s.jobs id ≡ some j
        → (job.circuit ≡ j.circuit) × (job.limits ≡ j.limits)
    pub queue : s'.queue ≡ s.queue
    pub device : s'.memory.device ≡ s.memory.device
    pub allocator : s'.memory.allocator ≡ s.memory.allocator
    pub settled : IsSettled s.memory s'.memory job success

  same_request :
      (s : Site F) (id : ℕ) (j : Qcb F)
      → get_job s.jobs id ≡ some j
      → (i : Qcb F) → get_job s.jobs id ≡ some i
      → (j.circuit ≡ i.circuit) × (j.limits ≡ i.limits)
  same_request s id j found i here =
      let same : j ≡ i = cc in
      (ap (λ (x : Qcb F). x.circuit) same, ap (λ (x : Qcb F). x.limits) same)

  classify-same :
      (reason : Option (DeviceReason F)) (j : Qcb F)
      → ((classify reason j).circuit ≡ j.circuit) × ((classify reason j).limits ≡ j.limits)
  unfolding classify
  classify-same none j = (refl, refl)
  classify-same (some r) j = (refl, refl)

  classify-IsSettled :
      (mm : MemoryManager F) (j : Qcb F)
      → IsSettled mm mm (classify (unsatisfiable_reason mm j.circuit j.limits) j) false
  classify-IsSettled mm j = (refl, go (unsatisfiable_reason mm j.circuit j.limits) refl)
    where
      go :
          (reason : Option (DeviceReason F))
          → unsatisfiable_reason mm j.circuit j.limits ≡ reason
          → ((classify reason j).state ≡ rejected)
              × (unsatisfiable_reason mm (classify reason j).circuit (classify reason j).limits
                  ≢ none)
            ⊎ ((classify reason j).state ≡ waiting)
              × (unsatisfiable_reason mm (classify reason j).circuit (classify reason j).limits
                  ≡ none)
      go none e = unfold classify in inr (refl, e)
      go (some r) e = unfold classify in inl (refl, λ n. cc)

module _ {F : Type 0} ⦃fl : Float F⦄ where
  conclude-IsTried :
      (s s' : Site F) (id : ℕ) (j : Qcb F) (call : Memory.Call F) (o : Outcome) (b : Bool)
      → get_job s.jobs id ≡ some j
      → IsClean j.circuit j.limits s.memory o call.manager
      → conclude s id j call o ≡ ok (s', b)
      → IsTried s s' id b
  unfolding conclude
  conclude-IsTried s s' id j call (allocated m) b found clean e =
      let result : Site F × Bool = (
        record s {
          memory = call.manager;
          jobs =
              update_job id
                (λ j. record j { v2p_map = m; state = running; alloc_decision = call.decision })
                s.jobs;
        },
        true,
      ) in
      subst (λ (r : Site F × Bool). IsTried s r.0 id r.1) (ok-injective {x = result} e)
        (record {
          job = record j { v2p_map = m; state = running; alloc_decision = call.decision };
          found =
              rw
                (
                  get_job-update_self id
                      (λ j. record j {
                        v2p_map = m;
                        state = running;
                        alloc_decision = call.decision;
                      })
                      s.jobs,
                  found,
                )
                refl;
          others = λ i ne. get_job-update_ne id i _ s.jobs ne;
          asked = same_request s id j found;
          queue = refl;
          device = ap (λ (mm : MemoryManager F). mm.device) clean.1;
          allocator = ap (λ (mm : MemoryManager F). mm.allocator) clean.1;
          settled = (refl, clean.0.reserved);
        })
  conclude-IsTried s s' id j call no_placement b found clean e =
      let reason = unsatisfiable_reason call.manager j.circuit j.limits in
      let result : Site F × Bool = (
        record s { memory = call.manager; jobs = update_job id (classify reason) s.jobs },
        false,
      ) in
      subst (λ (r : Site F × Bool). IsTried s r.0 id r.1) (ok-injective {x = result} e)
        (record {
          job = classify reason j;
          found = rw (get_job-update_self id (classify reason) s.jobs, found) refl;
          others = λ i ne. get_job-update_ne id i _ s.jobs ne;
          asked = λ i here.
              let (c, l) = same_request s id j found i here in
              ((classify-same reason j).0 ∙ c, (classify-same reason j).1 ∙ l);
          queue = refl;
          device = ap (λ (mm : MemoryManager F). mm.device) clean;
          allocator = ap (λ (mm : MemoryManager F). mm.allocator) clean;
          settled =
              subst
                (λ mm.
                  IsSettled s.memory mm (classify (unsatisfiable_reason mm j.circuit j.limits) j)
                    false)
                (sym clean) (classify-IsSettled s.memory j);
        })
  conclude-IsTried s s' id j call (failed x) b found clean e = absurd clean

-- With an allocator that keeps its contract, an attempt that returns has either made the job
-- RUNNING and taken exactly its qubits out of the pool, or changed no qubit and made the job
-- REJECTED, where the device can never run it, or WAITING, where it can. No other job changes.
pub attempt_allocation-IsTried :
    {F : Type 0} ⦃fl : Float F⦄ (s s' : Site F) (id : ℕ) (b : Bool)
    → IsHonest s.memory.allocator s.memory.device
    → IsDistinct s.memory.pool.free_qubits
    → attempt_allocation s id ≡ ok (s', b)
    → IsTried s s' id b
unfolding attempt_allocation
attempt_allocation-IsTried s s' id b honest dist e = elim (Option-cases (get_job s.jobs id)) [
  | inl none_there ↦ absurd (ground (arith, none_there))
  | inr (j, found) ↦
      let call = Memory.allocate s.memory j.circuit j.limits in
      conclude-IsTried s s' id j call call.outcome b found
        (allocate-IsClean s.memory j.circuit j.limits honest dist) (rw found at e)
]
