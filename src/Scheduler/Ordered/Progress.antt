-- ===== src/Scheduler/Ordered/Progress.antt =====
-- A cycle of the first-come-first-served scheduler on an idle device does not stand still.
use dev_q.Prelude.{
  ℕ, ◌<◌, ◌≡◌, refl, sym, ap, subst, ◌∙◌, Bool, true, false, List, [], ◌∷◌, ◌++◌, none, some, inl,
  inr, IsDistinct, All, All-map, is_empty, Bool-cases, not, ◌&&◌, arith,
}
use dev_q.Errors.{ok, ok-injective}
use dev_q.Numeric.{Float}
use dev_q.Circuit.{is_dynamic, has_mid_circuit_measurement}
use dev_q.Pool.{Pool, new_pool}
use dev_q.Pool.Conservation.{count-cons_split}
use dev_q.Alloc.{Mapping, Attempt, placed}
use dev_q.Alloc.Progress.{IsComplete}
use dev_q.Memory
use dev_q.Memory.{
  MemoryManager, Outcome, allocated, no_placement, failed, check_reserved, unreserved,
  unsatisfiable_reason,
}
use dev_q.Memory.Contract.{IsHonest, IsClean, allocate-IsClean}
use dev_q.Process.{Qcb, rejected, is_rejected, get_job}
use dev_q.Scheduler.{Site, conclude, attempt_allocation}
use dev_q.Scheduler.Attempt.{IsTried, attempt_allocation-IsTried}
use dev_q.Scheduler.Ordered.{serve, serve_on, schedule_fcfs}
use dev_q.Scheduler.Ordered.Served.{serve-Serves, IsHonest-after, IsTried-IsDistinct}
use dev_q.Scheduler.Ordered.Total.{
  IsKnown, attempt_allocation-Returns, IsKnown-after, serve-Returns,
}

module _ {F : Type 0} ⦃fl : Float F⦄ where
  unsatisfiable_reason-feasible :
      (mm : MemoryManager F) (j : Qcb F)
      → unsatisfiable_reason mm j.circuit j.limits ≡ none
      → mm.allocator.feasible j.circuit mm.device j.limits ≡ none
  unfolding unsatisfiable_reason
  unsatisfiable_reason-feasible mm j h =
      elim (Bool-cases (is_dynamic j.circuit && not (mm.device.supports_dynamic j.circuit))) [
        | inl feedback ↦ absurd (cc (rw (feedback, unsatisfiable_reason) at h))
        | inr static ↦
            elim (Bool-cases (
              has_mid_circuit_measurement j.circuit
              && not (mm.device.supports_mid_circuit_measurement j.circuit))) [
                | inl mid ↦ absurd (cc (rw (static, mid, unsatisfiable_reason) at h))
                | inr fine ↦ rw (static, fine, unsatisfiable_reason) at h
              ]
      ]

  -- What an allocator placed, and what is no contract error, is allocated.
  check_reserved-allocated :
      (j : Qcb F) (mm after : MemoryManager F) (attempt : Attempt) (pool : Pool) (m : Mapping)
      → attempt ≡ placed m
      → IsClean j.circuit j.limits mm (check_reserved pool attempt) after
      → check_reserved pool attempt ≡ allocated m
  unfolding check_reserved
  check_reserved-allocated j mm after attempt pool m e clean =
      elim (Bool-cases (is_empty (unreserved pool m))) [
        | inl gone ↦ rw (e, check_reserved) (rw gone refl)
        | inr kept ↦ absurd (rw (e, kept, check_reserved) at clean)
      ]

  -- On an idle device an attempt on a job that could ever run succeeds.
  attempt-succeeds :
      (s s1 : Site F) (id : ℕ) (b : Bool) (j : Qcb F)
      → IsHonest s.memory.allocator s.memory.device
      → IsComplete s.memory.allocator s.memory.device
      → IsDistinct s.memory.pool.free_qubits
      → s.memory.pool ≡ new_pool s.memory.device.num_qubits
      → get_job s.jobs id ≡ some j
      → 0 < j.circuit.num_qubits
      → unsatisfiable_reason s.memory j.circuit j.limits ≡ none
      → attempt_allocation s id ≡ ok (s1, b)
      → b ≡ true
  unfolding attempt_allocation Memory.allocate
  attempt-succeeds s s1 id b j honest complete dist idle found some_qubits possible e =
      let feasible = unsatisfiable_reason-feasible s.memory j possible in
      let (m, places) = complete.places j.circuit j.limits some_qubits feasible in
      let a = s.memory.allocator.allocate j.circuit s.memory.device s.memory.pool j.limits in
      let attempt : a.attempt ≡ placed m =
        subst
          (λ (p : Pool).
            (s.memory.allocator.allocate j.circuit s.memory.device p j.limits).attempt ≡ placed m)
          (sym idle) places in
      let clean = allocate-IsClean s.memory j.circuit j.limits honest dist in
      let outcome : (Memory.allocate s.memory j.circuit j.limits).outcome ≡ allocated m =
        check_reserved-allocated j s.memory _ a.attempt a.pool m attempt clean in
      concluded s s1 id b j (Memory.allocate s.memory j.circuit j.limits) m
        (Memory.allocate s.memory j.circuit j.limits).outcome outcome (rw found at e)
    where
      concluded :
          (s s1 : Site F) (id : ℕ) (b : Bool) (j : Qcb F) (call : Memory.Call F) (m : Mapping)
          (o : Outcome)
          → o ≡ allocated m
          → conclude s id j call o ≡ ok (s1, b)
          → b ≡ true
      concluded s s1 id b j call m (allocated n) eo ec =
          unfold conclude in sym (ap (λ (r : Site F × Bool). r.1) (ok-injective ec))
      concluded s s1 id b j call m no_placement eo ec = absurd (cc)
      concluded s s1 id b j call m (failed x) eo ec = absurd (cc)

  -- An attempt on an idle device leaves its job RUNNING or REJECTED, never WAITING.
  attempt-decides :
      (s s1 : Site F) (id : ℕ) (j : Qcb F)
      → IsHonest s.memory.allocator s.memory.device
      → IsComplete s.memory.allocator s.memory.device
      → IsDistinct s.memory.pool.free_qubits
      → s.memory.pool ≡ new_pool s.memory.device.num_qubits
      → get_job s.jobs id ≡ some j
      → 0 < j.circuit.num_qubits
      → attempt_allocation s id ≡ ok (s1, false)
      → (t : IsTried s s1 id false) × (t.job.state ≡ rejected)
  attempt-decides s s1 id j honest complete dist idle found some_qubits e =
      let t = attempt_allocation-IsTried s s1 id false honest dist e in
      (
        t,
        elim t.settled.1 [
          | inl (gone, why) ↦ gone
          | inr (still, possible) ↦
              let (same_circuit, same_limits) = t.asked j found in
              let feasible : unsatisfiable_reason s.memory j.circuit j.limits ≡ none =
                rw (sym same_circuit, sym same_limits) possible in
              let yes : false ≡ true =
                attempt-succeeds s s1 id false j honest complete dist idle found some_qubits
                  feasible e in
              absurd (cc)
        ],
      )

-- On a device whose pool is as it was built, with an allocator that keeps its contract and places
-- there every circuit with a qubit that it calls feasible, a first-come-first-served cycle over
-- distinct known jobs returns, and its first processed job is the one at the head of the queue,
-- where that job's circuit has a qubit.
pub schedule_fcfs-progress :
    {F : Type 0} ⦃fl : Float F⦄ (s : Site F) (id : ℕ) (rest : List ℕ) (j : Qcb F)
    → IsHonest s.memory.allocator s.memory.device
    → IsComplete s.memory.allocator s.memory.device
    → IsDistinct s.memory.pool.free_qubits
    → s.memory.pool ≡ new_pool s.memory.device.num_qubits
    → s.queue ≡ id ∷ rest
    → IsDistinct (id ∷ rest)
    → All (IsKnown s.jobs) (id ∷ rest)
    → get_job s.jobs id ≡ some j
    → 0 < j.circuit.num_qubits
    → (s' : Site F) × (more : List ℕ) × (schedule_fcfs s ≡ ok (s', id ∷ more))
unfolding schedule_fcfs serve
schedule_fcfs-progress {F} s id rest j honest complete dist idle queue dq known found some_qubits =
    let ((s1, b), tried) = attempt_allocation-Returns s id honest dist known.0 in
    let t = attempt_allocation-IsTried s s1 id b honest dist tried in
    subst (λ (q : List ℕ). (s' : Site F) × (more : List ℕ) × (serve s q [] ≡ ok (s', id ∷ more)))
      (sym queue) (rw (tried, t.found) (go s1 b t tried))
  where
    go :
        (s1 : Site F) (b : Bool) (t : IsTried s s1 id b)
        → attempt_allocation s id ≡ ok (s1, b)
        → (s' : Site F) × (more : List ℕ) × (serve_on s1 id rest [] b
              (is_rejected t.job.state)
              (serve s1 rest ([] ++ id ∷ []))
            ≡ ok (s', id ∷ more))
    go s1 true t tried = (_, [], unfold serve_on in refl)
    go s1 false t tried =
        let (u, gone) =
          attempt-decides s s1 id j honest complete dist idle found some_qubits tried in
        let same : t.job ≡ u.job = cc (t.found, u.found) in
        let here : is_rejected t.job.state ≡ true = rw (same, gone) refl in
        let ((s2, out), served) =
          serve-Returns s1 rest (id ∷ [])
            (IsHonest-after s.memory s1.memory t.device t.allocator honest)
            (IsTried-IsDistinct s s1 id false t dist)
            (All-map (IsKnown s.jobs) (IsKnown s1.jobs) rest (IsKnown-after s s1 id false t)
              known.1) in
        let (new, o, _) =
          serve-Serves s1 s2 rest (id ∷ []) out
            (IsHonest-after s.memory s1.memory t.device t.allocator honest)
            (IsTried-IsDistinct s s1 id false t dist)
            (λ q. omega (arith, dq q, count-cons_split q id rest)) served in
        rw here (s2, new, unfold serve_on in (served ∙ ap (λ l. ok (s2, l)) o))
