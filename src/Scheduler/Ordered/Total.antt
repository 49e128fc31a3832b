-- ===== src/Scheduler/Ordered/Total.antt =====
-- When a cycle of the first-come-first-served scheduler returns: an allocator that keeps its
-- contract raises nothing but AllocationError, which every cycle handles.
use dev_q.Prelude.{
  ℕ, ◌≡◌, ◌≢◌, refl, sym, Bool, true, false, List, [], ◌∷◌, ◌++◌, some, inl, inr, IsDistinct, All,
  All-map, Bool-cases, ◌==◌, ==_iff, arith,
}
use dev_q.Errors.{Result, ok}
use dev_q.Numeric.{Float}
use dev_q.Memory
use dev_q.Memory.{Outcome, allocated, no_placement, failed}
use dev_q.Memory.Contract.{IsHonest, IsClean, allocate-IsClean}
use dev_q.Process.{Qcb, Jobs, is_rejected, get_job}
use dev_q.Scheduler.{Site, conclude, attempt_allocation}
use dev_q.Scheduler.Attempt.{IsTried, attempt_allocation-IsTried}
use dev_q.Scheduler.Ordered.{serve, serve_on, schedule_fcfs}
use dev_q.Scheduler.Ordered.Served.{IsHonest-after, IsTried-IsDistinct}

-- `r` is a value and no exception.
abbrev pub Returns {ℓ} : {A : Type ℓ} → Result A → Type ℓ
Returns {A = A} r = (a : A) × (r ≡ ok a)

-- The process table holds a block for the job.
abbrev pub IsKnown : {F : Type 0} → Jobs F → ℕ → Type 0
IsKnown {F} jobs id = (j : Qcb F) × (get_job jobs id ≡ some j)

module _ {F : Type 0} ⦃fl : Float F⦄ where
  conclude-Returns :
      (s : Site F) (id : ℕ) (j : Qcb F) (call : Memory.Call F) (o : Outcome)
      → IsClean j.circuit j.limits s.memory o call.manager
      → Returns (conclude s id j call o)
  unfolding conclude
  conclude-Returns s id j call (allocated m) clean = (_, refl)
  conclude-Returns s id j call no_placement clean = (_, refl)
  conclude-Returns s id j call (failed e) clean = absurd clean

  pub attempt_allocation-Returns :
      (s : Site F) (id : ℕ)
      → IsHonest s.memory.allocator s.memory.device
      → IsDistinct s.memory.pool.free_qubits
      → IsKnown s.jobs id
      → Returns (attempt_allocation s id)
  unfolding attempt_allocation
  attempt_allocation-Returns s id honest dist (j, found) = rw found (
      conclude-Returns s id j (Memory.allocate s.memory j.circuit j.limits) _
        (allocate-IsClean s.memory j.circuit j.limits honest dist))

  pub IsKnown-after :
      (s s1 : Site F) (id : ℕ) (b : Bool)
      → IsTried s s1 id b
      → (i : ℕ) → IsKnown s.jobs i
      → IsKnown s1.jobs i
  IsKnown-after s s1 id b t i (j, found) = elim (Bool-cases (id == i)) [
    | inl here ↦ (t.job, rw (sym ((==_iff id i).0 here)) t.found)
    | inr there ↦ let ne : id ≢ i = λ e. ground (arith, there, e) in (j, rw (t.others i ne) found)
  ]

  serve_on-Returns :
      (s : Site F) (id : ℕ) (rest processed : List ℕ) (b gone : Bool)
      (next : Result (Site F × List ℕ))
      → Returns next
      → Returns (serve_on s id rest processed b gone next)
  unfolding serve_on
  serve_on-Returns s id rest processed true gone next r = (_, refl)
  serve_on-Returns s id rest processed false true next r = r
  serve_on-Returns s id rest processed false false next r = (_, refl)

  pub serve-Returns :
      (s : Site F) (queue processed : List ℕ)
      → IsHonest s.memory.allocator s.memory.device
      → IsDistinct s.memory.pool.free_qubits
      → All (IsKnown s.jobs) queue
      → Returns (serve s queue processed)
  unfolding serve
  serve-Returns s [] processed honest dist known = (_, refl)
  serve-Returns s (id ∷ rest) processed honest dist known =
      let ((s1, b), tried) = attempt_allocation-Returns s id honest dist known.0 in
      let t = attempt_allocation-IsTried s s1 id b honest dist tried in
      rw (tried, t.found)
        (serve_on-Returns s1 id rest processed b (is_rejected t.job.state)
          (serve s1 rest (processed ++ id ∷ []))
          (serve-Returns s1 rest (processed ++ id ∷ [])
            (IsHonest-after s.memory s1.memory t.device t.allocator honest)
            (IsTried-IsDistinct s s1 id b t dist)
            (All-map (IsKnown s.jobs) (IsKnown s1.jobs) rest (IsKnown-after s s1 id b t) known.1)))

-- With an allocator that keeps its contract and a queue of jobs that the process table holds, a
-- first-come-first-served cycle raises no exception.
pub schedule_fcfs-Returns :
    {F : Type 0} ⦃fl : Float F⦄ (s : Site F)
    → IsHonest s.memory.allocator s.memory.device
    → IsDistinct s.memory.pool.free_qubits
    → All (IsKnown s.jobs) s.queue
    → Returns (schedule_fcfs s)
unfolding schedule_fcfs
schedule_fcfs-Returns s honest dist known = serve-Returns s s.queue [] honest dist known
