-- ===== src/Scheduler/Packing/Cycle.antt =====
-- What a cycle of kernel/scheduler/packing_scheduler.py does to its queue, to the jobs and to the
-- pool. Nothing is assumed of the allocator: the scheduler itself holds the batch to the pool.
use dev_q.Prelude.{
  ℕ, ◌+◌, ◌<◌, ◌≡◌, refl, sym, ap, subst, ◌∙◌, List, [], ◌∷◌, ◌++◌, Option, none, some, inl, inr,
  count, count-append, Bool-cases, IsDistinct, is_empty, arith,
}
use dev_q.Errors.{ok, >>=-eq-ok, ok-injective}
use dev_q.Process.{Qcb, Jobs, get_job}
use dev_q.Process.Table.{map_job}
use dev_q.Scheduler.{Site}
use dev_q.Scheduler.Held.{qubits_of, held, count-held-append}
use dev_q.Scheduler.Ordered.{sort_queue}
use dev_q.Scheduler.Ordered.Depth.{sort_queue-IsDepthSorted}
use dev_q.Scheduler.Packing.{Trial, trial_pass, commit, set_waiting, schedule_packing}
use dev_q.Scheduler.Packing.Pass.{mapping_of, mapped, IsGone, IsPass}
use dev_q.Scheduler.Packing.Pass.Whole.{trial_pass-IsPass}
use dev_q.Scheduler.Packing.Packed.{run, IsCommitted, commit-IsCommitted, get_job-set_waiting}

-- What a cycle that returned `out` did.
pub record IsPacked {F : Type 0} (s : Site F) (out : List ℕ) (s' : Site F) : Type 0 where
  pub order : (i : ℕ) → count i out + count i s'.queue ≡ count i s.queue
  pub others : (i : ℕ) → count i s.queue ≡ 0 → get_job s'.jobs i ≡ get_job s.jobs i
  pub conserved :
      (q : ℕ)
      → count q s'.memory.pool.free_qubits + count q (held s'.jobs out)
        ≡ count q s.memory.pool.free_qubits

module _ {F : Type 0} where
  held-nothing :
      (jobs : Jobs F) (ids : List ℕ)
      → ((i : ℕ) → 0 < count i ids → qubits_of (get_job jobs i) ≡ [])
      → held jobs ids ≡ []
  unfolding held count
  held-nothing jobs [] h = refl
  held-nothing jobs (id ∷ ids) h =
      rw (h id (ground arith), held-nothing jobs ids (λ i m. h i (ground arith))) refl

  held-mapped :
      (jobs jobs' : Jobs F) (ids : List ℕ)
      → ((i : ℕ) → 0 < count i ids → qubits_of (get_job jobs' i) ≡ mapping_of (get_job jobs i))
      → held jobs' ids ≡ mapped jobs ids
  unfolding held mapped count
  held-mapped jobs jobs' [] h = refl
  held-mapped jobs jobs' (id ∷ ids) h =
      rw (h id (ground arith), held-mapped jobs jobs' ids (λ i m. h i (ground arith))) refl

  qubits_of-run : (o : Option (Qcb F)) → qubits_of (map_job run o) ≡ mapping_of o
  qubits_of-run none = refl
  qubits_of-run (some j) = refl

  qubits_of-gone : (jobs : Jobs F) (i : ℕ) → IsGone jobs i → qubits_of (get_job jobs i) ≡ []
  qubits_of-gone jobs i (j, found, gone) = rw (found, gone) refl

  -- The three parts of a cycle over a queue, put together.
  IsPacked-of :
      (s done : Site F) (t0 t : Trial F)
      → ((i : ℕ) → count i t0.queue ≡ count i s.queue)
      → t0.jobs ≡ s.jobs
      → t0.temp_free ≡ s.memory.pool.free_qubits
      → IsDistinct s.queue
      → (p : IsPass t0 t t0.queue)
      → IsCommitted (record { memory = s.memory; queue = t.queue; jobs = t.jobs }) done p.chosen
      → IsPacked s (p.dropped ++ p.chosen) (record done { jobs = set_waiting done.queue done.jobs })
  IsPacked-of s done t0 t same_queue same_jobs same_free dist p c =
      let jobs = set_waiting done.queue done.jobs in
      let part : (i : ℕ)
          → count i p.dropped + count i p.chosen + count i done.queue ≡ count i s.queue =
        λ i. omega (arith, p.queue i, c.queue i, same_queue i) in
      let dropped : held jobs p.dropped ≡ [] = held-nothing jobs p.dropped (λ i h.
        ap qubits_of (
          get_job-set_waiting done.queue done.jobs i (omega (arith, h, part i, dist i))
          ∙ c.others i (omega (arith, h, part i, dist i)))
        ∙ qubits_of-gone t.jobs i (p.gone i h)) in
      let chosen : held jobs p.chosen ≡ mapped t.jobs p.chosen =
        held-mapped t.jobs jobs p.chosen (λ i h.
          ap qubits_of (
            get_job-set_waiting done.queue done.jobs i (omega (arith, h, part i, dist i))
            ∙ c.launched i h)
          ∙ qubits_of-run (get_job t.jobs i)) in
      record {
        order = λ i. omega (arith, part i, count-append i p.dropped p.chosen);
        others = λ i h.
            get_job-set_waiting done.queue done.jobs i (omega (arith, h, part i))
            ∙ c.others i (omega (arith, h, part i))
            ∙ p.others i (omega (arith, h, same_queue i))
            ∙ ap (λ (js : Jobs F). get_job js i) same_jobs;
        conserved = λ q.
            let none_held : count q (held jobs p.dropped) ≡ 0 =
              ap (count q) dropped ∙ (unfold count in refl) in
            let batch_held : count q (held jobs p.chosen) ≡ count q (mapped t.jobs p.chosen) =
              ap (count q) chosen in
            omega
              (arith, c.pool q, none_held, batch_held, count-held-append q jobs p.dropped p.chosen);
      }

-- A packing cycle that returns, from a queue that holds each job once, has split the queue into
-- the jobs that it returns and the jobs that it keeps, touched no job outside the queue, and taken
-- exactly the qubits of the returned jobs that it did not reject out of the pool, whatever the
-- allocator did in the trial.
pub schedule_packing-IsPacked :
    {F : Type 0} (s s' : Site F) (out : List ℕ)
    → IsDistinct s.queue
    → schedule_packing s ≡ ok (s', out)
    → IsPacked s out s'
unfolding schedule_packing
schedule_packing-IsPacked {F} s s' out dist e = elim (Bool-cases (is_empty s.queue)) [
  | inl empty ↦
      let result : Site F × List ℕ = (s, []) in
      subst (λ (x : Site F × List ℕ). IsPacked s x.1 x.0)
        (ok-injective {x = result} (rw (empty, schedule_packing) at e))
        (record {
          order = λ i. unfold count in omega arith;
          others = λ i h. refl;
          conserved = λ q. unfold held count in omega arith;
        })
  | inr busy ↦
      let (queue, sorted, e1) =
        >>=-eq-ok (sort_queue s.jobs s.queue) _ (rw (busy, schedule_packing) at e) in
      let d = sort_queue-IsDepthSorted s.jobs s.queue queue sorted in
      let t0 : Trial F = record {
        queue = queue;
        jobs = s.jobs;
        temp_free = s.memory.pool.free_qubits;
        batch = [];
        rejected = [];
      } in
      let (t, tried, e2) = >>=-eq-ok (trial_pass s.memory t0 queue) _ e1 in
      let p =
        trial_pass-IsPass s.memory t0 t queue (λ i. omega arith)
          (λ i. omega (arith, dist i, d.same i)) tried in
      let mid : Site F = record { memory = s.memory; queue = t.queue; jobs = t.jobs } in
      let (done, took, e3) = >>=-eq-ok (commit mid t.batch) _ e2 in
      let c =
        commit-IsCommitted mid done p.chosen (λ q. omega (arith, p.temp_free q))
          (λ i. omega (arith, p.among i, p.queue i, dist i, d.same i))
          (λ i. omega (arith, p.among i, dist i, d.same i))
          (subst (λ (b : List ℕ). commit mid b ≡ ok done) p.batch took) in
      let named : t.rejected ++ t.batch ≡ p.dropped ++ p.chosen =
        ap (λ l. l ++ t.batch) p.rejected ∙ ap (λ l. p.dropped ++ l) p.batch in
      subst (λ (x : Site F × List ℕ). IsPacked s x.1 x.0) (ok-injective e3)
        (subst
          (λ (o : List ℕ). IsPacked s o (record done { jobs = set_waiting done.queue done.jobs }))
          (sym named) (IsPacked-of s done t0 t (λ i. d.same i) refl refl dist p c))
]
