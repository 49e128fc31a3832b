-- ===== src/Scheduler/Ordered/Served.antt =====
-- What a cycle of the first-come-first-served and of the shortest-depth-first scheduler does to
-- its queue, to the jobs and to the pool.
use dev_q.Prelude.{
  ℕ, ◌+◌, ◌≤◌, ◌≡◌, ◌≢◌, refl, sym, ap, subst, ◌∙◌, Bool, true, false, List, [], ◌∷◌, ◌++◌, some,
  append_assoc, append-nil, count, IsDistinct, arith,
}
use dev_q.Errors.{Result, ok, >>=-eq-ok, ok-injective, or_raise, key_error}
use dev_q.Numeric.{Float}
use dev_q.Alloc.{values}
use dev_q.Pool.Conservation.{count-cons_split}
use dev_q.Memory.{MemoryManager}
use dev_q.Memory.Contract.{IsHonest}
use dev_q.Process.{Qcb, Jobs, JobState, rejected, is_rejected, get_job}
use dev_q.Scheduler.{Site, attempt_allocation}
use dev_q.Scheduler.Attempt.{IsTried, attempt_allocation-IsTried}
use dev_q.Scheduler.Held.{held, qubits_of, count-held-cons}
use dev_q.Scheduler.Ordered.{serve, serve_on, schedule_fcfs, sort_queue, schedule_sdf}
use dev_q.Scheduler.Ordered.Depth.{IsDepthSorted, sort_queue-IsDepthSorted}

ne_of_absent : (id i : ℕ) (rest : List ℕ) → count i (id ∷ rest) ≡ 0 → id ≢ i
unfolding count
ne_of_absent id i rest h e = absurd (ground arith)

pub fresh_of_distinct : (id : ℕ) (rest : List ℕ) → IsDistinct (id ∷ rest) → count id rest ≡ 0
unfolding count
fresh_of_distinct id rest d = ground (arith, d id)

pub rejected_of : (state : JobState) → is_rejected state ≡ true → state ≡ rejected
rejected_of rejected e = refl
rejected_of _ e = absurd (cc)

count-held-nil : {F : Type 0} (q : ℕ) (jobs : Jobs F) → count q (held jobs []) ≡ 0
unfolding held count
count-held-nil q jobs = refl

-- `processed` is what the cycle returned of a queue.
pub record IsServed {F : Type 0} (s : Site F) (queue processed : List ℕ) (s' : Site F)
    : Type 0 where
  pub order : processed ++ s'.queue ≡ queue
  pub others : (i : ℕ) → count i queue ≡ 0 → get_job s'.jobs i ≡ get_job s.jobs i
  pub device : s'.memory.device ≡ s.memory.device
  pub allocator : s'.memory.allocator ≡ s.memory.allocator
  pub conserved :
      (q : ℕ)
      → count q s'.memory.pool.free_qubits + count q (held s'.jobs processed)
        ≡ count q s.memory.pool.free_qubits

pub IsHonest-after :
    {F : Type 0} ⦃fl : Float F⦄ (before after : MemoryManager F)
    → after.device ≡ before.device
    → after.allocator ≡ before.allocator
    → IsHonest before.allocator before.device
    → IsHonest after.allocator after.device
IsHonest-after before after d a h = rw (d, a) h

module _ {F : Type 0} ⦃fl : Float F⦄ where
  -- One more job, rejected, in front of what a cycle did with the rest of the queue.
  IsServed-rejected :
      (s s1 s' : Site F) (id : ℕ) (rest processed : List ℕ) (t : IsTried s s1 id false)
      → count id rest ≡ 0
      → t.job.state ≡ rejected
      → IsServed s1 rest processed s'
      → IsServed s (id ∷ rest) (id ∷ processed) s'
  IsServed-rejected s s1 s' id rest processed t fresh gone served = record {
    order = ap (λ l. id ∷ l) served.order;
    others = λ i absent.
        let ne : id ≢ i = ne_of_absent id i rest absent in
        served.others i (omega (arith, count-cons_split i id rest)) ∙ t.others i ne;
    device = served.device ∙ t.device;
    allocator = served.allocator ∙ t.allocator;
    conserved = λ q.
        let here : get_job s'.jobs id ≡ some t.job = served.others id fresh ∙ t.found in
        let nothing : count q (qubits_of (get_job s'.jobs id)) ≡ 0 =
          unfold count in rw (here, gone) in
        let same : count q s1.memory.pool.free_qubits ≡ count q s.memory.pool.free_qubits =
          ap (λ (mm : MemoryManager F). count q mm.pool.free_qubits) t.settled.0 in
        omega (arith, served.conserved q, count-held-cons q id s'.jobs processed);
  }

  pub IsTried-IsDistinct :
      (s s1 : Site F) (id : ℕ) (b : Bool)
      → IsTried s s1 id b
      → IsDistinct s.memory.pool.free_qubits
      → IsDistinct s1.memory.pool.free_qubits
  IsTried-IsDistinct s s1 id true t dist q = omega (arith, t.settled.1 q, dist q)
  IsTried-IsDistinct s s1 id false t dist q =
      subst (λ (mm : MemoryManager F). count q mm.pool.free_qubits ≤ 1) (sym t.settled.0) (dist q)

  -- What `serve` shows of a call that returned `out`.
  abbrev pub Serves : Site F → List ℕ → List ℕ → Site F → List ℕ → Type 0
  Serves s queue processed s' out =
      (new : List ℕ) × (out ≡ processed ++ new) × IsServed s queue new s'

  serve_on-Serves :
      (s s1 s' : Site F) (id : ℕ) (rest processed out : List ℕ) (b gone : Bool)
      (next : Result (Site F × List ℕ)) (t : IsTried s s1 id b)
      → count id rest ≡ 0
      → is_rejected t.job.state ≡ gone
      → (next ≡ ok (s', out) → Serves s1 rest (processed ++ id ∷ []) s' out)
      → serve_on s1 id rest processed b gone next ≡ ok (s', out)
      → Serves s (id ∷ rest) processed s' out
  unfolding serve_on
  serve_on-Serves s s1 s' id rest processed out true gone next t fresh r ih e =
      let p = ok-injective e in
      subst (λ (x : Site F × List ℕ). Serves s (id ∷ rest) processed x.0 x.1) p
        (
          id ∷ [],
          refl,
          record {
            order = refl;
            others = λ i absent. t.others i (ne_of_absent id i rest absent);
            device = t.device;
            allocator = t.allocator;
            conserved = λ q.
                let mine : count q (qubits_of (get_job s1.jobs id))
                    ≡ count q (values t.job.v2p_map) =
                  rw (t.found, t.settled.0) in
                omega (
                  arith,
                  t.settled.1 q,
                  mine,
                  count-held-cons q id s1.jobs [],
                  count-held-nil q s1.jobs,
                );
          },
        )
  serve_on-Serves s s1 s' id rest processed out false true next t fresh r ih e =
      let (new, o, served) = ih e in
      (
        id ∷ new,
        o ∙ append_assoc processed (id ∷ []) new,
        IsServed-rejected s s1 s' id rest new t fresh (rejected_of t.job.state r) served,
      )
  serve_on-Serves s s1 s' id rest processed out false false next t fresh r ih e =
      let p = ok-injective e in
      subst (λ (x : Site F × List ℕ). Serves s (id ∷ rest) processed x.0 x.1) p
        (
          [],
          sym (append-nil processed),
          record {
            order = refl;
            others = λ i absent. t.others i (ne_of_absent id i rest absent);
            device = t.device;
            allocator = t.allocator;
            conserved = λ q.
                let same : count q s1.memory.pool.free_qubits ≡ count q s.memory.pool.free_qubits =
                  ap (λ (mm : MemoryManager F). count q mm.pool.free_qubits) t.settled.0 in
                omega (arith, same, count-held-nil q s1.jobs);
          },
        )

  pub serve-Serves :
      (s s' : Site F) (queue processed out : List ℕ)
      → IsHonest s.memory.allocator s.memory.device
      → IsDistinct s.memory.pool.free_qubits
      → IsDistinct queue
      → serve s queue processed ≡ ok (s', out)
      → Serves s queue processed s' out
  unfolding serve
  serve-Serves s s' [] processed out honest dist dq e =
      subst (λ (x : Site F × List ℕ). Serves s [] processed x.0 x.1) (ok-injective e)
        (
          [],
          sym (append-nil processed),
          record {
            order = refl;
            others = λ i absent. refl;
            device = refl;
            allocator = refl;
            conserved = λ q. omega (arith, count-held-nil q s.jobs);
          },
        )
  serve-Serves s s' (id ∷ rest) processed out honest dist dq e =
      let ((s1, b), tried, e1) = >>=-eq-ok (attempt_allocation s id) _ e in
      let (j, found, e2) = >>=-eq-ok (or_raise (get_job s1.jobs id) key_error) _ e1 in
      let t = attempt_allocation-IsTried s s1 id b honest dist tried in
      let same : j ≡ t.job = ok-injective (sym found ∙ ap (λ o. or_raise o key_error) t.found) in
      serve_on-Serves s s1 s' id rest processed out b (is_rejected j.state)
        (serve s1 rest (processed ++ id ∷ [])) t (fresh_of_distinct id rest dq)
        (ap (λ (x : Qcb F). is_rejected x.state) (sym same))
        (serve-Serves s1 s' rest (processed ++ id ∷ []) out
          (IsHonest-after s.memory s1.memory t.device t.allocator honest)
          (IsTried-IsDistinct s s1 id b t dist)
          (λ q. omega (arith, dq q, count-cons_split q id rest)))
        e2

-- With an allocator that keeps its contract, a first-come-first-served cycle that returns has
-- processed a front part of the queue in order and kept the rest in order, touched no other job,
-- and taken exactly the qubits of the jobs that it processed and did not reject out of the pool.
pub schedule_fcfs-IsServed :
    {F : Type 0} ⦃fl : Float F⦄ (s s' : Site F) (out : List ℕ)
    → IsHonest s.memory.allocator s.memory.device
    → IsDistinct s.memory.pool.free_qubits
    → IsDistinct s.queue
    → schedule_fcfs s ≡ ok (s', out)
    → IsServed s s.queue out s'
unfolding schedule_fcfs
schedule_fcfs-IsServed s s' out honest dist dq e =
    let (new, o, served) = serve-Serves s s' s.queue [] out honest dist dq e in rw o served

-- With an allocator that keeps its contract, a shortest-depth-first cycle that returns has sorted
-- the queue by circuit depth, keeping each job as often as before, processed a front part of that
-- order and kept the rest in order, touched no other job, and taken exactly the qubits of the
-- jobs that it processed and did not reject out of the pool.
pub schedule_sdf-IsServed :
    {F : Type 0} ⦃fl : Float F⦄ (s s' : Site F) (out : List ℕ)
    → IsHonest s.memory.allocator s.memory.device
    → IsDistinct s.memory.pool.free_qubits
    → IsDistinct s.queue
    → schedule_sdf s ≡ ok (s', out)
    → (queue : List ℕ) × IsDepthSorted s.jobs s.queue queue × IsServed s queue out s'
unfolding schedule_sdf
schedule_sdf-IsServed s s' out honest dist dq e =
    let (queue, sorted, e1) = >>=-eq-ok (sort_queue s.jobs s.queue) _ e in
    let d = sort_queue-IsDepthSorted s.jobs s.queue queue sorted in
    let (new, o, served) =
      serve-Serves s s' queue [] out honest dist (λ q. omega (arith, dq q, d.same q)) e1 in
    (queue, d, rw o served)
