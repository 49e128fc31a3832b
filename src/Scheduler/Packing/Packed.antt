-- ===== src/Scheduler/Packing/Packed.antt =====
-- The end of a cycle of kernel/scheduler/packing_scheduler.py: the batch takes its qubits out of
-- the pool, and the jobs that are left wait.
use dev_q.Prelude.{
  ℕ, ◌+◌, ◌≤◌, ◌<◌, ◌≡◌, ◌≢◌, refl, sym, ap, subst, ◌∙◌, List, [], ◌∷◌, some, inl, inr, count,
  count-discard, discard, Bool-cases, IsDistinct, Option-cases, ◌==◌, ==_iff, if◌then◌else◌, arith,
}
use dev_q.Errors.{ok, >>=-eq-ok, ok-injective, or_raise, key_error}
use dev_q.Alloc.{values}
use dev_q.Pool
use dev_q.Pool.{Pool, Reserve}
use dev_q.Pool.Conservation.{count-cons_split, count-cons_self, allocate-taken, count-allocate}
use dev_q.Process.{Qcb, Jobs, running, waiting, get_job, update_job}
use dev_q.Process.Table.{map_job, get_job-update_self, get_job-update_ne}
use dev_q.Scheduler.{Site}
use dev_q.Scheduler.Packing.{commit_pool, commit, set_waiting}
use dev_q.Scheduler.Packing.Pass.{mapping_of, mapped, count-mapped-cons, mapped-congr}

abbrev pub run : {F : Type 0} → Qcb F → Qcb F
run j = record j { state = running }

-- The committing of a batch.
pub record IsCommitted {F : Type 0} (s s' : Site F) (ids : List ℕ) : Type 0 where
  pub pool :
      (q : ℕ)
      → count q s'.memory.pool.free_qubits + count q (mapped s.jobs ids)
        ≡ count q s.memory.pool.free_qubits
  pub queue : (i : ℕ) → count i s'.queue + count i ids ≡ count i s.queue
  pub others : (i : ℕ) → count i ids ≡ 0 → get_job s'.jobs i ≡ get_job s.jobs i
  pub launched : (i : ℕ) → 0 < count i ids → get_job s'.jobs i ≡ map_job run (get_job s.jobs i)

commit_pool-count :
    (pool after : Pool) (qs : List ℕ)
    → ((q : ℕ) → count q qs ≤ count q pool.free_qubits)
    → commit_pool pool (Pool.allocate pool qs) ≡ ok after
    → (q : ℕ) → count q after.free_qubits + count q qs ≡ count q pool.free_qubits
unfolding commit_pool
commit_pool-count pool after qs fits e q =
    let (p, took) = allocate-taken pool qs fits in
    let same : p ≡ after = ok-injective (rw (took, commit_pool) at e) in
    rw (sym same) (count-allocate pool p qs took q)

module _ {F : Type 0} where
  found_of :
      (id : ℕ) (jobs : Jobs F) (j : Qcb F)
      → or_raise (get_job jobs id) key_error ≡ ok j
      → get_job jobs id ≡ some j
  found_of id jobs j h = elim (Option-cases (get_job jobs id)) [
    | inl out ↦ absurd (cc (rw out at h))
    | inr (i, here) ↦ let same : i ≡ j = ok-injective (rw here at h) in rw (sym same) here
  ]

  pub commit-IsCommitted :
      (s s' : Site F) (ids : List ℕ)
      → ((q : ℕ) → count q (mapped s.jobs ids) ≤ count q s.memory.pool.free_qubits)
      → ((i : ℕ) → count i ids ≤ count i s.queue)
      → IsDistinct ids
      → commit s ids ≡ ok s'
      → IsCommitted s s' ids
  unfolding commit
  commit-IsCommitted s s' [] fits inside dist e =
      subst (λ (x : Site F). IsCommitted s x []) (ok-injective e)
        (record {
          pool = λ q. unfold mapped count in omega arith;
          queue = λ i. unfold count in omega arith;
          others = λ i h. refl;
          launched = λ i h. absurd (unfold count in omega (arith, h));
        })
  commit-IsCommitted s s' (id ∷ ids) fits inside dist e =
      let (j, found, e1) = >>=-eq-ok (or_raise (get_job s.jobs id) key_error) _ e in
      let here = found_of id s.jobs j found in
      let mine : (q : ℕ) → count q (mapping_of (get_job s.jobs id)) ≡ count q (values j.v2p_map) =
        λ q. ap (λ o. count q (mapping_of o)) here in
      let (pool, took, e2) =
        >>=-eq-ok (commit_pool s.memory.pool (Pool.allocate s.memory.pool (values j.v2p_map))) _
          e1 in
      let taken =
        commit_pool-count s.memory.pool pool (values j.v2p_map)
          (λ q. omega (arith, fits q, count-mapped-cons q id s.jobs ids, mine q)) took in
      let mm = s.memory in
      let s1 : Site F = record {
        memory = record mm { pool = pool };
        queue = discard id s.queue;
        jobs = update_job id (λ j. record j { state = running }) s.jobs;
      } in
      let fresh : count id ids ≡ 0 = unfold count in ground (arith, dist id) in
      let ne : (i : ℕ) → 0 < count i ids → id ≢ i = λ i h same. apart fresh i h same in
      let same : mapped s1.jobs ids ≡ mapped s.jobs ids =
        mapped-congr s.jobs s1.jobs ids
          (λ i h. ap mapping_of (get_job-update_ne id i _ s.jobs (ne i h))) in
      let same_count : (q : ℕ) → count q (mapped s1.jobs ids) ≡ count q (mapped s.jobs ids) =
        λ q. ap (count q) same in
      let shorter : (i : ℕ) → count i s1.queue + (if id == i then 1 else 0) ≡ count i s.queue =
        λ i. count-discard i id s.queue (omega (arith, inside id, count-cons_self id ids)) in
      let rest =
        commit-IsCommitted s1 s' ids
          (λ q.
            omega (arith, fits q, taken q, count-mapped-cons q id s.jobs ids, mine q, same_count q))
          (λ i. omega (arith, inside i, shorter i, count-cons_split i id ids))
          (λ i. omega (arith, dist i, count-cons_split i id ids)) e2 in
      record {
        pool = λ q.
            omega (
              arith,
              rest.pool q,
              taken q,
              count-mapped-cons q id s.jobs ids,
              mine q,
              same_count q,
            );
        queue = λ i. omega (arith, rest.queue i, shorter i, count-cons_split i id ids);
        others = λ i h.
            let off : id ≢ i = λ p. absent i h p in
            rest.others i (omega (arith, h, count-cons_split i id ids))
            ∙ get_job-update_ne id i _ s.jobs off;
        launched = λ i h. elim (Bool-cases (id == i)) [
          | inl it ↦
              let is : id ≡ i = (==_iff id i).0 it in
              subst (λ (x : ℕ). get_job s'.jobs x ≡ map_job run (get_job s.jobs x)) is
                (rest.others id fresh ∙ get_job-update_self id _ s.jobs)
          | inr other ↦
              let off : id ≢ i = λ p. ground (arith, other, p) in
              rest.launched i (ground (arith, h, count-cons_split i id ids, other))
              ∙ ap (map_job run) (get_job-update_ne id i _ s.jobs off)
        ];
      }
    where
      apart : count id ids ≡ 0 → (i : ℕ) → 0 < count i ids → id ≡ i → ⊥
      apart fresh i h same = absurd (ground (arith, rw same at fresh, h))

      absent : (i : ℕ) → count i (id ∷ ids) ≡ 0 → id ≡ i → ⊥
      absent i h same = absurd (unfold count in ground (arith, h, same))

  pub get_job-set_waiting :
      (ids : List ℕ) (jobs : Jobs F) (i : ℕ)
      → count i ids ≡ 0
      → get_job (set_waiting ids jobs) i ≡ get_job jobs i
  unfolding set_waiting count
  get_job-set_waiting [] jobs i h = refl
  get_job-set_waiting (id ∷ ids) jobs i h =
      let ne : id ≢ i = λ p. absurd (ground (arith, p)) in
      get_job-set_waiting ids (update_job id (λ j. record j { state = waiting }) jobs) i
        (ground arith)
      ∙ get_job-update_ne id i _ jobs ne
