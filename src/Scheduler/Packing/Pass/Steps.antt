-- ===== src/Scheduler/Packing/Pass/Steps.antt =====
-- One job of the trial pass of kernel/scheduler/packing_scheduler.py.
use dev_q.Prelude.{
  ℕ, ◌+◌, ◌<◌, ◌≡◌, ◌≢◌, refl, sym, ap, subst, ◌∙◌, List, [], ◌∷◌, append-nil, Option, none, some,
  inl, inr, count, count-discard, contains, contains-count, discard, Bool-cases, Option-cases,
  arith,
}
use dev_q.Errors.{ok, >>=-eq-ok, ok-injective, or_raise, key_error}
use dev_q.Alloc.{DeviceReason, Mapping, values}
use dev_q.Pool.Conservation.{count-cons_split}
use dev_q.Memory.{MemoryManager, unsatisfiable_reason}
use dev_q.Process.{Qcb, Jobs, rejected, on_device, get_job, update_job}
use dev_q.Process.Table.{get_job-update_self, get_job-update_ne}
use dev_q.Scheduler.Packing.{
  Trial, remove_all, trial_mapping, try_allocate_temp, pin, reject_or_keep, trial_branch,
  trial_step,
}
use dev_q.Scheduler.Packing.Pass.{mapping_of, mapped, count-mapped-cons, IsPass}

remove_all-count :
    (free ps left : List ℕ)
    → remove_all free ps ≡ ok left
    → (q : ℕ) → count q left + count q ps ≡ count q free
unfolding remove_all count
remove_all-count free [] left e q =
    let same : free ≡ left = ok-injective e in omega (arith, ap (count q) same)
remove_all-count free (p ∷ ps) left e q = elim (Bool-cases (contains p free)) [
  | inr out ↦ absurd (cc (rw (out, remove_all) at e))
  | inl held ↦ omega (
    arith,
    remove_all-count (discard p free) ps left (rw (held, remove_all) at e) q,
    count-discard q p free (contains-count p free held),
    count-cons_split q p ps,
  )
]

absent-ne : (id i : ℕ) → count i (id ∷ []) ≡ 0 → id ≢ i
unfolding count
absent-ne id i h e = absurd (ground arith)

module _ {F : Type 0} where
  -- A step that neither selects nor rejects its job.
  IsPass-kept :
      (t : Trial F) (id : ℕ) (f : Qcb F → Qcb F)
      → IsPass t (record t { jobs = update_job id f t.jobs }) (id ∷ [])
  unfolding mapped count
  IsPass-kept t id f = record {
    chosen = [];
    dropped = [];
    batch = sym (append-nil t.batch);
    rejected = sym (append-nil t.rejected);
    among = λ i. omega arith;
    queue = λ i. omega arith;
    temp_free = λ q. omega arith;
    others = λ i h. get_job-update_ne id i f t.jobs (absent-ne id i h);
    gone = λ i h. absurd (omega (arith, h));
  }

  reject_or_keep-IsPass :
      (t : Trial F) (id : ℕ) (f : Qcb F → Qcb F) (j : Qcb F) (reason : Option (DeviceReason F))
      → get_job t.jobs id ≡ some j
      → 0 < count id t.queue
      → IsPass t (reject_or_keep (record t { jobs = update_job id f t.jobs }) id reason) (id ∷ [])
  unfolding reject_or_keep mapped count
  reject_or_keep-IsPass t id f j none found queued = IsPass-kept t id f
  reject_or_keep-IsPass t id f j (some r) found queued = record {
    chosen = [];
    dropped = id ∷ [];
    batch = sym (append-nil t.batch);
    rejected = refl;
    among = λ i. omega arith;
    queue = λ i. ground (arith, count-discard i id t.queue queued);
    temp_free = λ q. omega arith;
    others = λ i h.
        let ne : id ≢ i = absent-ne id i h in
        get_job-update_ne id i _ (update_job id f t.jobs) ne ∙ get_job-update_ne id i f t.jobs ne;
    gone = λ i h.
        let same : id ≡ i = ground arith in
        (
          record (f j) { state = rejected; reject_reason = some (on_device r) },
          rw (sym same) (
              get_job-update_self id
                (λ j. record j { state = rejected; reject_reason = some (on_device r) })
                (update_job id f t.jobs)
              ∙ rw (get_job-update_self id f t.jobs, found) refl),
          refl,
        );
  }

  trial_branch-IsPass :
      (mm : MemoryManager F) (t t1 : Trial F) (id : ℕ) (f : Qcb F → Qcb F) (j : Qcb F)
      (mapping : Option Mapping)
      → get_job t.jobs id ≡ some j
      → 0 < count id t.queue
      → trial_branch mm (record t { jobs = update_job id f t.jobs }) id j mapping ≡ ok t1
      → IsPass t t1 (id ∷ [])
  unfolding trial_branch
  trial_branch-IsPass mm t t1 id f j none found queued e =
      subst (λ (x : Trial F). IsPass t x (id ∷ [])) (ok-injective e)
        (reject_or_keep-IsPass t id f j (unsatisfiable_reason mm j.circuit j.limits) found queued)
  trial_branch-IsPass mm t t1 id f j (some []) found queued e =
      subst (λ (x : Trial F). IsPass t x (id ∷ [])) (ok-injective e)
        (reject_or_keep-IsPass t id f j (unsatisfiable_reason mm j.circuit j.limits) found queued)
  trial_branch-IsPass mm t t1 id f j (some (p ∷ m)) found queued e =
      let (left, removed, e1) = >>=-eq-ok (remove_all t.temp_free (values (p ∷ m))) _ e in
      let jobs = update_job id (λ j. record j { v2p_map = p ∷ m }) (update_job id f t.jobs) in
      let here : get_job jobs id ≡ some (record (f j) { v2p_map = p ∷ m }) =
        get_job-update_self id (λ j. record j { v2p_map = p ∷ m }) (update_job id f t.jobs)
        ∙ rw (get_job-update_self id f t.jobs, found) refl in
      subst (λ (x : Trial F). IsPass t x (id ∷ [])) (ok-injective e1)
        (record {
          chosen = id ∷ [];
          dropped = [];
          batch = refl;
          rejected = sym (append-nil t.rejected);
          among = λ i. unfold count in omega arith;
          queue = λ i. unfold count in omega arith;
          temp_free = λ q.
              let nothing : count q (mapped jobs []) ≡ 0 = unfold mapped count in refl in
              let mine : count q (mapping_of (get_job jobs id)) ≡ count q (values (p ∷ m)) =
                ap (λ o. count q (mapping_of o)) here in
              omega (
                arith,
                remove_all-count t.temp_free (values (p ∷ m)) left removed q,
                count-mapped-cons q id jobs [],
                nothing,
                mine,
              );
          others = λ i h.
              let ne : id ≢ i = absent-ne id i h in
              get_job-update_ne id i _ (update_job id f t.jobs) ne
              ∙ get_job-update_ne id i f t.jobs ne;
          gone = λ i h. absurd (unfold count in omega (arith, h));
        })

  pub trial_step-IsPass :
      (mm : MemoryManager F) (t t1 : Trial F) (id : ℕ)
      → 0 < count id t.queue
      → trial_step mm t id ≡ ok t1
      → IsPass t t1 (id ∷ [])
  unfolding trial_step
  trial_step-IsPass mm t t1 id queued e =
      let (j, found, e1) = >>=-eq-ok (or_raise (get_job t.jobs id) key_error) _ e in
      let a = try_allocate_temp mm j t.temp_free in
      let (mapping, tried, e2) = >>=-eq-ok (trial_mapping a.attempt) _ e1 in
      trial_branch-IsPass mm t t1 id (pin a) j mapping (found_of id t.jobs j found) queued e2
    where
      found_of :
          (id : ℕ) (jobs : Jobs F) (j : Qcb F)
          → or_raise (get_job jobs id) key_error ≡ ok j
          → get_job jobs id ≡ some j
      found_of id jobs j h = elim (Option-cases (get_job jobs id)) [
        | inl out ↦ absurd (cc (rw out at h))
        | inr (i, here) ↦ let same : i ≡ j = ok-injective (rw here at h) in rw (sym same) here
      ]
