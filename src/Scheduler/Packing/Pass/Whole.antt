-- ===== src/Scheduler/Packing/Pass/Whole.antt =====
-- The whole trial pass of kernel/scheduler/packing_scheduler.py.
use dev_q.Prelude.{
  ℕ, ◌+◌, ◌≤◌, ◌<◌, ◌≡◌, refl, sym, ap, subst, ◌∙◌, List, [], ◌∷◌, ◌++◌, append_assoc, append-nil,
  inl, inr, count, count-append, contains, contains-count, not_contains-count, IsDistinct,
  Bool-cases, arith,
}
use dev_q.Errors.{ok, >>=-eq-ok, ok-injective}
use dev_q.Pool.Conservation.{count-cons_split, count-cons_self}
use dev_q.Memory.{MemoryManager}
use dev_q.Scheduler.Packing.{Trial, trial_step, trial_pass}
use dev_q.Scheduler.Packing.Pass.{mapping_of, mapped, count-mapped-append, mapped-congr, IsPass}
use dev_q.Scheduler.Packing.Pass.Steps.{trial_step-IsPass}

module _ {F : Type 0} where
  IsPass-cons :
      (t t1 t' : Trial F) (id : ℕ) (ids : List ℕ)
      → IsPass t t1 (id ∷ [])
      → IsPass t1 t' ids
      → count id ids ≡ 0
      → IsPass t t' (id ∷ ids)
  IsPass-cons t t1 t' id ids p q fresh =
      let apart : (i : ℕ) → 0 < count i (id ∷ []) → count i ids ≡ 0 = λ i h. apart_of i h in
      record {
        chosen = p.chosen ++ q.chosen;
        dropped = p.dropped ++ q.dropped;
        batch = q.batch ∙ ap (λ l. l ++ q.chosen) p.batch ∙ append_assoc t.batch p.chosen q.chosen;
        rejected =
            q.rejected
            ∙ ap (λ l. l ++ q.dropped) p.rejected
            ∙ append_assoc t.rejected p.dropped q.dropped;
        among = λ i. omega (
          arith,
          p.among i,
          q.among i,
          count-append i p.chosen q.chosen,
          count-append i p.dropped q.dropped,
          split i,
        );
        queue = λ i. omega (arith, p.queue i, q.queue i, count-append i p.dropped q.dropped);
        temp_free = λ x.
            let kept : mapped t'.jobs p.chosen ≡ mapped t1.jobs p.chosen =
              mapped-congr t1.jobs t'.jobs p.chosen
                (λ i h. ap mapping_of (q.others i (apart i (omega (arith, h, p.among i))))) in
            let same : count x (mapped t'.jobs p.chosen) ≡ count x (mapped t1.jobs p.chosen) =
              ap (count x) kept in
            omega (
              arith,
              p.temp_free x,
              q.temp_free x,
              same,
              count-mapped-append x t'.jobs p.chosen q.chosen,
            );
        others =
            λ i h. q.others i (omega (arith, h, split i)) ∙ p.others i (omega (arith, h, split i));
        gone = λ i h. elim (Bool-cases (contains i q.dropped)) [
          | inl late ↦ q.gone i (contains-count i q.dropped late)
          | inr early ↦
              let mine : 0 < count i p.dropped = omega (
                arith,
                h,
                count-append i p.dropped q.dropped,
                not_contains-count i q.dropped early,
              ) in
              let (j, found, gone) = p.gone i mine in
              (j, q.others i (apart i (omega (arith, mine, p.among i))) ∙ found, gone)
        ];
      }
    where
      split : (i : ℕ) → count i (id ∷ ids) ≡ count i (id ∷ []) + count i ids
      split i = unfold count in ground arith

      apart_of : (i : ℕ) → 0 < count i (id ∷ []) → count i ids ≡ 0
      apart_of i h = let same : id ≡ i = unfold count in ground arith in rw (sym same) fresh

  pub trial_pass-IsPass :
      (mm : MemoryManager F) (t t' : Trial F) (ids : List ℕ)
      → ((i : ℕ) → count i ids ≤ count i t.queue)
      → IsDistinct ids
      → trial_pass mm t ids ≡ ok t'
      → IsPass t t' ids
  unfolding trial_pass
  trial_pass-IsPass mm t t' [] inside dist e =
      subst (λ (x : Trial F). IsPass t x []) (ok-injective e)
        (record {
          chosen = [];
          dropped = [];
          batch = sym (append-nil t.batch);
          rejected = sym (append-nil t.rejected);
          among = λ i. unfold count in omega arith;
          queue = λ i. unfold count in omega arith;
          temp_free = λ q. unfold mapped count in omega arith;
          others = λ i h. refl;
          gone = λ i h. absurd (unfold count in omega (arith, h));
        })
  trial_pass-IsPass mm t t' (id ∷ ids) inside dist e =
      let (t1, ran, e1) = >>=-eq-ok (trial_step mm t id) _ e in
      let queued : 0 < count id t.queue = omega (arith, inside id, count-cons_self id ids) in
      let p = trial_step-IsPass mm t t1 id queued ran in
      let fresh : count id ids ≡ 0 = unfold count in ground (arith, dist id) in
      let left : (i : ℕ) → count i ids ≤ count i t1.queue = λ i. omega (
        arith,
        inside i,
        p.queue i,
        p.among i,
        count-cons_split i id ids,
        count-cons_split i id [],
        nil i,
      ) in
      IsPass-cons t t1 t' id ids p
        (trial_pass-IsPass mm t1 t' ids left (λ i. omega (arith, dist i, count-cons_split i id ids))
          e1)
        fresh
    where
      nil : (i : ℕ) → count i [] ≡ 0
      nil i = unfold count in refl
