-- ===== src/Scheduler/Packing/Pass.antt =====
-- The trial pass of kernel/scheduler/packing_scheduler.py: what it promises to each job.
pub mod Steps
pub mod Whole
use dev_q.Prelude.{
  ℕ, ◌+◌, ◌≤◌, ◌<◌, ◌≡◌, ◌≢◌, refl, sym, ap, subst, ◌∙◌, List, [], ◌∷◌, ◌++◌, append_assoc,
  append-nil, Option, none, some, inl, inr, count, count-append, count-discard, contains,
  contains-count, not_contains-count, IsDistinct, discard, Bool-cases, Option-cases, arith,
}
use dev_q.Errors.{ok, >>=-eq-ok, ok-injective, or_raise, key_error}
use dev_q.Alloc.{DeviceReason, Mapping, values}
use dev_q.Pool.Conservation.{count-cons_split, count-cons_self}
use dev_q.Memory.{MemoryManager, unsatisfiable_reason}
use dev_q.Process.{Qcb, Jobs, rejected, on_device, get_job, update_job}
use dev_q.Process.Table.{get_job-update_self, get_job-update_ne}
use dev_q.Scheduler.Packing.{
  Trial, remove_all, trial_mapping, try_allocate_temp, pin, reject_or_keep, trial_branch,
  trial_step, trial_pass,
}

module _ {F : Type 0} where
  abbrev pub mapping_of : Option (Qcb F) → List ℕ
  mapping_of none = []
  mapping_of (some j) = values j.v2p_map

  -- The qubits that the mappings of these jobs name, whatever the state of the jobs.
  unfoldable pub mapped : Jobs F → List ℕ → List ℕ
  mapped jobs [] = []
  mapped jobs (id ∷ ids) = mapping_of (get_job jobs id) ++ mapped jobs ids

  pub count-mapped-cons :
      (q id : ℕ) (jobs : Jobs F) (ids : List ℕ)
      → count q (mapped jobs (id ∷ ids))
        ≡ count q (mapping_of (get_job jobs id)) + count q (mapped jobs ids)
  unfolding mapped
  count-mapped-cons q id jobs ids = count-append q (mapping_of (get_job jobs id)) (mapped jobs ids)

  pub count-mapped-append :
      (q : ℕ) (jobs : Jobs F) (ids more : List ℕ)
      → count q (mapped jobs (ids ++ more)) ≡ count q (mapped jobs ids) + count q (mapped jobs more)
  unfolding mapped count
  count-mapped-append q jobs [] more = omega arith
  count-mapped-append q jobs (id ∷ ids) more = omega (
    arith,
    count-append q (mapping_of (get_job jobs id)) (mapped jobs (ids ++ more)),
    count-append q (mapping_of (get_job jobs id)) (mapped jobs ids),
    count-mapped-append q jobs ids more,
  )

  pub mapped-congr :
      (jobs jobs' : Jobs F) (ids : List ℕ)
      → ((i : ℕ) → 0 < count i ids → mapping_of (get_job jobs' i) ≡ mapping_of (get_job jobs i))
      → mapped jobs' ids ≡ mapped jobs ids
  unfolding mapped count
  mapped-congr jobs jobs' [] h = refl
  mapped-congr jobs jobs' (id ∷ ids) h =
      rw (h id (ground arith), mapped-congr jobs jobs' ids (λ i m. h i (ground arith)))

  -- The job is REJECTED in the table.
  abbrev pub IsGone : Jobs F → ℕ → Type 0
  IsGone jobs i = (j : Qcb F) × (get_job jobs i ≡ some j) × (j.state ≡ rejected)

  -- What the pass over `ids` does: which of them it selects and which it rejects.
  pub record IsPass (t t' : Trial F) (ids : List ℕ) : Type 0 where
    pub chosen : List ℕ
    pub dropped : List ℕ
    pub batch : t'.batch ≡ t.batch ++ chosen
    pub rejected : t'.rejected ≡ t.rejected ++ dropped
    pub among : (i : ℕ) → count i chosen + count i dropped ≤ count i ids
    pub queue : (i : ℕ) → count i t'.queue + count i dropped ≡ count i t.queue
    pub temp_free :
        (q : ℕ) → count q t'.temp_free + count q (mapped t'.jobs chosen) ≡ count q t.temp_free
    pub others : (i : ℕ) → count i ids ≡ 0 → get_job t'.jobs i ≡ get_job t.jobs i
    pub gone : (i : ℕ) → 0 < count i dropped → IsGone t'.jobs i
