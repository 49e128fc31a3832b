-- ===== src/Process/Table.antt =====
-- The process table as a map from job ids to control blocks.
use dev_q.Prelude.{ℕ, ◌≤◌, ◌≡◌, ◌≢◌, refl, [], ◌∷◌, Option, none, some, ◌==◌, if◌then◌else◌, arith}
use dev_q.Process.{
  Qcb, Jobs, Request, ProcessTable, new_qcb, get_job, update_job, put_job, create_job, new_table,
}

abbrev pub map_job : {F : Type 0} → (Qcb F → Qcb F) → Option (Qcb F) → Option (Qcb F)
map_job f none = none
map_job f (some j) = some (f j)

module _ {F : Type 0} where
  get_job-update_job :
      (id i : ℕ) (f : Qcb F → Qcb F) (jobs : Jobs F)
      → get_job (update_job id f jobs) i
        ≡ (if id == i then map_job f (get_job jobs i) else get_job jobs i)
  unfolding get_job update_job
  get_job-update_job id i f [] = ground arith
  get_job-update_job id i f ((k, j) ∷ jobs) = ground (arith, get_job-update_job id i f jobs)

  pub get_job-update_self :
      (id : ℕ) (f : Qcb F → Qcb F) (jobs : Jobs F)
      → get_job (update_job id f jobs) id ≡ map_job f (get_job jobs id)
  get_job-update_self id f jobs = ground (arith, get_job-update_job id id f jobs)

  pub get_job-update_ne :
      (id i : ℕ) (f : Qcb F → Qcb F) (jobs : Jobs F)
      → id ≢ i
      → get_job (update_job id f jobs) i ≡ get_job jobs i
  get_job-update_ne id i f jobs ne = ground (arith, get_job-update_job id i f jobs)

  get_job-put_job :
      (id i : ℕ) (j : Qcb F) (jobs : Jobs F)
      → get_job (put_job id j jobs) i ≡ (if id == i then some j else get_job jobs i)
  unfolding get_job put_job
  get_job-put_job id i j [] = ground arith
  get_job-put_job id i j ((k, v) ∷ jobs) = ground (arith, get_job-put_job id i j jobs)

  -- Every id in the table is below the next one, and its block carries it.
  pub record IsTable (t : ProcessTable F) : Type 0 where
    pub below : (i : ℕ) → t.next_pid ≤ i → get_job t.jobs i ≡ none
    pub named : (i : ℕ) (j : Qcb F) → get_job t.jobs i ≡ some j → j.job_id ≡ i

  pub new_table-IsTable : IsTable new_table
  unfolding new_table get_job
  new_table-IsTable = record { below = λ i h. refl; named = λ i j e. absurd (cc) }

-- A submission gets an id that no job had, its block is READY under that id, every other job is
-- untouched, and the table stays well formed, so ids are never given twice.
pub create_job-fresh :
    {F : Type 0} (t : ProcessTable F) (r : Request F)
    → IsTable t
    → (get_job t.jobs (create_job t r).1 ≡ none)
      × (get_job (create_job t r).0.jobs (create_job t r).1 ≡ some (new_qcb (create_job t r).1 r))
      × ((i : ℕ) → i ≢ (create_job t r).1 → get_job (create_job t r).0.jobs i ≡ get_job t.jobs i)
      × IsTable (create_job t r).0
unfolding create_job
create_job-fresh t r v = (
  v.below t.next_pid (omega arith),
  ground (arith, get_job-put_job t.next_pid t.next_pid (new_qcb t.next_pid r) t.jobs),
  λ i ne. ground (arith, get_job-put_job t.next_pid i (new_qcb t.next_pid r) t.jobs),
  record {
    below = λ i h.
        ground (arith, get_job-put_job t.next_pid i (new_qcb t.next_pid r) t.jobs, v.below i);
    named = λ i j e.
        unfold new_qcb in
        ground (arith, get_job-put_job t.next_pid i (new_qcb t.next_pid r) t.jobs, v.named i j);
  },
)
