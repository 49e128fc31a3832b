-- ===== src/Scheduler/Packing.antt =====
-- kernel/scheduler/packing_scheduler.py: as many jobs as fit side by side, shallow ones first.
pub mod Pass
pub mod Packed
pub mod Cycle
use dev_q.Prelude.{
  ℕ, true, false, List, [], ◌∷◌, ◌++◌, Option, none, some, contains, discard, is_empty,
  if◌then◌else◌,
}
use dev_q.Errors.{key_error, allocator_bug, Result, ok, raise, ◌>>=◌, or_raise}
use dev_q.Pool
use dev_q.Pool.{Pool, Reserve, taken, refused, raises}
use dev_q.Alloc.{DeviceReason, Mapping, values, Attempt, placed, cannot_place, bug, Allocation}
use dev_q.Memory.{MemoryManager, unsatisfiable_reason}
use dev_q.Process.{Qcb, Jobs, running, waiting, rejected, on_device, get_job, update_job}
use dev_q.Scheduler.{Site}
use dev_q.Scheduler.Ordered.{sort_queue}

-- The trial pass: the queue and the jobs as it changes them, the qubits still free for the batch,
-- and its two results.
pub record Trial (F : Type 0) : Type 0 where
  pub queue : List ℕ
  pub jobs : Jobs F
  pub temp_free : List ℕ
  pub batch : List ℕ
  pub rejected : List ℕ

-- `for p in mapping.values(): temp_free.remove(p)`
unfoldable pub remove_all : List ℕ → List ℕ → Result (List ℕ)
remove_all temp_free [] = ok temp_free
remove_all temp_free (p ∷ ps) = elim (contains p temp_free) [
  | true ↦ remove_all (discard p temp_free) ps
  | false ↦ raise key_error
]

-- `_try_allocate_temp`: `none` is the None of an AllocationError.
unfoldable pub trial_mapping : Attempt → Result (Option Mapping)
trial_mapping (placed m) = ok (some m)
trial_mapping cannot_place = ok none
trial_mapping bug = raise allocator_bug

-- The result of `pool.allocate` is not looked at.
unfoldable pub commit_pool : Pool → Reserve → Result Pool
commit_pool pool (taken pool') = ok pool'
commit_pool pool refused = ok pool
commit_pool pool (raises _) = raise key_error

module _ {F : Type 0} where
  unfoldable pub try_allocate_temp : MemoryManager F → Qcb F → List ℕ → Allocation F
  try_allocate_temp mm j temp_free =
      mm.allocator.allocate j.circuit mm.device
        (record { free_qubits = temp_free; temporary = true }) j.limits

  -- The decision is pinned on the job only where the allocator returned.
  unfoldable pub pin : Allocation F → Qcb F → Qcb F
  pin a j = elim a.attempt [ placed _ ↦ record j { alloc_decision = a.decision } | _ ↦ j ]

  -- `if reason:` in the `else` branch.
  unfoldable pub reject_or_keep : Trial F → ℕ → Option (DeviceReason F) → Trial F
  unfolding discard update_job
  reject_or_keep t id none = t
  reject_or_keep t id (some reason) = record t {
    queue = discard id t.queue;
    jobs =
        update_job id (λ j. record j { state = rejected; reject_reason = some (on_device reason) })
          t.jobs;
    rejected = t.rejected ++ id ∷ [];
  }

  -- `if mapping:`, which an empty dict does not pass.
  unfoldable pub trial_branch :
      MemoryManager F → Trial F → ℕ → Qcb F → Option Mapping → Result (Trial F)
  unfolding reject_or_keep remove_all update_job unsatisfiable_reason values
  trial_branch mm t id j none =
      ok (reject_or_keep t id (unsatisfiable_reason mm j.circuit j.limits))
  trial_branch mm t id j (some []) =
      ok (reject_or_keep t id (unsatisfiable_reason mm j.circuit j.limits))
  trial_branch mm t id j (some (e ∷ m)) = do
    temp_free ← remove_all t.temp_free (values (e ∷ m))
    ok (record t {
      jobs = update_job id (λ j. record j { v2p_map = e ∷ m }) t.jobs;
      batch = t.batch ++ id ∷ [];
      temp_free = temp_free;
    })

  -- The body of `for qcb in list(self.queue)`.
  unfoldable pub trial_step : MemoryManager F → Trial F → ℕ → Result (Trial F)
  unfolding try_allocate_temp trial_mapping trial_branch pin get_job update_job
  trial_step mm t id = do
    j ← or_raise (get_job t.jobs id) key_error
    let a = try_allocate_temp mm j t.temp_free
    mapping ← trial_mapping a.attempt
    trial_branch mm (record t { jobs = update_job id (pin a) t.jobs }) id j mapping

  unfoldable pub trial_pass : MemoryManager F → Trial F → List ℕ → Result (Trial F)
  unfolding trial_step
  trial_pass mm t [] = ok t
  trial_pass mm t (id ∷ ids) = do t' ← trial_step mm t id; trial_pass mm t' ids

  -- `for qcb in batch`
  unfoldable pub commit : Site F → List ℕ → Result (Site F)
  unfolding commit_pool get_job update_job discard values Pool.allocate
  commit s [] = ok s
  commit s (id ∷ ids) = do
    j ← or_raise (get_job s.jobs id) key_error
    pool ← commit_pool s.memory.pool (Pool.allocate s.memory.pool (values j.v2p_map))
    let mm = s.memory
    commit
        (record {
          memory = record mm { pool = pool };
          queue = discard id s.queue;
          jobs = update_job id (λ j. record j { state = running }) s.jobs;
        })
        ids

  -- `for qcb in self.queue: qcb.state = WAITING`
  unfoldable pub set_waiting : List ℕ → Jobs F → Jobs F
  unfolding update_job
  set_waiting [] jobs = jobs
  set_waiting (id ∷ ids) jobs =
      set_waiting ids (update_job id (λ j. record j { state = waiting }) jobs)

  unfoldable pub schedule_packing : Site F → Result (Site F × List ℕ)
  unfolding sort_queue trial_pass commit set_waiting
  schedule_packing s = if is_empty s.queue then ok (s, []) else do
    queue ← sort_queue s.jobs s.queue
    t ←
        trial_pass s.memory
          (record {
            queue = queue;
            jobs = s.jobs;
            temp_free = s.memory.pool.free_qubits;
            batch = [];
            rejected = [];
          })
          queue
    done ← commit (record { memory = s.memory; queue = t.queue; jobs = t.jobs }) t.batch
    ok (record done { jobs = set_waiting done.queue done.jobs }, t.rejected ++ t.batch)
