-- ===== src/Scheduler.antt =====
-- kernel/scheduler/base_scheduler.py: a scheduler's queue, and the allocation step that classifies
-- a failure. A scheduler shares its memory manager with its device context and the jobs with the
-- process table; `Site` is all that a call of `schedule` can change.
pub mod Ordered
pub mod Attempt
pub mod Held
pub mod Packing
use dev_q.Prelude.{ℕ, Bool, true, false, List, [], ◌∷◌, ◌++◌, Option, none, some}
use dev_q.Errors.{Exception, key_error, Result, ok, raise, ◌>>=◌, or_raise}
use dev_q.Alloc.{DeviceReason}
use dev_q.Memory
use dev_q.Memory.{MemoryManager, Outcome, allocated, no_placement, failed, unsatisfiable_reason}
use dev_q.Process.{Qcb, Jobs, running, waiting, rejected, on_device, get_job, update_job}

pub record Site (F : Type 0) : Type 0 where
  pub memory : MemoryManager F
  pub queue : List ℕ
  pub jobs : Jobs F

unfoldable pub enqueue : ℕ → List ℕ → List ℕ
enqueue id queue = queue ++ id ∷ []

module _ {F : Type 0} where
  -- `qcb.state = REJECTED` with the reason, or `qcb.state = WAITING`.
  unfoldable pub classify : Option (DeviceReason F) → Qcb F → Qcb F
  classify (some reason) j = record j { state = rejected; reject_reason = some (on_device reason) }
  classify none j = record j { state = waiting }

  -- After `allocate`: what the `try` body and the `except AllocationError` branch do.
  unfoldable pub conclude : Site F → ℕ → Qcb F → Memory.Call F → Outcome → Result (Site F × Bool)
  unfolding classify update_job unsatisfiable_reason
  conclude s id j call (allocated m) = ok (
    record s {
      memory = call.manager;
      jobs =
          update_job id
            (λ j. record j { v2p_map = m; state = running; alloc_decision = call.decision }) s.jobs;
    },
    true,
  )
  conclude s id j call no_placement =
      let reason = unsatisfiable_reason call.manager j.circuit j.limits in
      ok (record s { memory = call.manager; jobs = update_job id (classify reason) s.jobs }, false)
  conclude s id j call (failed e) = raise e

  unfoldable pub attempt_allocation : Site F → ℕ → Result (Site F × Bool)
  unfolding get_job conclude Memory.allocate
  attempt_allocation s id = do
    j ← or_raise (get_job s.jobs id) key_error
    let call = Memory.allocate s.memory j.circuit j.limits
    conclude s id j call call.outcome
