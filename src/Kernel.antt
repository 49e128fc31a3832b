-- ===== src/Kernel.antt =====
-- kernel/kernel.py: the state of the kernel, its event log, and the outside world that it reads.
pub mod Dispatch
pub mod Resolve
pub mod Submit
pub mod Cycle
pub mod Log
pub mod Wait
use dev_q.Prelude.{
  ℕ, suc, ◌+◌, ◌-◌, String, Bool, List, [], ◌∷◌, ◌++◌, Option, none, some, get_elem?, set,
}
use dev_q.Alloc.{Limits, Mapping, BlockDetail}
use dev_q.Process.{
  Qcb, Jobs, Reason, ProcessTable, Request, JobState, rejected, ExecutionResult, new_table,
  update_job,
}
use dev_q.Context.{Context}
use dev_q.Router.Noise.{RouteDetail}
use dev_q.Router.Route.{Router}

-- The records that the kernel emits, each with the fields of its call of `_emit`.
pub data Event (F : Type 0) : Type 0 where
  submit : (job_id : ℕ) (request : Request F) → Event F
  route :
      (job_id device : ℕ) (candidates : List ℕ) (scores : Option (List (ℕ × F × RouteDetail F)))
      → Event F
  reject :
      (job_id : ℕ) (candidates : List ℕ) (scores : Option (List (ℕ × F × RouteDetail F)))
      (reason : Reason F) (circuit_hash circuit_label : Option String)
      → Event F
  dispatch : (job_id device : ℕ) (v2p_map : Mapping) (shots : ℕ) → Event F
  allocate :
      (job_id device : ℕ) (block : List ℕ) (scores : List (List ℕ × F × BlockDetail F)) → Event F
  resolve :
      (job_id device : ℕ) (state : JobState) (result : ExecutionResult)
      (circuit_hash : Option String)
      → Event F
  cycle_end : (processed : ℕ) → Event F

pub record Stamped (F : Type 0) : Type 0 where
  pub event : Event F
  pub cycle : ℕ
  pub seq : ℕ

-- `log` is what the sink was given. `futures` counts the executions started, and names the next
-- future. `observations` counts the reads of the clock and of the futures.
pub record Kernel (F : Type 0) : Type 0 where
  pub contexts : List (Context F)
  pub router : Router F
  pub table : ProcessTable F
  pub router_queue : List ℕ
  pub pending : List ℕ
  pub cycle : ℕ
  pub seq : ℕ
  pub log : List (Stamped F)
  pub futures : ℕ
  pub observations : ℕ

-- What the kernel reads and does not decide, each at the number of the observation: `time.time()`
-- and `time.monotonic()`, whether a future is done, and the result of a future.
pub record World (F : Type 0) : Type 0 where
  pub clock : ℕ → F
  pub done : (future observation : ℕ) → Bool
  pub result : (future : ℕ) → ExecutionResult

module _ {F : Type 0} where
  -- Kernel.__init__
  unfoldable pub new_kernel : List (Context F) → Router F → Kernel F
  unfolding new_table
  new_kernel contexts router = record {
    contexts = contexts;
    router = router;
    table = new_table;
    router_queue = [];
    pending = [];
    cycle = 0;
    seq = 0;
    log = [];
    futures = 0;
    observations = 0;
  }

  -- `_emit`; a sink that raises changes nothing here.
  unfoldable pub emit : Event F → Kernel F → Kernel F
  emit e k = record k {
    seq = suc k.seq;
    log = k.log ++ record { event = e; cycle = k.cycle; seq = k.seq } ∷ [];
  }

  unfoldable pub next_cycle : Kernel F → Kernel F
  next_cycle k = record k { cycle = suc k.cycle }

  unfoldable pub observe : Kernel F → Kernel F
  observe k = record k { observations = suc k.observations }

  -- Assignments to a job's attributes, and to a context's.
  unfoldable pub set_job : ℕ → (Qcb F → Qcb F) → Kernel F → Kernel F
  unfolding update_job
  set_job id f k =
      let t = k.table in record k { table = record t { jobs = update_job id f t.jobs } }

  unfoldable pub set_context : ℕ → Context F → Kernel F → Kernel F
  set_context i c k = record k { contexts = set k.contexts i c }

  -- `_reject`
  unfoldable pub reject_job : ℕ → Reason F → Kernel F → Kernel F
  unfolding set_job
  reject_job id reason =
      set_job id (λ j. record j { state = rejected; reject_reason = some reason })
