-- ===== src/Samples/Schedulers.antt =====
-- Submissions, scheduling cycles and routing decisions at small inputs.
use dev_q.Prelude.{
  ℕ, ◌≡◌, ◌≢◌, refl, Bool, true, false, List, [], ◌∷◌, Option, none, some, count, IsDistinct, All,
  arith,
}
use dev_q.Errors.{value_or, ok}
use dev_q.Pool.{new_pool}
use dev_q.Alloc.Graph.Feasible.{graph_allocator-IsComplete}
use dev_q.Scheduler.Ordered.Progress.{schedule_fcfs-progress}
use dev_q.Alloc.Graph.{graph_allocator}
use dev_q.Memory.Contract.{graph_allocator-IsHonest}
use dev_q.Process.{Jobs, new_table, new_qcb, create_job, get_job, no_allowed_device}
use dev_q.Process.Table.{new_table-IsTable, create_job-fresh}
use dev_q.Scheduler.{Site, attempt_allocation}
use dev_q.Scheduler.Attempt.{IsTried, attempt_allocation-IsTried}
use dev_q.Scheduler.Ordered.{schedule_fcfs, schedule_sdf}
use dev_q.Scheduler.Ordered.Depth.{IsDepthSorted}
use dev_q.Scheduler.Ordered.Served.{IsServed, schedule_fcfs-IsServed, schedule_sdf-IsServed}
use dev_q.Context.{Context, fcfs}
use dev_q.Router.{is_allowed, reason_on}
use dev_q.Router.Route.{Router, round_robin, route, after_choice}
use dev_q.Router.Route.Chosen.{IsRoutable, route-chosen, route-unroutable}
use dev_q.Samples.{nat_float, line, request}
use dev_q.Samples.Allocators.{line_pool-IsDistinct, line_manager}

-- Two pairs on three qubits: the first is placed, the second waits.
abbrev two_jobs : Jobs ℕ
two_jobs = (1, new_qcb 1 request) ∷ (2, new_qcb 2 request) ∷ []

abbrev pub two_waiting : Site ℕ
two_waiting = record { memory = line_manager; queue = 1 ∷ 2 ∷ []; jobs = two_jobs }

abbrev fcfs_run : Site ℕ × List ℕ
unfolding schedule_fcfs graph_allocator
fcfs_run = value_or (two_waiting, []) (schedule_fcfs two_waiting)

abbrev sdf_run : Site ℕ × List ℕ
unfolding schedule_sdf graph_allocator
sdf_run = value_or (two_waiting, []) (schedule_sdf two_waiting)

abbrev attempt_run : Site ℕ × Bool
unfolding attempt_allocation graph_allocator
attempt_run = value_or (two_waiting, false) (attempt_allocation two_waiting 1)

fcfs_processed : fcfs_run.1 ≡ 1 ∷ []
unfolding schedule_fcfs graph_allocator new_qcb
fcfs_processed = refl

pub two-IsDistinct : IsDistinct two_waiting.queue
unfolding count
two-IsDistinct q = ground arith

create_job-fresh_example : get_job {F = ℕ} [] 1 ≡ none
unfolding new_table create_job
create_job-fresh_example = (create_job-fresh new_table request new_table-IsTable).0

attempt_allocation-IsTried_example : IsTried two_waiting attempt_run.0 1 attempt_run.1
unfolding attempt_allocation graph_allocator new_qcb
attempt_allocation-IsTried_example =
    attempt_allocation-IsTried two_waiting attempt_run.0 1 attempt_run.1
      (graph_allocator-IsHonest line) line_pool-IsDistinct refl

schedule_fcfs-IsServed_example : IsServed two_waiting (1 ∷ 2 ∷ []) fcfs_run.1 fcfs_run.0
unfolding schedule_fcfs graph_allocator new_qcb
schedule_fcfs-IsServed_example =
    schedule_fcfs-IsServed two_waiting fcfs_run.0 fcfs_run.1 (graph_allocator-IsHonest line)
      line_pool-IsDistinct two-IsDistinct refl

schedule_sdf-IsServed_example :
    (queue : List ℕ) × IsDepthSorted two_jobs (1 ∷ 2 ∷ []) queue
    × IsServed two_waiting queue sdf_run.1 sdf_run.0
unfolding schedule_sdf graph_allocator new_qcb
schedule_sdf-IsServed_example =
    schedule_sdf-IsServed two_waiting sdf_run.0 sdf_run.1 (graph_allocator-IsHonest line)
      line_pool-IsDistinct two-IsDistinct refl

schedule_fcfs-progress_example :
    (s' : Site ℕ) × (more : List ℕ) × (schedule_fcfs two_waiting ≡ ok (s', 1 ∷ more))
unfolding new_qcb new_pool get_job
schedule_fcfs-progress_example =
    schedule_fcfs-progress two_waiting 1 (2 ∷ []) (new_qcb 1 request)
      (graph_allocator-IsHonest line) (graph_allocator-IsComplete line) line_pool-IsDistinct refl
      refl two-IsDistinct ((_, refl), ((_, refl), tt)) refl (omega arith)

abbrev pub line_context : ℕ → Context ℕ
line_context index = record {
  index = index;
  name = none;
  memory_manager = line_manager;
  policy = fcfs;
  queue = [];
  shots = 1024;
  running_jobs = 0;
}

abbrev pub two_contexts : List (Context ℕ)
two_contexts = line_context 0 ∷ line_context 1 ∷ []

abbrev router_at : Option ℕ → Router ℕ
router_at last = round_robin last

-- The job last went to device 0.
route-chosen_example :
    IsRoutable (new_qcb 1 request) two_contexts 1
    × (router_at (some 1) ≡ after_choice (router_at (some 0)) 1)
unfolding route graph_allocator new_qcb
route-chosen_example =
    route-chosen (router_at (some 0)) (router_at (some 1)) (new_qcb 1 request) two_contexts 1 refl

-- A job that only device 7 may run.
route-unroutable_example :
    All
      (λ c.
        is_allowed (record (new_qcb 1 request) { exec_on = some (7 ∷ []) }) c ≡ true
        → reason_on (record (new_qcb 1 request) { exec_on = some (7 ∷ []) }) c ≢ none)
      two_contexts
    × (router_at none ≡ router_at none)
unfolding route new_qcb
route-unroutable_example =
    route-unroutable (router_at none) (router_at none)
      (record (new_qcb 1 request) { exec_on = some (7 ∷ []) }) two_contexts
      (no_allowed_device (some (7 ∷ [])) none) refl
