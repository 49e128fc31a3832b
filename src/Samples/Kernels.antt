-- ===== src/Samples/Kernels.antt =====
-- A kernel with one device, and a world in which every execution is done at once.
use dev_q.Prelude.{ℕ, ◌≢◌, false, ◌≡◌, refl, true, List, [], ◌∷◌, none, some, All, arith}
use dev_q.Errors.{ok, value_or}
use dev_q.Alloc.Graph.{graph_allocator}
use dev_q.Memory.Contract.{graph_allocator-IsHonest}
use dev_q.Process.{get_job}
use dev_q.Process.Table.{new_table-IsTable}
use dev_q.Scheduler.Ordered.{schedule_fcfs}
use dev_q.Scheduler.Ordered.Total.{Returns, IsKnown, schedule_fcfs-Returns}
use dev_q.Router.Route.{round_robin}
use dev_q.Router.RoundRobin.{select_round_robin}
use dev_q.Router.RoundRobin.Next.{IsNext, IsAscending, select_round_robin-IsNext}
use dev_q.Kernel.{Kernel, World, new_kernel, next_cycle}
use dev_q.Kernel.Submit.{submit_job}
use dev_q.Kernel.Cycle.{step, run_job}
use dev_q.Kernel.Log.{IsLogged}
use dev_q.Kernel.Log.Cycles.{step-IsLogged, run_job-IsLogged}
use dev_q.Kernel.Log.Routing.{submit_job-recorded}
use dev_q.Kernel.Wait.{wait_for, drain}
use dev_q.Kernel.Wait.Enough.{wait_for-ends, drain-ends}
use dev_q.Samples.{nat_float, line, request}
use dev_q.Samples.Allocators.{line_pool-IsDistinct}
use dev_q.Samples.Schedulers.{line_context, two_contexts, two_waiting}

abbrev quick : World ℕ
quick = record {
  clock = λ n. n;
  done = λ future observation. true;
  result = λ future. record { counts = none; success = true; error = none };
}

abbrev pub idle : Kernel ℕ
unfolding new_kernel
idle = new_kernel (line_context 0 ∷ []) (round_robin none)

abbrev submitted : Kernel ℕ
unfolding new_kernel submit_job
submitted = (submit_job quick request idle).0

abbrev stepped : Kernel ℕ × List ℕ
unfolding step graph_allocator submit_job new_kernel
stepped = value_or (submitted, []) (step quick submitted)

abbrev launched : Kernel ℕ
unfolding run_job graph_allocator submit_job new_kernel
launched = value_or submitted (run_job quick 1 submitted)

step-IsLogged_example : IsLogged (next_cycle submitted) stepped.0
unfolding step graph_allocator submit_job new_kernel
step-IsLogged_example = step-IsLogged quick submitted stepped.0 stepped.1 refl

run_job-IsLogged_example : IsLogged (next_cycle submitted) launched
unfolding run_job graph_allocator submit_job new_kernel
run_job-IsLogged_example = run_job-IsLogged quick 1 submitted launched refl

submit_job-recorded_example : get_job idle.table.jobs (submit_job quick request idle).1 ≡ none
unfolding new_kernel
submit_job-recorded_example = (submit_job-recorded quick request idle new_table-IsTable).0

two_waiting-IsKnown : All (IsKnown two_waiting.jobs) two_waiting.queue
unfolding get_job
two_waiting-IsKnown = ((_, refl), ((_, refl), tt))

schedule_fcfs-Returns_example : Returns (schedule_fcfs two_waiting)
schedule_fcfs-Returns_example =
    schedule_fcfs-Returns two_waiting (graph_allocator-IsHonest line) line_pool-IsDistinct
      two_waiting-IsKnown

two_contexts-IsAscending : IsAscending two_contexts
two_contexts-IsAscending = ((omega arith, tt), (tt, tt))

select_round_robin-IsNext_example : IsNext (some 0) two_contexts 1
unfolding select_round_robin
select_round_robin-IsNext_example =
    select_round_robin-IsNext (some 0) two_contexts 1 two_contexts-IsAscending refl

-- A world in which no execution is ever done.
abbrev stuck : World ℕ
stuck = record {
  clock = λ n. n;
  done = λ future observation. false;
  result = λ future. record { counts = none; success = true; error = none };
}

wait_for-ends_example : wait_for stuck 5 100 1 launched ≢ ok none
unfolding run_job graph_allocator submit_job new_kernel
wait_for-ends_example =
    wait_for-ends stuck 5 50 100 1 launched (λ n h. ground arith) (omega arith) (omega arith)

drain-ends_example : drain stuck 5 100 launched ≢ ok none
unfolding run_job graph_allocator submit_job new_kernel
drain-ends_example =
    drain-ends stuck 5 50 100 launched (λ n h. ground arith) (omega arith) (omega arith)
