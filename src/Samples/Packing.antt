-- ===== src/Samples/Packing.antt =====
-- A packing cycle on three qubits: of two pairs, the first is placed and the second waits.
use dev_q.Prelude.{ℕ, ◌≡◌, refl, List, [], ◌∷◌}
use dev_q.Errors.{value_or}
use dev_q.Alloc.Graph.{graph_allocator}
use dev_q.Process.{new_qcb}
use dev_q.Scheduler.{Site}
use dev_q.Scheduler.Packing.{schedule_packing}
use dev_q.Scheduler.Packing.Cycle.{IsPacked, schedule_packing-IsPacked}
use dev_q.Samples.{nat_float}
use dev_q.Samples.Schedulers.{two_waiting, two-IsDistinct}

abbrev packed : Site ℕ × List ℕ
unfolding schedule_packing graph_allocator new_qcb
packed = value_or (two_waiting, []) (schedule_packing two_waiting)

packed_jobs : packed.1 ≡ 1 ∷ []
unfolding schedule_packing graph_allocator new_qcb
packed_jobs = refl

schedule_packing-IsPacked_example : IsPacked two_waiting packed.1 packed.0
unfolding schedule_packing graph_allocator new_qcb
schedule_packing-IsPacked_example =
    schedule_packing-IsPacked two_waiting packed.0 packed.1 two-IsDistinct refl
