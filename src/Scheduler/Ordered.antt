-- ===== src/Scheduler/Ordered.antt =====
-- kernel/scheduler/fcfs_scheduler.py and shortest_depth_scheduler.py: one job after another, in
-- order of arrival or of circuit depth.
pub mod Depth
pub mod Served
pub mod Total
pub mod Progress
use dev_q.Prelude.{ℕ, Bool, true, false, List, [], ◌∷◌, ◌++◌, map, sort_by}
use dev_q.Errors.{key_error, Result, ok, ◌>>=◌, or_raise}
use dev_q.Circuit.{get_depth}
use dev_q.Process.{Jobs, is_rejected, get_job}
use dev_q.Scheduler.{Site, attempt_allocation}

module _ {F : Type 0} where
  -- The three ways on after an attempt: a dispatch ends the cycle, a rejection goes on with the
  -- rest of the queue, and a WAITING head blocks it.
  unfoldable pub serve_on :
      Site F
      → ℕ
      → List ℕ
      → List ℕ
      → (success is_gone : Bool) → Result (Site F × List ℕ)
      → Result (Site F × List ℕ)
  serve_on s id rest processed true _ next = ok (record s { queue = rest }, processed ++ id ∷ [])
  serve_on s id rest processed false true next = next
  serve_on s id rest processed false false next = ok (record s { queue = id ∷ rest }, processed)

  -- The `while self.queue` loop: the first list is the queue, and `s.queue` is set at the end.
  unfoldable pub serve : Site F → List ℕ → List ℕ → Result (Site F × List ℕ)
  unfolding attempt_allocation serve_on
  serve s [] processed = ok (record s { queue = [] }, processed)
  serve s (id ∷ rest) processed = do
    r ← attempt_allocation s id
    j ← or_raise (get_job r.0.jobs id) key_error
    let next = serve r.0 rest (processed ++ id ∷ [])
    serve_on r.0 id rest processed r.1 (is_rejected j.state) next

  -- `processed or None`, and the callers read None as an empty list.
  unfoldable pub schedule_fcfs : Site F → Result (Site F × List ℕ)
  unfolding serve
  schedule_fcfs s = serve s s.queue []

  -- The sort keys; `get_depth` of a malformed circuit raises.
  unfoldable pub depths : Jobs F → List ℕ → Result (List (ℕ × ℕ))
  unfolding get_job get_depth
  depths jobs [] = ok []
  depths jobs (id ∷ ids) = do
    j ← or_raise (get_job jobs id) key_error
    d ← get_depth j.circuit
    rest ← depths jobs ids
    ok ((d, id) ∷ rest)

  -- `queue.sort(key=lambda qcb: qcb.circuit.get_depth())`
  unfoldable pub sort_queue : Jobs F → List ℕ → Result (List ℕ)
  unfolding depths sort_by
  sort_queue jobs queue = do
    keyed ← depths jobs queue
    ok (map (λ (e : ℕ × ℕ). e.1) (sort_by (λ (e : ℕ × ℕ). e.0) keyed))

  unfoldable pub schedule_sdf : Site F → Result (Site F × List ℕ)
  unfolding sort_queue serve
  schedule_sdf s = do queue ← sort_queue s.jobs s.queue; serve s queue []
