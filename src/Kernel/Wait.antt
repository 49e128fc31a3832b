-- ===== src/Kernel/Wait.antt =====
-- `_wait_for` and `drain` of kernel/kernel.py. Their loops end by what the clock tells: they run
-- on fuel here, and `none` is the fuel's end. `time.sleep` changes nothing of the kernel.
pub mod Enough
use dev_q.Prelude.{
  ℕ, zero, suc, Bool, true, false, List, [], ◌∷◌, Option, none, some, get_elem?, contains, discard,
  ◌||◌,
}
use dev_q.Errors.{Result, ok, ◌>>=◌, or_raise, index_error, key_error, type_error}
use dev_q.Numeric.{Float}
use dev_q.Process.{ExecutionResult, Qcb, failed, get_job}
use dev_q.Kernel.{Event, Kernel, World, resolve, emit, observe, set_job, set_context}
use dev_q.Kernel.Resolve.{release, resolve_pending}
use dev_q.Kernel.Cycle.{step, has_pending, has_queued}

-- The result that stands in for one that never came; the text is the program's, without the
-- number of seconds.
abbrev pub wedged : ExecutionResult
wedged = record {
  counts = none;
  success = false;
  error = some "execution did not resolve — provider or executor may be wedged";
}

module _ {F : Type 0} where
  -- Giving up on a pending job.
  unfoldable pub expire : World F → ℕ → Kernel F → Result (Kernel F)
  unfolding discard get_job set_context release set_job observe emit
  expire w id k = do
    j ← or_raise (get_job k.table.jobs id) key_error
    i ← or_raise j.device_index type_error
    c ← or_raise (get_elem? k.contexts i) index_error
    let freed = set_context i (release c j) (record k { pending = discard id k.pending })
    let stamped =
        set_job id
          (λ j. record j {
            state = failed;
            result = some wedged;
            resolved_seq = some k.seq;
            resolved_at = some (w.clock k.observations);
          })
          (observe freed)
    ok (emit (resolve id i failed wedged j.circuit_hash) stamped)

  unfoldable pub expire_each : World F → List ℕ → Kernel F → Result (Kernel F)
  unfolding expire
  expire_each w [] k = ok k
  expire_each w (id ∷ ids) k = do k' ← expire w id k; expire_each w ids k'

module _ {F : Type 0} ⦃fl : Float F⦄ where
  -- `time.monotonic() > deadline`
  unfoldable pub is_late : World F → F → Kernel F → Bool
  is_late w deadline k = fl.less deadline (w.clock k.observations)

  -- The `while` loop of `_wait_for`.
  unfoldable pub wait_until : World F → F → ℕ → ℕ → Kernel F → Result (Option (Kernel F))
  unfolding resolve_pending contains observe is_late expire
  wait_until w deadline zero id k = ok none
  wait_until w deadline (suc fuel) id k = elim (contains id k.pending) [
    | false ↦ ok (some k)
    | true ↦ do
      k1 ← resolve_pending w k
      elim (contains id k1.pending) [
        | false ↦ ok (some k1)
        | true ↦ elim (is_late w deadline k1) [
          | true ↦ do k2 ← expire w id (observe k1); ok (some k2)
          | false ↦ wait_until w deadline fuel id (observe k1)
        ]
      ]
  ]

  unfoldable pub wait_for : World F → F → ℕ → ℕ → Kernel F → Result (Option (Kernel F))
  unfolding wait_until observe
  wait_for w timeout fuel id k =
      wait_until w (fl.plus (w.clock k.observations) timeout) fuel id (observe k)

  -- The `while` loop of `drain`. The progress test only decides whether to sleep.
  unfoldable pub drain_until : World F → F → ℕ → Kernel F → Result (Option (Kernel F))
  unfolding has_queued has_pending is_late observe expire_each step
  drain_until w deadline zero k = ok none
  drain_until w deadline (suc fuel) k = elim (has_queued k || has_pending k) [
    | false ↦ ok (some k)
    | true ↦ elim (is_late w deadline k) [
      | true ↦ do k1 ← expire_each w k.pending (observe k); ok (some k1)
      | false ↦ do r ← step w (observe k); drain_until w deadline fuel r.0
    ]
  ]

  unfoldable pub drain : World F → F → ℕ → Kernel F → Result (Option (Kernel F))
  unfolding drain_until observe
  drain w timeout fuel k = drain_until w (fl.plus (w.clock k.observations) timeout) fuel (observe k)
