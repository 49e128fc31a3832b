-- ===== src/Router.antt =====
-- kernel/router/base_router.py: the candidates for a job, and the contract of `select`. A context
-- is named by its index; the routers are the two shipped ones.
pub mod Noise
pub mod RoundRobin
pub mod Route
use dev_q.Prelude.{
  ℕ, Bool, true, false, not, List, [], ◌∷◌, ◌++◌, Option, none, some, map, select, contains,
  is_empty, if◌then◌else◌,
}
use dev_q.Alloc.{DeviceReason}
use dev_q.Memory.{unsatisfiable_reason}
use dev_q.Process.{Qcb, Reason, no_allowed_device, on_every_device}
use dev_q.Context.{Context}

module _ {F : Type 0} where
  -- `_allowed`: the allow list goes first, and the deny list counts only without one.
  unfoldable pub is_allowed : Qcb F → Context F → Bool
  unfolding contains
  is_allowed j c = elim j.exec_on [
    | some indices ↦ contains c.index indices
    | none ↦ elim j.no_exec_on [ some indices ↦ not (contains c.index indices) | none ↦ true ]
  ]

  unfoldable pub allowed : Qcb F → List (Context F) → List (Context F)
  unfolding select is_allowed
  allowed j contexts = select (is_allowed j) contexts

  unfoldable pub reason_on : Qcb F → Context F → Option (DeviceReason F)
  unfolding unsatisfiable_reason
  reason_on j c = unsatisfiable_reason c.memory_manager j.circuit j.limits

  -- The loop's two lists: the feasible contexts, and why the others are not.
  unfoldable pub feasible_contexts : Qcb F → List (Context F) → List (Context F)
  unfolding reason_on
  feasible_contexts j [] = []
  feasible_contexts j (c ∷ cs) =
      let rest = feasible_contexts j cs in elim (reason_on j c) [ none ↦ c ∷ rest | some _ ↦ rest ]

  infeasible_reasons : Qcb F → List (Context F) → List (ℕ × DeviceReason F)
  unfolding reason_on
  infeasible_reasons j [] = []
  infeasible_reasons j (c ∷ cs) =
      let rest = infeasible_reasons j cs in
      elim (reason_on j c) [ none ↦ rest | some reason ↦ (c.index, reason) ∷ rest ]

  -- The rest of `_candidates`, given the allowed contexts.
  unfoldable pub candidates_among : Qcb F → List (Context F) → List (Context F) × Reason F
  unfolding feasible_contexts infeasible_reasons
  candidates_among j [] = ([], no_allowed_device j.exec_on j.no_exec_on)
  candidates_among j (c ∷ cs) =
      (feasible_contexts j (c ∷ cs), on_every_device (infeasible_reasons j (c ∷ cs)))

  -- `_candidates`: the contexts, and the reason where there are none.
  unfoldable pub candidates : Qcb F → List (Context F) → List (Context F) × Reason F
  unfolding allowed candidates_among
  candidates j contexts = candidates_among j (allowed j contexts)

  unfoldable pub indices_of : List (Context F) → List ℕ
  indices_of cs = map (λ c. c.index) cs
