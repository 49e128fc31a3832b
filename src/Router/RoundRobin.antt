-- ===== src/Router/RoundRobin.antt =====
-- kernel/router/round_robin_router.py: the next feasible device after the last one used.
pub mod Next
use dev_q.Prelude.{ℕ, Bool, true, List, [], ◌∷◌, Option, none, some, ltb, if◌then◌else◌}
use dev_q.Errors.{index_error, Result, ok, raise}
use dev_q.Context.{Context}

-- `ctx.index > self._last`, where `none` is the initial -1.
unfoldable pub is_after : Option ℕ → ℕ → Bool
is_after none index = true
is_after (some last) index = ltb last index

module _ {F : Type 0} where
  unfoldable pub first_after : Option ℕ → List (Context F) → Option ℕ
  unfolding is_after
  first_after last [] = none
  first_after last (c ∷ cs) = if is_after last c.index then some c.index else first_after last cs

  -- `candidates[0]` of an empty list raises IndexError.
  unfoldable pub wrap_around : List (Context F) → Result ℕ
  wrap_around [] = raise index_error
  wrap_around (c ∷ cs) = ok c.index

  -- The chosen index; it becomes `_last`.
  unfoldable pub select_round_robin : Option ℕ → List (Context F) → Result ℕ
  unfolding first_after wrap_around
  select_round_robin last candidates = elim (first_after last candidates) [
    | some index ↦ ok index
    | none ↦ wrap_around candidates
  ]
