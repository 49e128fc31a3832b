-- ===== src/Router/Route.antt =====
-- `route` and `explain` of kernel/router/base_router.py, over the shipped routers.
pub mod Chosen
use dev_q.Prelude.{◌∷◌, [], ℕ, List, Option, none, some, contains, is_empty, if◌then◌else◌}
use dev_q.Errors.{router_contract_error, Result, ok, raise, ◌>>=◌}
use dev_q.Numeric.{Float}
use dev_q.Process.{Qcb, Reason}
use dev_q.Context.{Context}
use dev_q.Router.{candidates, indices_of}
use dev_q.Router.Noise.{RouterWeights, RouteDetail, select_noise, explain_noise}
use dev_q.Router.RoundRobin.{select_round_robin}

-- The state of a router: its weights, or the index that it routed to last.
pub data Router (F : Type 0) : Type 0 where
  noise : RouterWeights F → Router F
  round_robin : (last : Option ℕ) → Router F

pub data Routed (F : Type 0) : Type 0 where
  chosen : (index : ℕ) → Routed F
  unroutable : Reason F → Routed F

-- The assignment to `_last`.
unfoldable pub after_choice : {F : Type 0} → Router F → ℕ → Router F
after_choice (noise w) index = noise w
after_choice (round_robin last) index = round_robin (some index)

module _ {F : Type 0} ⦃fl : Float F⦄ where
  unfoldable pub select_device : Router F → Qcb F → List (Context F) → Result ℕ
  unfolding select_noise select_round_robin
  select_device (noise w) j cs = select_noise w j cs
  select_device (round_robin last) j cs = select_round_robin last cs

  -- `if chosen not in candidates`
  unfoldable pub accept : Router F → List (Context F) → ℕ → Result (Router F × Routed F)
  unfolding after_choice contains indices_of
  accept r cs index =
      if contains index (indices_of cs)
      then ok (after_choice r index, chosen index)
      else raise router_contract_error

  unfoldable pub route_among :
      Router F → Qcb F → List (Context F) → Reason F → Result (Router F × Routed F)
  unfolding select_device accept
  route_among r j [] reason = ok (r, unroutable reason)
  route_among r j (c ∷ cs) reason = do index ← select_device r j (c ∷ cs); accept r (c ∷ cs) index

  unfoldable pub route : Router F → Qcb F → List (Context F) → Result (Router F × Routed F)
  unfolding candidates route_among
  route r j contexts = route_among r j (candidates j contexts).0 (candidates j contexts).1

  -- A round-robin router reports no scores.
  unfoldable pub explain :
      Router F → Qcb F → List (Context F) → Result (Option (List (ℕ × F × RouteDetail F)))
  unfolding explain_noise
  explain (noise w) j cs = do rows ← explain_noise w j cs; ok (some rows)
  explain (round_robin last) j cs = ok none
