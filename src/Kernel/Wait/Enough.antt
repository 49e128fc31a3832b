-- ===== src/Kernel/Wait/Enough.antt =====
-- The loops of `_wait_for` and `drain` of kernel/kernel.py end, given a clock that passes the
-- deadline.
use dev_q.Prelude.{
  ℕ, zero, suc, ◌+◌, ◌≤◌, ◌<◌, ◌≡◌, ◌≢◌, true, false, none, inl, inr, contains, Bool-cases, ◌||◌,
  arith,
}
use dev_q.Errors.{ok, >>=-eq-ok}
use dev_q.Numeric.{Float}
use dev_q.Kernel.{Kernel, World, observe, next_cycle}
use dev_q.Kernel.Resolve.{resolve_pending}
use dev_q.Kernel.Cycle.{step, has_pending, has_queued}
use dev_q.Kernel.Log.Operations.{resolve_pending-IsLogged}
use dev_q.Kernel.Log.Cycles.{step-IsLogged}
use dev_q.Kernel.Wait.{expire, expire_each, is_late, wait_until, wait_for, drain_until, drain}

module _ {F : Type 0} ⦃fl : Float F⦄ where
  -- From the reading `last` on, the clock is past the deadline.
  abbrev pub IsPassed : World F → F → ℕ → Type 0
  IsPassed w deadline last = (n : ℕ) → last ≤ n → fl.less deadline (w.clock n) ≡ true

  before :
      (w : World F) (deadline : F) (last : ℕ) (k : Kernel F)
      → IsPassed w deadline last
      → is_late w deadline k ≡ false
      → k.observations < last
  unfolding is_late
  before w deadline last k passed early = ground (arith, passed k.observations, early)

  wait_until-ends :
      (w : World F) (deadline : F) (last fuel id : ℕ) (k : Kernel F)
      → IsPassed w deadline last
      → 0 < fuel
      → last < k.observations + fuel
      → wait_until w deadline fuel id k ≢ ok none
  unfolding wait_until
  wait_until-ends w deadline last zero id k passed some_fuel enough e =
      absurd (omega (arith, some_fuel))
  wait_until-ends w deadline last (suc fuel) id k passed some_fuel enough e =
      elim (Bool-cases (contains id k.pending)) [
        | inr gone ↦ cc (rw (gone, wait_until) at e)
        | inl waiting ↦
            let (k1, resolved, e1) =
              >>=-eq-ok (resolve_pending w k) _ (rw (waiting, wait_until) at e) in
            let seen : k.observations ≤ k1.observations =
              (resolve_pending-IsLogged w k k1 resolved).observed in
            elim (Bool-cases (contains id k1.pending)) [
              | inr gone ↦ cc (rw gone at e1)
              | inl still ↦ elim (Bool-cases (is_late w deadline k1)) [
                | inl late ↦
                    let (k2, given_up, e2) =
                      >>=-eq-ok (expire w id (observe k1)) _ (rw (still, late) at e1) in
                    cc
                | inr early ↦
                    let tick : k1.observations < last = before w deadline last k1 passed early in
                    wait_until-ends w deadline last fuel id (observe k1) passed
                      (omega (arith, enough, seen, tick))
                      (unfold observe in omega (arith, enough, seen)) (rw (still, early) at e1)
              ]
            ]
      ]

  drain_until-ends :
      (w : World F) (deadline : F) (last fuel : ℕ) (k : Kernel F)
      → IsPassed w deadline last
      → 0 < fuel
      → last < k.observations + fuel
      → drain_until w deadline fuel k ≢ ok none
  unfolding drain_until
  drain_until-ends w deadline last zero k passed some_fuel enough e =
      absurd (omega (arith, some_fuel))
  drain_until-ends w deadline last (suc fuel) k passed some_fuel enough e =
      elim (Bool-cases (has_queued k || has_pending k)) [
        | inr finished ↦ cc (rw (finished, drain_until) at e)
        | inl busy ↦ elim (Bool-cases (is_late w deadline k)) [
          | inl late ↦
              let (k1, given_up, e1) =
                >>=-eq-ok (expire_each w k.pending (observe k)) _
                  (rw (busy, late, drain_until) at e) in
              cc
          | inr early ↦
              let tick : k.observations < last = before w deadline last k passed early in
              let (r, ran, e1) =
                >>=-eq-ok (step w (observe k)) _ (rw (busy, early, drain_until) at e) in
              let seen : (observe k).observations ≤ r.0.observations =
                unfold next_cycle in (step-IsLogged w (observe k) r.0 r.1 ran).observed in
              drain_until-ends w deadline last fuel r.0 passed (omega (arith, enough, tick))
                (unfold observe in omega (arith, enough, seen)) e1
        ]
      ]

-- Given a clock that from some reading on is past the deadline, waiting for a job ends: fuel that
-- reaches from the present reading to that one does not run out.
pub wait_for-ends :
    {F : Type 0} ⦃fl : Float F⦄ (w : World F) (timeout : F) (last fuel id : ℕ) (k : Kernel F)
    → ((n : ℕ) → last ≤ n → fl.less (fl.plus (w.clock k.observations) timeout) (w.clock n) ≡ true)
    → 0 < fuel
    → last < suc k.observations + fuel
    → wait_for w timeout fuel id k ≢ ok none
unfolding wait_for
wait_for-ends w timeout last fuel id k passed some_fuel enough =
    wait_until-ends w _ last fuel id (observe k) passed some_fuel (unfold observe in enough)

-- Given a clock that from some reading on is past the deadline, draining the kernel ends: fuel that
-- reaches from the present reading to that one does not run out.
pub drain-ends :
    {F : Type 0} ⦃fl : Float F⦄ (w : World F) (timeout : F) (last fuel : ℕ) (k : Kernel F)
    → ((n : ℕ) → last ≤ n → fl.less (fl.plus (w.clock k.observations) timeout) (w.clock n) ≡ true)
    → 0 < fuel
    → last < suc k.observations + fuel
    → drain w timeout fuel k ≢ ok none
unfolding drain
drain-ends w timeout last fuel k passed some_fuel enough =
    drain_until-ends w _ last fuel (observe k) passed some_fuel (unfold observe in enough)
