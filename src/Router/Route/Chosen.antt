-- ===== src/Router/Route/Chosen.antt =====
-- Which device `route` of kernel/router/base_router.py chooses, and when it chooses none.
use dev_q.Prelude.{
  ℕ, suc, ◌≡◌, ◌≢◌, refl, subst, true, List, [], ◌∷◌, none, some, inl, inr, get_elem?, contains,
  is_empty, All, Bool-cases, Option-cases, ◌==◌, ==_iff, arith,
}
use dev_q.Errors.{ok, >>=-eq-ok, ok-injective}
use dev_q.Numeric.{Float}
use dev_q.Process.{Qcb, Reason}
use dev_q.Context.{Context}
use dev_q.Router.{
  is_allowed, allowed, reason_on, feasible_contexts, candidates, candidates_among, indices_of,
}
use dev_q.Router.Route.{
  Router, Routed, chosen, unroutable, route, route_among, accept, select_device, after_choice,
}

-- A context of the list that the job's device lists allow, and that could ever run its circuit.
pub record IsRoutable {F : Type 0} (j : Qcb F) (contexts : List (Context F)) (index : ℕ)
    : Type 0 where
  pub context : Context F
  pub place : ℕ
  pub found : get_elem? contexts place ≡ some context
  pub named : context.index ≡ index
  pub permitted : is_allowed j context ≡ true
  pub feasible : reason_on j context ≡ none

module _ {F : Type 0} (j : Qcb F) where
  IsRoutable-cons :
      (c : Context F) (cs : List (Context F)) (i : ℕ) → IsRoutable j cs i → IsRoutable j (c ∷ cs) i
  IsRoutable-cons c cs i r = record {
    context = r.context;
    place = suc r.place;
    found = r.found;
    named = r.named;
    permitted = r.permitted;
    feasible = r.feasible;
  }

  candidates-IsRoutable :
      (cs : List (Context F)) (i : ℕ)
      → contains i (indices_of (feasible_contexts j (allowed j cs))) ≡ true
      → IsRoutable j cs i
  unfolding contains indices_of feasible_contexts allowed
  candidates-IsRoutable [] i h = absurd (cc)
  candidates-IsRoutable (c ∷ cs) i h = elim (Bool-cases (is_allowed j c)) [
    | inr no_way ↦ IsRoutable-cons c cs i (candidates-IsRoutable cs i (ground (arith, no_way)))
    | inl permitted ↦ elim (Option-cases (reason_on j c)) [
      | inr (reason, e) ↦
          IsRoutable-cons c cs i (candidates-IsRoutable cs i (ground (arith, permitted, e)))
      | inl feasible ↦ elim (Bool-cases (c.index == i)) [
        | inl here ↦ record {
          context = c;
          place = 0;
          found = refl;
          named = (==_iff c.index i).0 here;
          permitted = permitted;
          feasible = feasible;
        }
        | inr there ↦
            IsRoutable-cons c cs i
              (candidates-IsRoutable cs i (ground (arith, permitted, feasible, there)))
      ]
    ]
  ]

  no_candidates :
      (cs : List (Context F))
      → is_empty (feasible_contexts j (allowed j cs)) ≡ true
      → All (λ c. is_allowed j c ≡ true → reason_on j c ≢ none) cs
  unfolding feasible_contexts allowed
  no_candidates [] h = tt
  no_candidates (c ∷ cs) h = elim (Bool-cases (is_allowed j c)) [
    | inr no_way ↦ ((λ p. absurd (cc)), no_candidates cs (ground (arith, no_way)))
    | inl permitted ↦ elim (Option-cases (reason_on j c)) [
      | inr (reason, e) ↦ ((λ p n. cc), no_candidates cs (ground (arith, permitted, e)))
      | inl feasible ↦ absurd (ground (arith, permitted, feasible))
    ]
  ]

  candidates-eq : (cs : List (Context F)) → (candidates j cs).0 ≡ feasible_contexts j (allowed j cs)
  unfolding candidates
  candidates-eq cs = go (allowed j cs)
    where
      go : (ds : List (Context F)) → (candidates_among j ds).0 ≡ feasible_contexts j ds
      go [] = unfold candidates_among feasible_contexts in refl
      go (d ∷ ds) = unfold candidates_among in refl

module _ {F : Type 0} ⦃fl : Float F⦄ (r : Router F) (j : Qcb F) where
  -- What a call that returned `(r', choice)` over the candidates `ds` tells.
  abbrev RouteFact : List (Context F) → Router F → Routed F → Type 0
  RouteFact ds r' (chosen i) = (contains i (indices_of ds) ≡ true) × (r' ≡ after_choice r i)
  RouteFact ds r' (unroutable reason) = (is_empty ds ≡ true) × (r' ≡ r)

  accept-RouteFact :
      (ds : List (Context F)) (index : ℕ) (r' : Router F) (choice : Routed F)
      → accept r ds index ≡ ok (r', choice)
      → RouteFact ds r' choice
  unfolding accept
  accept-RouteFact ds index r' choice e = elim (Bool-cases (contains index (indices_of ds))) [
    | inr stray ↦ absurd (cc (rw (stray, accept) at e))
    | inl offered ↦
        let result : Router F × Routed F = (after_choice r index, chosen index) in
        subst (λ (x : Router F × Routed F). RouteFact ds x.0 x.1)
          (ok-injective {x = result} (rw (offered, accept) at e)) (offered, refl)
  ]

  route_among-RouteFact :
      (ds : List (Context F)) (reason : Reason F) (r' : Router F) (choice : Routed F)
      → route_among r j ds reason ≡ ok (r', choice)
      → RouteFact ds r' choice
  unfolding route_among
  route_among-RouteFact [] reason r' choice e =
      let result : Router F × Routed F = (r, unroutable reason) in
      subst (λ (x : Router F × Routed F). RouteFact [] x.0 x.1) (ok-injective {x = result} e)
        (refl, refl)
  route_among-RouteFact (c ∷ cs) reason r' choice e =
      let (index, picked, e1) = >>=-eq-ok (select_device r j (c ∷ cs)) _ e in
      accept-RouteFact (c ∷ cs) index r' choice e1

-- Where `route` chooses a device, it is one of the attached contexts that the job's device lists
-- allow and on which the job could ever run; a round-robin router remembers it, and no other
-- state of the router changes.
pub route-chosen :
    {F : Type 0} ⦃fl : Float F⦄ (r r' : Router F) (j : Qcb F) (contexts : List (Context F)) (i : ℕ)
    → route r j contexts ≡ ok (r', chosen i)
    → IsRoutable j contexts i × (r' ≡ after_choice r i)
unfolding route
route-chosen r r' j contexts i e =
    let (offered, after) = route_among-RouteFact r j (candidates j contexts).0 _ r' (chosen i) e in
    (candidates-IsRoutable j contexts i (rw (candidates-eq j contexts) at offered), after)

-- Where `route` reports that a job is unroutable, each attached context is excluded by the job's
-- device lists or could never run the job, and the router is as it was.
pub route-unroutable :
    {F : Type 0} ⦃fl : Float F⦄ (r r' : Router F) (j : Qcb F) (contexts : List (Context F))
    (reason : Reason F)
    → route r j contexts ≡ ok (r', unroutable reason)
    → All (λ c. is_allowed j c ≡ true → reason_on j c ≢ none) contexts × (r' ≡ r)
unfolding route
route-unroutable r r' j contexts reason e =
    let (empty, same) =
      route_among-RouteFact r j (candidates j contexts).0 _ r' (unroutable reason) e in
    (no_candidates j contexts (rw (candidates-eq j contexts) at empty), same)
