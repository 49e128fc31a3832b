-- ===== src/Router/RoundRobin/Next.antt =====
-- Which device the router of kernel/router/round_robin_router.py takes.
use dev_q.Prelude.{
  ℕ, ◌≤◌, ◌≡◌, ◌⊎◌, sym, true, false, List, [], ◌∷◌, Option, none, some, inl, inr, contains, All,
  All-map, IsSortedBy, Bool-cases, Option-cases, arith,
}
use dev_q.Errors.{ok, ok-injective}
use dev_q.Context.{Context}
use dev_q.Router.{indices_of}
use dev_q.Router.RoundRobin.{is_after, first_after, wrap_around, select_round_robin}

module _ {F : Type 0} where
  -- The contexts stand in the order of their indices, as devices are attached.
  abbrev pub IsAscending : List (Context F) → Type 0
  IsAscending = IsSortedBy (λ c. c.index)

  -- The least of the indices behind the last one used, or the least of all where none is behind.
  pub record IsNext (last : Option ℕ) (cs : List (Context F)) (index : ℕ) : Type 0 where
    pub offered : contains index (indices_of cs) ≡ true
    pub turn :
        (is_after last index ≡ true) × All (λ c. is_after last c.index ≡ true → index ≤ c.index) cs
        ⊎ All (λ c. (is_after last c.index ≡ false) × (index ≤ c.index)) cs

  first_after-some :
      (last : Option ℕ) (cs : List (Context F)) (index : ℕ)
      → IsAscending cs
      → first_after last cs ≡ some index
      → (contains index (indices_of cs) ≡ true)
        × (is_after last index ≡ true)
        × All (λ c. is_after last c.index ≡ true → index ≤ c.index) cs
  unfolding first_after contains indices_of
  first_after-some last [] index sorted e = absurd (cc)
  first_after-some last (c ∷ cs) index sorted e = elim (Bool-cases (is_after last c.index)) [
    | inl behind ↦
        let same : c.index ≡ index = ground (arith, rw (behind, first_after) at e) in
        (
          ground (arith, same),
          rw same at behind,
          (
            (λ _. omega (arith, same)),
            All-map (λ (d : Context F). c.index ≤ d.index)
                (λ d. is_after last d.index ≡ true → index ≤ d.index) cs
                (λ d h _. omega (arith, h, same)) sorted.0,
          ),
        )
    | inr before ↦
        let (offered, after, least) =
          first_after-some last cs index sorted.1 (rw (before, first_after) at e) in
        (ground (arith, offered), after, ((λ h. absurd (cc)), least))
  ]

  first_after-none :
      (last : Option ℕ) (cs : List (Context F))
      → first_after last cs ≡ none
      → All (λ c. is_after last c.index ≡ false) cs
  unfolding first_after
  first_after-none last [] e = tt
  first_after-none last (c ∷ cs) e = elim (Bool-cases (is_after last c.index)) [
    | inl behind ↦ absurd (cc (rw (behind, first_after) at e))
    | inr before ↦ (before, first_after-none last cs (rw (before, first_after) at e))
  ]

  wrap_around-IsNext :
      (last : Option ℕ) (cs : List (Context F)) (index : ℕ)
      → IsAscending cs
      → All (λ c. is_after last c.index ≡ false) cs
      → wrap_around cs ≡ ok index
      → IsNext last cs index
  unfolding wrap_around contains indices_of
  wrap_around-IsNext last [] index sorted before e = absurd (cc)
  wrap_around-IsNext last (c ∷ cs) index sorted before e =
      let same : c.index ≡ index = ok-injective e in
      record {
        offered = ground (arith, same);
        turn = inr ((before.0, omega (arith, same)), both cs before.1 sorted.0);
      }
    where
      both :
          (ds : List (Context F))
          → All (λ d. is_after last d.index ≡ false) ds
          → All (λ d. c.index ≤ d.index) ds
          → All (λ d. (is_after last d.index ≡ false) × (index ≤ d.index)) ds
      both [] p q = tt
      both (d ∷ ds) p q =
          let same : c.index ≡ index = ok-injective e in
          ((p.0, omega (arith, q.0, same)), both ds p.1 q.1)

-- Among candidates in the order of their indices, the round-robin router takes the least index
-- behind the last one that it used, and where no candidate is behind it, the least of all.
pub select_round_robin-IsNext :
    {F : Type 0} (last : Option ℕ) (cs : List (Context F)) (index : ℕ)
    → IsAscending cs
    → select_round_robin last cs ≡ ok index
    → IsNext last cs index
unfolding select_round_robin
select_round_robin-IsNext last cs index sorted e = elim (Option-cases (first_after last cs)) [
  | inl nobody ↦
      wrap_around-IsNext last cs index sorted (first_after-none last cs nobody)
        (rw (nobody, select_round_robin) at e)
  | inr (i, found) ↦
      let same : i ≡ index = ok-injective (rw (found, select_round_robin) at e) in
      let (offered, after, least) = first_after-some last cs i sorted found in
      rw (sym same) (record { offered = offered; turn = inl (after, least) })
]
