-- ===== src/Circuit/Reuse.antt =====
-- What the scan for mid-circuit measurement of circuits/circuit_rep.py finds.
pub mod Exact
pub mod Operated
use dev_q.Prelude.{
  ℕ, zero, suc, ◌<◌, ◌≡◌, ◌≢◌, sym, ◌⊎◌, refl, Bool, true, false, List, [], ◌∷◌, ◌++◌, Option, none,
  some, inl, inr, get_elem?, contains, add, count, contains-count, count-contains, count-append,
  Bool-cases, Option-cases, ◌==◌, if◌then◌else◌, arith,
}
use dev_q.Circuit.{
  Circuit, Instruction, MidCircuit, gate, measure, reset, conditional, guarded_qubits, first_in,
  find_hazard, find_mid_circuit_measurement, has_mid_circuit_measurement,
}

-- The qubits of an operation that the scan compares with those measured so far.
abbrev pub seen_on : {F : Type 0} → Instruction F → List ℕ
seen_on (gate g) = g.qubits
seen_on (measure q c) = []
seen_on (reset q) = q ∷ []
seen_on (conditional clbits value body) = guarded_qubits body

-- A qubit is measured, and the scan sees it in a later operation of the stream.
pub record IsSeenReuse {F : Type 0} (is : List (Instruction F)) : Type 0 where
  pub qubit : ℕ
  pub clbit : ℕ
  pub first : ℕ
  pub later : ℕ
  pub operation : Instruction F
  pub ordered : first < later
  pub measured : get_elem? is first ≡ some (measure qubit clbit)
  pub found : get_elem? is later ≡ some operation
  pub touched : contains qubit (seen_on operation) ≡ true

-- An operation of the stream acts on a qubit of the list.
pub record IsUse {F : Type 0} (measured : List ℕ) (is : List (Instruction F)) : Type 0 where
  pub qubit : ℕ
  pub place : ℕ
  pub operation : Instruction F
  pub known : contains qubit measured ≡ true
  pub found : get_elem? is place ≡ some operation
  pub touched : contains qubit (seen_on operation) ≡ true

pub contains-add_self : (q : ℕ) (s : List ℕ) → contains q (add q s) ≡ true
unfolding add
contains-add_self q s = elim (Bool-cases (contains q s)) [
  | inl inside ↦ rw inside inside
  | inr outside ↦
      rw outside
        (unfold count in count-contains q (s ++ q ∷ []) (ground (arith, count-append q s (q ∷ []))))
]

pub contains-add : (p q : ℕ) (s : List ℕ) → contains p s ≡ true → contains p (add q s) ≡ true
unfolding add
contains-add p q s h = elim (Bool-cases (contains q s)) [
  | inl inside ↦ rw inside h
  | inr outside ↦ rw outside (
      count-contains p (s ++ q ∷ [])
        (omega (arith, contains-count p s h, count-append p s (q ∷ []))))
]

contains-add_cases :
    (p q : ℕ) (s : List ℕ) → contains p (add q s) ≡ true → (p ≡ q) ⊎ (contains p s ≡ true)
unfolding add
contains-add_cases p q s h = elim (Bool-cases (contains q s)) [
  | inl inside ↦ inr (rw inside at h)
  | inr outside ↦ elim (Bool-cases (contains p s)) [
    | inl kept ↦ inr kept
    | inr new ↦ inl (
        unfold count in
        ground (
          arith,
          contains-count p (s ++ q ∷ []),
          rw outside at h,
          count-append p s (q ∷ []),
          count-contains p s,
          new,
        ))
  ]
]

first_in-some :
    (measured qs : List ℕ) (q : ℕ)
    → first_in measured qs ≡ some q
    → (contains q measured ≡ true) × (contains q qs ≡ true)
unfolding first_in contains
first_in-some measured [] q h = absurd (cc)
first_in-some measured (x ∷ qs) q h = ground (arith, first_in-some measured qs q)

pub first_in-none :
    (measured qs : List ℕ) (q : ℕ)
    → first_in measured qs ≡ none
    → contains q qs ≡ true
    → contains q measured ≡ false
unfolding first_in contains
first_in-none measured [] q h m = absurd (cc)
first_in-none measured (x ∷ qs) q h m = ground (arith, first_in-none measured qs q)

module _ {F : Type 0} where
  IsUse-cons :
      (measured : List ℕ) (i : Instruction F) (is : List (Instruction F))
      → IsUse measured is ⊎ IsSeenReuse is
      → IsUse measured (i ∷ is) ⊎ IsSeenReuse (i ∷ is)
  IsUse-cons measured i is (inl u) = inl (record {
    qubit = u.qubit;
    place = suc u.place;
    operation = u.operation;
    known = u.known;
    found = u.found;
    touched = u.touched;
  })
  IsUse-cons measured i is (inr r) = inr (record {
    qubit = r.qubit;
    clbit = r.clbit;
    first = suc r.first;
    later = suc r.later;
    operation = r.operation;
    ordered = omega (arith, r.ordered);
    measured = r.measured;
    found = r.found;
    touched = r.touched;
  })

  -- A use of a qubit that the measurement in front added, or of one that was there before.
  IsUse-measure :
      (measured : List ℕ) (q c : ℕ) (is : List (Instruction F))
      → IsUse (add q measured) is ⊎ IsSeenReuse is
      → IsUse measured (measure q c ∷ is) ⊎ IsSeenReuse (measure q c ∷ is)
  IsUse-measure measured q c is (inr r) = IsUse-cons measured (measure q c) is (inr r)
  IsUse-measure measured q c is (inl u) = elim (contains-add_cases u.qubit q measured u.known) [
    | inr old ↦ inl (record {
      qubit = u.qubit;
      place = suc u.place;
      operation = u.operation;
      known = old;
      found = u.found;
      touched = u.touched;
    })
    | inl same ↦ inr (record {
      qubit = u.qubit;
      clbit = c;
      first = 0;
      later = suc u.place;
      operation = u.operation;
      ordered = omega arith;
      measured = rw same refl;
      found = u.found;
      touched = u.touched;
    })
  ]

  pub find_hazard-IsUse :
      (measured : List ℕ) (is : List (Instruction F)) (h : MidCircuit)
      → find_hazard measured is ≡ some h
      → IsUse measured is ⊎ IsSeenReuse is
  unfolding find_hazard contains
  find_hazard-IsUse measured [] h e = absurd (cc)
  find_hazard-IsUse measured (measure q c ∷ is) h e =
      IsUse-measure measured q c is (find_hazard-IsUse (add q measured) is h e)
  find_hazard-IsUse measured (gate g ∷ is) h e = elim (Option-cases (first_in measured g.qubits)) [
    | inl none_here ↦
        IsUse-cons measured (gate g) is
          (find_hazard-IsUse measured is h (rw (none_here, find_hazard) at e))
    | inr (q, here) ↦
        let (known, touched) = first_in-some measured g.qubits q here in
        inl (record {
          qubit = q;
          place = 0;
          operation = gate g;
          known = known;
          found = refl;
          touched = touched;
        })
  ]
  find_hazard-IsUse measured (conditional clbits value body ∷ is) h e =
      elim (Option-cases (first_in measured (guarded_qubits body))) [
        | inl none_here ↦
            IsUse-cons measured (conditional clbits value body) is
              (find_hazard-IsUse measured is h (rw (none_here, find_hazard) at e))
        | inr (q, here) ↦
            let (known, touched) = first_in-some measured (guarded_qubits body) q here in
            inl (record {
              qubit = q;
              place = 0;
              operation = conditional clbits value body;
              known = known;
              found = refl;
              touched = touched;
            })
      ]
  find_hazard-IsUse measured (reset q ∷ is) h e = elim (Bool-cases (contains q measured)) [
    | inr out ↦
        IsUse-cons measured (reset q) is
          (find_hazard-IsUse measured is h (rw (out, find_hazard) at e))
    | inl known ↦ inl (record {
      qubit = q;
      place = 0;
      operation = reset q;
      known = known;
      found = refl;
      touched = ground arith;
    })
  ]
