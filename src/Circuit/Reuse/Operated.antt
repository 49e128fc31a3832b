-- ===== src/Circuit/Reuse/Operated.antt =====
-- What circuits/circuit_rep.py calls a mid-circuit measurement, of operations guarded or not.
use dev_q.Prelude.{
  ℕ, zero, suc, ◌<◌, ◌≡◌, refl, subst, true, List, [], ◌∷◌, some, get_elem?, contains, All, arith,
}
use dev_q.Circuit.{Instruction, gate, measure, reset, conditional, guarded_qubits}
use dev_q.Circuit.Reuse.{seen_on, IsSeenReuse}

module _ {F : Type 0} where
  abbrev pub measured_by : Instruction F → List ℕ
  measured_by (measure q c) = q ∷ []
  measured_by (conditional clbits value body) = measured_by body
  measured_by (gate g) = []
  measured_by (reset q) = []

  -- The qubits of a gate or a reset, under any number of guards.
  abbrev pub operated_by : Instruction F → List ℕ
  operated_by (gate g) = g.qubits
  operated_by (reset q) = q ∷ []
  operated_by (conditional clbits value body) = operated_by body
  operated_by (measure q c) = []

  -- "a single gate op dict of the same shape add_gate produces"
  abbrev pub GuardsGate : Instruction F → Type 0
  GuardsGate (conditional clbits value (gate g)) = Unit {0}
  GuardsGate (conditional clbits value (measure q c)) = ⊥
  GuardsGate (conditional clbits value (reset q)) = ⊥
  GuardsGate (conditional clbits value (conditional l v b)) = ⊥
  GuardsGate (gate g) = Unit {0}
  GuardsGate (measure q c) = Unit {0}
  GuardsGate (reset q) = Unit {0}

-- An operation measures a qubit, and a later operation of the stream acts on it.
pub record IsReuse {F : Type 0} (is : List (Instruction F)) : Type 0 where
  pub qubit : ℕ
  pub first : ℕ
  pub later : ℕ
  pub measurement : Instruction F
  pub operation : Instruction F
  pub ordered : first < later
  pub found_first : get_elem? is first ≡ some measurement
  pub found_later : get_elem? is later ≡ some operation
  pub measures : contains qubit (measured_by measurement) ≡ true
  pub operates : contains qubit (operated_by operation) ≡ true

module _ {F : Type 0} where
  -- What the scan sees of an operation is what the operation acts on.
  seen_on-operated_by :
      (q : ℕ) (i : Instruction F)
      → contains q (seen_on i) ≡ true
      → contains q (operated_by i) ≡ true
  unfolding guarded_qubits contains
  seen_on-operated_by q (gate g) h = h
  seen_on-operated_by q (reset p) h = h
  seen_on-operated_by q (measure p c) h = h
  seen_on-operated_by q (conditional clbits value (gate g)) h = h
  seen_on-operated_by q (conditional clbits value (measure p c)) h = absurd (cc)
  seen_on-operated_by q (conditional clbits value (reset p)) h = absurd (cc)
  seen_on-operated_by q (conditional clbits value (conditional l v b)) h = absurd (cc)

  operated_by-seen_on :
      (q : ℕ) (i : Instruction F)
      → GuardsGate i
      → contains q (operated_by i) ≡ true
      → contains q (seen_on i) ≡ true
  unfolding guarded_qubits
  operated_by-seen_on q (gate g) k h = h
  operated_by-seen_on q (reset p) k h = h
  operated_by-seen_on q (measure p c) k h = h
  operated_by-seen_on q (conditional clbits value (gate g)) k h = h
  operated_by-seen_on q (conditional clbits value (measure p c)) k h = absurd k
  operated_by-seen_on q (conditional clbits value (reset p)) k h = absurd k
  operated_by-seen_on q (conditional clbits value (conditional l v b)) k h = absurd k

  measured_by-measure :
      (q : ℕ) (i : Instruction F)
      → GuardsGate i
      → contains q (measured_by i) ≡ true
      → (c : ℕ) × (i ≡ measure q c)
  unfolding contains
  measured_by-measure q (measure p c) k h =
      let same : p ≡ q = ground (arith, h) in (c, rw same refl)
  measured_by-measure q (gate g) k h = absurd (cc)
  measured_by-measure q (reset p) k h = absurd (cc)
  measured_by-measure q (conditional clbits value (gate g)) k h = absurd (cc)
  measured_by-measure q (conditional clbits value (measure p c)) k h = absurd k
  measured_by-measure q (conditional clbits value (reset p)) k h = absurd k
  measured_by-measure q (conditional clbits value (conditional l v b)) k h = absurd k

  element-GuardsGate :
      (is : List (Instruction F)) (n : ℕ) (i : Instruction F)
      → All GuardsGate is
      → get_elem? is n ≡ some i
      → GuardsGate i
  element-GuardsGate [] n i h e = absurd (cc)
  element-GuardsGate (x ∷ is) zero i h e = let same : x ≡ i = cc in subst GuardsGate same h.0
  element-GuardsGate (x ∷ is) (suc n) i h e = element-GuardsGate is n i h.1 e

  pub IsSeenReuse-IsReuse : (is : List (Instruction F)) → IsSeenReuse is → IsReuse is
  unfolding contains
  IsSeenReuse-IsReuse is r = record {
    qubit = r.qubit;
    first = r.first;
    later = r.later;
    measurement = measure r.qubit r.clbit;
    operation = r.operation;
    ordered = r.ordered;
    found_first = r.measured;
    found_later = r.found;
    measures = ground arith;
    operates = seen_on-operated_by r.qubit r.operation r.touched;
  }

  pub IsReuse-IsSeenReuse :
      (is : List (Instruction F)) → All GuardsGate is → IsReuse is → IsSeenReuse is
  IsReuse-IsSeenReuse is guarded r =
      let (c, same) =
        measured_by-measure r.qubit r.measurement
          (element-GuardsGate is r.first r.measurement guarded r.found_first) r.measures in
      record {
        qubit = r.qubit;
        clbit = c;
        first = r.first;
        later = r.later;
        operation = r.operation;
        ordered = r.ordered;
        measured = subst (λ i. get_elem? is r.first ≡ some i) same r.found_first;
        found = r.found_later;
        touched =
            operated_by-seen_on r.qubit r.operation
              (element-GuardsGate is r.later r.operation guarded r.found_later) r.operates;
      }
