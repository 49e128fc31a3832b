-- ===== src/Circuit/Reuse/Exact.antt =====
-- The scan of circuits/circuit_rep.py for mid-circuit measurement misses none.
use dev_q.Prelude.{
  ℕ, zero, suc, ◌<◌, ◌≡◌, ◌≢◌, refl, true, false, List, [], ◌∷◌, none, some, inl, inr, get_elem?,
  contains, add, All, Bool-cases, Option-cases, arith,
}
use dev_q.Circuit.{
  Circuit, Instruction, gate, measure, reset, conditional, guarded_qubits, first_in, find_hazard,
  find_mid_circuit_measurement, has_mid_circuit_measurement,
}
use dev_q.Circuit.Reuse.Operated.{GuardsGate, IsReuse, IsSeenReuse-IsReuse, IsReuse-IsSeenReuse}
use dev_q.Circuit.Reuse.{
  seen_on, IsSeenReuse, IsUse, contains-add, contains-add_self, first_in-none, find_hazard-IsUse,
}

module _ {F : Type 0} where
  -- One step of the scan past an operation that uses no measured qubit.
  pass :
      (measured : List ℕ) (x : Instruction F) (is : List (Instruction F)) (place q : ℕ)
      (i : Instruction F)
      → get_elem? (x ∷ is) place ≡ some i
      → contains q (seen_on i) ≡ true
      → contains q measured ≡ true
      → (contains q (seen_on x) ≡ true → contains q measured ≡ false)
      → ((p : ℕ) → get_elem? is p ≡ some i → ⊥)
      → ⊥
  pass measured x is zero q i found touched known unused rest =
      let same : x ≡ i = cc in
      let stray : contains q measured ≡ false = unused (rw same touched) in cc
  pass measured x is (suc place) q i found touched known unused rest = rest place found

  -- A use of a measured qubit does not pass the scan.
  find_hazard-ne-none :
      (measured : List ℕ) (is : List (Instruction F)) (place q : ℕ) (i : Instruction F)
      → contains q measured ≡ true
      → get_elem? is place ≡ some i
      → contains q (seen_on i) ≡ true
      → find_hazard measured is ≢ none
  unfolding find_hazard
  find_hazard-ne-none measured [] place q i known found touched e = cc
  find_hazard-ne-none measured (measure p c ∷ is) place q i known found touched e =
      pass measured (measure p c) is place q i found touched known
        (λ t. unfold contains in absurd (cc))
        (λ n f.
          find_hazard-ne-none (add p measured) is n q i (contains-add q p measured known) f touched
            e)
  find_hazard-ne-none measured (gate g ∷ is) place q i known found touched e =
      elim (Option-cases (first_in measured g.qubits)) [
        | inr (x, here) ↦ cc (rw (here, find_hazard) at e)
        | inl none_here ↦
            pass measured (gate g) is place q i found touched known
              (first_in-none measured g.qubits q none_here)
              (λ n f.
                find_hazard-ne-none measured is n q i known f touched
                  (rw (none_here, find_hazard) at e))
      ]
  find_hazard-ne-none measured (conditional clbits value body ∷ is) place q i known found touched
        e =
      elim (Option-cases (first_in measured (guarded_qubits body))) [
        | inr (x, here) ↦ cc (rw (here, find_hazard) at e)
        | inl none_here ↦
            pass measured (conditional clbits value body) is place q i found touched known
              (first_in-none measured (guarded_qubits body) q none_here)
              (λ n f.
                find_hazard-ne-none measured is n q i known f touched
                  (rw (none_here, find_hazard) at e))
      ]
  find_hazard-ne-none measured (reset p ∷ is) place q i known found touched e =
      elim (Bool-cases (contains p measured)) [
        | inl here ↦ cc (rw (here, find_hazard) at e)
        | inr out ↦
            pass measured (reset p) is place q i found touched known
              (λ t. unfold contains in ground (arith, out, t))
              (λ n f.
                find_hazard-ne-none measured is n q i known f touched (rw (out, find_hazard) at e))
      ]

  -- Nor does a reuse that lies wholly in the rest of the stream.
  find_hazard-reuse :
      (measured : List ℕ) (is : List (Instruction F)) (q c first later : ℕ) (i : Instruction F)
      → first < later
      → get_elem? is first ≡ some (measure q c)
      → get_elem? is later ≡ some i
      → contains q (seen_on i) ≡ true
      → find_hazard measured is ≢ none
  unfolding find_hazard
  find_hazard-reuse measured [] q c first later i o m f t e = cc
  find_hazard-reuse measured (x ∷ is) q c first zero i o m f t e = absurd (omega (arith, o))
  find_hazard-reuse measured (gate g ∷ is) q c zero (suc later) i o m f t e = cc
  find_hazard-reuse measured (conditional l v b ∷ is) q c zero (suc later) i o m f t e = cc
  find_hazard-reuse measured (reset p ∷ is) q c zero (suc later) i o m f t e = cc
  find_hazard-reuse measured (measure p d ∷ is) q c zero (suc later) i o m f t e =
      let same : p ≡ q = cc in
      find_hazard-ne-none (add p measured) is later q i (rw same (contains-add_self q measured)) f t
        e
  find_hazard-reuse measured (measure p d ∷ is) q c (suc first) (suc later) i o m f t e =
      find_hazard-reuse (add p measured) is q c first later i (omega (arith, o)) m f t e
  find_hazard-reuse measured (gate g ∷ is) q c (suc first) (suc later) i o m f t e =
      elim (Option-cases (first_in measured g.qubits)) [
        | inr (x, here) ↦ cc (rw (here, find_hazard) at e)
        | inl none_here ↦
            find_hazard-reuse measured is q c first later i (omega (arith, o)) m f t
              (rw (none_here, find_hazard) at e)
      ]
  find_hazard-reuse measured (conditional l v b ∷ is) q c (suc first) (suc later) i o m f t e =
      elim (Option-cases (first_in measured (guarded_qubits b))) [
        | inr (x, here) ↦ cc (rw (here, find_hazard) at e)
        | inl none_here ↦
            find_hazard-reuse measured is q c first later i (omega (arith, o)) m f t
              (rw (none_here, find_hazard) at e)
      ]
  find_hazard-reuse measured (reset p ∷ is) q c (suc first) (suc later) i o m f t e =
      elim (Bool-cases (contains p measured)) [
        | inl here ↦ cc (rw (here, find_hazard) at e)
        | inr out ↦
            find_hazard-reuse measured is q c first later i (omega (arith, o)) m f t
              (rw (out, find_hazard) at e)
      ]

  no_use : (is : List (Instruction F)) → IsUse [] is → ⊥
  unfolding contains
  no_use is u = absurd (cc (u.known))

-- The answer of the scan is about what it sees.
scan-IsSeenReuse :
    {F : Type 0} (c : Circuit F)
    → (has_mid_circuit_measurement c ≡ true → IsSeenReuse c.instructions)
      × (IsSeenReuse c.instructions → has_mid_circuit_measurement c ≡ true)
unfolding has_mid_circuit_measurement find_mid_circuit_measurement
scan-IsSeenReuse c = elim (Option-cases (find_hazard [] c.instructions)) [
  | inl clean ↦ (
    λ h. absurd (cc (rw (clean, has_mid_circuit_measurement) at h)),
    λ r. absurd (
        find_hazard-reuse [] c.instructions r.qubit r.clbit r.first r.later r.operation r.ordered
          r.measured r.found r.touched clean),
  )
  | inr (h, found) ↦ (
    λ _. elim (find_hazard-IsUse [] c.instructions h found) [
      | inl u ↦ absurd (no_use c.instructions u)
      | inr r ↦ r
    ],
    λ r. rw (found, has_mid_circuit_measurement) refl,
  )
]

-- Where every guarded operation is a gate, as add_conditional asks, a circuit has a mid-circuit
-- measurement exactly where an operation of its stream measures a qubit and a later gate or reset
-- acts on it, guarded or not.
pub has_mid_circuit_measurement-IsReuse :
    {F : Type 0} (c : Circuit F)
    → All GuardsGate c.instructions
    → (has_mid_circuit_measurement c ≡ true → IsReuse c.instructions)
      × (IsReuse c.instructions → has_mid_circuit_measurement c ≡ true)
has_mid_circuit_measurement-IsReuse c guarded =
    let (seen, reported) = scan-IsSeenReuse c in
    (
      λ h. IsSeenReuse-IsReuse c.instructions (seen h),
      λ r. reported (IsReuse-IsSeenReuse c.instructions guarded r),
    )
