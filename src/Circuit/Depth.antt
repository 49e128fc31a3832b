-- ===== src/Circuit/Depth.antt =====
-- Bounds on the depth that circuits/circuit_rep.py computes.
pub mod Levels
use dev_q.Prelude.{
  ℕ, zero, suc, ◌+◌, ◌≤◌, ◌<◌, ◌≡◌, refl, sym, ap, subst, ==_iff, Option-cases, Bool, true, false,
  List, [], ◌∷◌, Option, none, some, inl, inr, get_elem?, set, replicate, length, contains, leb,
  All, All-map, Bool-cases, ◌==◌, if◌then◌else◌, arith,
}
use dev_q.Errors.{Result, ok, ◌>>=◌, >>=-eq-ok, ok-injective, or_raise, index_error}
use dev_q.Circuit.{
  Circuit, Gate, gates_of, max_from, max_of, read_each, write_each, place_gate, place_gates,
  get_depth,
}
use dev_q.Circuit.Depth.Levels.{
  max_of-All, max_of-le, get_elem?-All, get_elem?-write_each, All-write_each, All-read_each,
  read_each-le, replicate-All, get_elem?-replicate,
}

-- The number of gates that act on the qubit.
unfoldable pub gates_on : {F : Type 0} → ℕ → List (Gate F) → ℕ
unfolding contains
gates_on q [] = 0
gates_on q (g ∷ gs) = (if contains q g.qubits then 1 else 0) + gates_on q gs

module _ {F : Type 0} where
  -- One gate raises the bound of the levels by one, and the level of each of its qubits.
  place_gate-lem :
      (b : ℕ) (depths depths' : List ℕ) (g : Gate F)
      → All (λ d. d ≤ b) depths
      → place_gate depths g ≡ ok depths'
      → All (λ d. d ≤ suc b) depths'
        × ((q n : ℕ)
            → get_elem? depths q ≡ some n
            → (m : ℕ) × (get_elem? depths' q ≡ some m)
              × ((if contains q g.qubits then 1 else 0) + n ≤ m))
  unfolding place_gate
  place_gate-lem b depths depths' g all e =
      let (levels, read, e1) = >>=-eq-ok (read_each depths g.qubits) _ e in
      let (top, most, e2) = >>=-eq-ok (max_of levels) _ e1 in
      let le : top ≤ b =
        max_of-le levels top b most (All-read_each (λ d. d ≤ b) depths g.qubits levels all read) in
      subst
        (λ (ds : List ℕ).
          All (λ d. d ≤ suc b) ds
          × ((q n : ℕ)
              → get_elem? depths q ≡ some n
              → (m : ℕ) × (get_elem? ds q ≡ some m)
                × ((if contains q g.qubits then 1 else 0) + n ≤ m)))
        (ok-injective e2)
        (
          All-write_each (suc b) (top + 1) g.qubits depths (omega (arith, le))
              (All-map (λ d. d ≤ b) (λ d. d ≤ suc b) depths (λ d h. omega (arith, h)) all),
          λ q n f. (
            _,
            get_elem?-write_each (top + 1) g.qubits depths q n f,
            elim (Bool-cases (contains q g.qubits)) [
              | inl on ↦
                  let low : n ≤ top =
                    read_each-le top depths g.qubits levels q n read (max_of-All levels top most) on
                      f in
                  rw on (omega (arith, low))
              | inr off ↦ rw off (omega arith)
            ],
          ),
        )

  place_gates-lem :
      (b : ℕ) (depths depths' : List ℕ) (gs : List (Gate F))
      → All (λ d. d ≤ b) depths
      → place_gates depths gs ≡ ok depths'
      → All (λ d. d ≤ b + length gs) depths'
        × ((q n : ℕ)
            → get_elem? depths q ≡ some n
            → (m : ℕ) × (get_elem? depths' q ≡ some m) × (gates_on q gs + n ≤ m))
  unfolding place_gates gates_on
  place_gates-lem b depths depths' [] all e =
      subst
        (λ (ds : List ℕ).
          All (λ d. d ≤ b + 0) ds
          × ((q n : ℕ)
              → get_elem? depths q ≡ some n
              → (m : ℕ) × (get_elem? ds q ≡ some m) × (0 + n ≤ m)))
        (ok-injective e)
        (
          All-map (λ d. d ≤ b) (λ d. d ≤ b + 0) depths (λ d h. omega (arith, h)) all,
          λ q n f. (n, f, omega arith),
        )
  place_gates-lem b depths depths' (g ∷ gs) all e =
      let (mid, placed, e1) = >>=-eq-ok (place_gate depths g) _ e in
      let (bound, raised) = place_gate-lem b depths mid g all placed in
      let (above, rest) = place_gates-lem (suc b) mid depths' gs bound e1 in
      (
        All-map (λ d. d ≤ suc b + length gs) (λ d. d ≤ b + length (g ∷ gs)) depths'
            (λ d h. omega (arith, h)) above,
        λ q n f.
            let (m, at_m, le) = raised q n f in
            let (k, at_k, le2) = rest q m at_m in (k, at_k, omega (arith, le, le2)),
      )

-- The depth of a circuit, where `get_depth` returns it, is at most the number of its gates, and
-- at least the number of the gates on any one of its qubits.
pub get_depth-bounds :
    {F : Type 0} (c : Circuit F) (d : ℕ)
    → get_depth c ≡ ok d
    → (d ≤ length (gates_of c.instructions))
      × ((q : ℕ) → q < c.num_qubits → gates_on q (gates_of c.instructions) ≤ d)
unfolding get_depth
get_depth-bounds {F} c d e = go (gates_of c.instructions) e
  where
    go :
        (gs : List (Gate F))
        → (elim gs [
          | [] ↦ ok 0
          | g ∷ rest ↦ do depths ← place_gates (replicate c.num_qubits 0) (g ∷ rest); max_of depths
        ])
          ≡ ok d
        → (d ≤ length gs) × ((q : ℕ) → q < c.num_qubits → gates_on q gs ≤ d)
    go [] e =
        subst (λ (n : ℕ). (n ≤ 0) × ((q : ℕ) → q < c.num_qubits → gates_on {F = F} q [] ≤ n))
          (ok-injective e) (omega arith, λ q h. unfold gates_on in omega arith)
    go (g ∷ rest) e =
        let (depths, placed, e1) =
          >>=-eq-ok (place_gates (replicate c.num_qubits 0) (g ∷ rest)) _ e in
        let (above, raised) =
          place_gates-lem 0 (replicate c.num_qubits 0) depths (g ∷ rest)
            (replicate-All c.num_qubits 0) placed in
        (
          omega (arith, max_of-le depths d (0 + length (g ∷ rest)) e1 above),
          λ q h.
              let (m, at_m, le) = raised q 0 (get_elem?-replicate c.num_qubits q h) in
              let below : m ≤ d =
                get_elem?-All (λ x. x ≤ d) depths q m (max_of-All depths d e1) at_m in
              omega (arith, le, below),
        )
