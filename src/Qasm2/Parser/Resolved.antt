-- ===== src/Qasm2/Parser/Resolved.antt =====
-- frontends/qasm2/parser.py: the parser's invariant, and what a step of the parser leaves. Registers
-- are laid out in the index space, and operations act on declared qubits and bits.
pub mod Pieces
pub mod Inlined
pub mod Called
pub mod Gates
pub mod Declared
pub mod Stated
pub mod Whole
use dev_q.Prelude.{
  ℕ, zero, suc, ◌+◌, ◌≤◌, ◌<◌, String, Bool, true, false, List, [], ◌∷◌, ◌++◌, Option, none, some,
  ◌≡◌, refl, length, All, All-map, All-append, arith,
}
use dev_q.Circuit.{new_circuit, Circuit, Instruction, Gate, gate, measure, reset, conditional}
use dev_q.Qasm2.Outcome.{Outcome, ok, Method, proceed, or_crash, Fault, attribute_error}
use dev_q.Qasm2.Tokens.{Cursor, rest_of}
use dev_q.Qasm2.Ends.{Ends, returned, Ends-proceed, Ends-weaken}
use dev_q.Qasm2.Ends.Cursor.{left, Consumed}
use dev_q.Qasm2.Parser.{Parser, Registers, on_cursor, change_circuit, circuit_or_new}
use dev_q.Qasm2.Parser.Layout.{IsLaidOut, Below, Below-weaken}

module _ {F : Type 0} where
  -- The operation acts on the first `nq` qubits and the first `nc` bits.
  abbrev pub Acts : ℕ → ℕ → Instruction F → Type 0
  Acts nq nc (gate g) = Below nq g.qubits
  Acts nq nc (measure q c) = (q < nq) × (c < nc)
  Acts nq nc (reset q) = q < nq
  Acts nq nc (conditional clbits value body) = Below nc clbits × Acts nq nc body

  pub Acts-weaken :
      (nq nc nq' nc' : ℕ) (op : Instruction F)
      → nq ≤ nq'
      → nc ≤ nc'
      → Acts nq nc op
      → Acts nq' nc' op
  Acts-weaken nq nc nq' nc' (gate g) le le' h = Below-weaken nq nq' g.qubits le h
  Acts-weaken nq nc nq' nc' (measure q c) le le' h = omega arith
  Acts-weaken nq nc nq' nc' (reset q) le le' h = omega arith
  Acts-weaken nq nc nq' nc' (conditional clbits value body) le le' h =
      (Below-weaken nc nc' clbits le' h.0, Acts-weaken nq nc nq' nc' body le le' h.1)

  pub record IsCircuitWithin (nq nc : ℕ) (c : Circuit F) : Type 0 where
    pub acts : All (Acts nq nc) c.instructions
    pub qubits_le : c.num_qubits ≤ nq
    pub clbits_le : c.num_clbits ≤ nc
    pub no_cregs : c.cregs ≡ []

  -- The circuit may be missing where nothing is `ready` yet.
  abbrev pub IsReady : Bool → ℕ → ℕ → Option (Circuit F) → Type 0
  IsReady ready nq nc none = ready ≡ false
  IsReady ready nq nc (some c) = IsCircuitWithin nq nc c

  pub record IsResolved (ready : Bool) (p : Parser F) : Type 0 where
    pub qregs_out : IsLaidOut 0 p.qregs p.num_qubits
    pub cregs_out : IsLaidOut 0 p.cregs p.num_clbits
    pub circuit_ready : IsReady ready p.num_qubits p.num_clbits p.circuit

  -- What a step from `p` leaves: the invariant, no fewer qubits and bits, `k` tokens less.
  pub record After {Value : Type 0} (ready : Bool) (p : Parser F) (k : ℕ)
      (Q : Value → Parser F → Type 0) (r : Value × Parser F) : Type 0 where
    pub resolved : IsResolved ready r.1
    pub used : left r.1.cursor + k ≤ left p.cursor
    pub qubits_grow : p.num_qubits ≤ r.1.num_qubits
    pub clbits_grow : p.num_clbits ≤ r.1.num_clbits
    pub holds : Q r.0 r.1

  abbrev pub Any : {Value : Type 0} → Value → Parser F → Type 0
  Any _ _ = Unit {0}

  module _ {Value : Type 0} (o : Outcome (Value × Parser F)) where
    pub After-then :
        {Out : Type 0} (ready ready' : Bool) (p : Parser F) (i j k : ℕ)
        (P : Value → Parser F → Type 0) (Q : Out → Parser F → Type 0)
        (next : Value × Parser F → Outcome (Out × Parser F))
        → Ends (After ready p j P) o
        → ((r : Value × Parser F) → After ready p j P r → Ends (After ready' r.1 i Q) (next r))
        → k ≤ i + j
        → Ends (After ready' p k Q) (proceed o next)
    After-then ready ready' p i j k P Q next h f le = Ends-proceed _ o next h λ r a.
        Ends-weaken _ (next r)
          (λ r' a'. record {
            resolved = a'.resolved;
            used = omega (arith, a.used, a'.used);
            qubits_grow = omega (arith, a.qubits_grow, a'.qubits_grow);
            clbits_grow = omega (arith, a.clbits_grow, a'.clbits_grow);
            holds = a'.holds;
          })
          (f r a)

  -- A step of the cursor, with what it promises of its value.
  pub on_cursor-holds :
      {Value : Type 0} (ready : Bool) (p : Parser F) (k : ℕ) (step : Method Cursor Value)
      (P : Value → Type 0)
      → IsResolved ready p
      → Ends (λ r. P r.0 × Consumed k (left p.cursor) r) (step p.cursor)
      → Ends (After ready p k (λ value q. P value)) (on_cursor step p)
  on_cursor-holds ready p k step P h s = Ends-proceed _ (step p.cursor) _ s λ r q.
      returned _ record {
        resolved = record {
          qregs_out = h.qregs_out;
          cregs_out = h.cregs_out;
          circuit_ready = h.circuit_ready;
        };
        used = q.1;
        qubits_grow = omega arith;
        clbits_grow = omega arith;
        holds = q.0;
      }

  pub on_cursor-After :
      {Value : Type 0} (ready : Bool) (p : Parser F) (k : ℕ) (step : Method Cursor Value)
      → IsResolved ready p
      → Ends (Consumed k (left p.cursor)) (step p.cursor)
      → Ends (After ready p k Any) (on_cursor step p)
  on_cursor-After ready p k step h s =
      on_cursor-holds ready p k step (λ value. Unit {0}) h
        (Ends-weaken _ (step p.cursor) (λ r q. (tt, q)) s)

  -- `next()`, which computes.
  abbrev pub advance : Parser F → Parser F
  advance p = record p { cursor = record p.cursor { tokens = rest_of p.cursor.tokens } }

  pub advance-IsResolved :
      (ready : Bool) (p : Parser F) → IsResolved ready p → IsResolved ready (advance p)
  advance-IsResolved ready p h = record {
    qregs_out = h.qregs_out;
    cregs_out = h.cregs_out;
    circuit_ready = h.circuit_ready;
  }

  pub After-advance :
      {Value : Type 0} (ready : Bool) (p : Parser F) (j k : ℕ) (Q : Value → Parser F → Type 0)
      (o : Outcome (Value × Parser F))
      → left (advance p).cursor + k ≤ left p.cursor + j
      → Ends (After ready (advance p) j Q) o
      → Ends (After ready p k Q) o
  After-advance ready p j k Q o le h =
      Ends-weaken _ o
        (λ r a. record {
          resolved = a.resolved;
          used = omega (arith, a.used);
          qubits_grow = a.qubits_grow;
          clbits_grow = a.clbits_grow;
          holds = a.holds;
        })
        h

  pub stay :
      {Value : Type 0} (ready : Bool) (p : Parser F) (Q : Value → Parser F → Type 0) (value : Value)
      → IsResolved ready p
      → Q value p
      → After ready p 0 Q (value, p)
  stay ready p Q value h q = record {
    resolved = h;
    used = omega arith;
    qubits_grow = omega arith;
    clbits_grow = omega arith;
    holds = q;
  }

  with_circuit :
      (p : Parser F) (c : Circuit F) (ready : Bool)
      → IsResolved ready p
      → IsCircuitWithin p.num_qubits p.num_clbits c
      → After true p 0 Any (tt, record p { circuit = some c })
  with_circuit p c ready h w = record {
    resolved = record { qregs_out = h.qregs_out; cregs_out = h.cregs_out; circuit_ready = w };
    used = omega arith;
    qubits_grow = omega arith;
    clbits_grow = omega arith;
    holds = tt;
  }

  pub circuit_or_crash :
      (nq nc : ℕ) (o : Option (Circuit F)) (fault : Fault)
      → IsReady true nq nc o
      → Ends (IsCircuitWithin nq nc) (or_crash o fault)
  circuit_or_crash nq nc none fault h = cc
  circuit_or_crash nq nc (some c) fault h = returned c h

  pub change_circuit-After :
      (p : Parser F) (change : Circuit F → Circuit F)
      → IsResolved true p
      → ((c : Circuit F)
          → IsCircuitWithin p.num_qubits p.num_clbits c
          → IsCircuitWithin p.num_qubits p.num_clbits (change c))
      → Ends (After true p 0 Any) (change_circuit change p)
  unfolding change_circuit
  change_circuit-After p change h k =
      Ends-proceed _ _ _
        (circuit_or_crash p.num_qubits p.num_clbits p.circuit attribute_error h.circuit_ready)
        λ c w. returned _ (with_circuit p (change c) true h (k c w))

  -- Appending an operation that acts within the space.
  pub emit_op-After :
      (p : Parser F) (op : Instruction F)
      → IsResolved true p
      → Acts p.num_qubits p.num_clbits op
      → Ends
          (After true p 0 Any)
          (change_circuit (λ c. record c { instructions = c.instructions ++ op ∷ [] }) p)
  emit_op-After p op h a = change_circuit-After p _ h λ c w. record {
    acts = All-append _ c.instructions (op ∷ []) w.acts (a, tt);
    qubits_le = w.qubits_le;
    clbits_le = w.clbits_le;
    no_cregs = w.no_cregs;
  }

  circuit_or_new-IsCircuitWithin :
      (ready : Bool) (nq nc : ℕ) (o : Option (Circuit F))
      → IsReady ready nq nc o
      → IsCircuitWithin nq nc (circuit_or_new nq nc o)
  unfolding circuit_or_new new_circuit
  circuit_or_new-IsCircuitWithin ready nq nc none h = record {
    acts = tt;
    qubits_le = omega arith;
    clbits_le = omega arith;
    no_cregs = refl;
  }
  circuit_or_new-IsCircuitWithin ready nq nc (some c) h = h

  IsReady-weaken :
      (ready : Bool) (nq nc : ℕ) (o : Option (Circuit F))
      → IsReady true nq nc o
      → IsReady ready nq nc o
  IsReady-weaken ready nq nc none h = cc
  IsReady-weaken ready nq nc (some c) h = h

  pub After-weaken :
      {Value : Type 0} (ready : Bool) (p : Parser F) (k : ℕ) (Q : Value → Parser F → Type 0)
      (o : Outcome (Value × Parser F))
      → Ends (After true p k Q) o
      → Ends (After ready p k Q) o
  After-weaken ready p k Q o h =
      Ends-weaken _ o
        (λ r a. record {
          resolved = record {
            qregs_out = a.resolved.qregs_out;
            cregs_out = a.resolved.cregs_out;
            circuit_ready =
                IsReady-weaken ready r.1.num_qubits r.1.num_clbits r.1.circuit
                  a.resolved.circuit_ready;
          };
          used = a.used;
          qubits_grow = a.qubits_grow;
          clbits_grow = a.clbits_grow;
          holds = a.holds;
        })
        h

  IsCircuitWithin-grow :
      (nq nc nq' nc' : ℕ) (c : Circuit F)
      → nq ≤ nq'
      → nc ≤ nc'
      → IsCircuitWithin nq nc c
      → IsCircuitWithin nq' nc' c
  IsCircuitWithin-grow nq nc nq' nc' c le le' w = record {
    acts = All-map _ _ c.instructions (λ op a. Acts-weaken nq nc nq' nc' op le le' a) w.acts;
    qubits_le = omega (arith, w.qubits_le);
    clbits_le = omega (arith, w.clbits_le);
    no_cregs = w.no_cregs;
  }

  pub IsReady-grow :
      (ready : Bool) (nq nc nq' nc' : ℕ) (o : Option (Circuit F))
      → nq ≤ nq'
      → nc ≤ nc'
      → IsReady ready nq nc o
      → IsReady ready nq' nc' o
  IsReady-grow ready nq nc nq' nc' none le le' h = h
  IsReady-grow ready nq nc nq' nc' (some c) le le' h = IsCircuitWithin-grow nq nc nq' nc' c le le' h

  -- `_ensure_circuit()`, which computes.
  abbrev pub ensured : Parser F → Parser F
  ensured p = record p { circuit = some (circuit_or_new p.num_qubits p.num_clbits p.circuit) }

  pub ensured-IsResolved :
      (ready : Bool) (p : Parser F) → IsResolved ready p → IsResolved true (ensured p)
  ensured-IsResolved ready p h = record {
    qregs_out = h.qregs_out;
    cregs_out = h.cregs_out;
    circuit_ready =
        circuit_or_new-IsCircuitWithin ready p.num_qubits p.num_clbits p.circuit h.circuit_ready;
  }

  pub After-ensured :
      {Value : Type 0} (p : Parser F) (k : ℕ) (Q : Value → Parser F → Type 0)
      (o : Outcome (Value × Parser F))
      → Ends (After true (ensured p) k Q) o
      → Ends (After true p k Q) o
  After-ensured p k Q o h =
      Ends-weaken _ o
        (λ r a. record {
          resolved = a.resolved;
          used = a.used;
          qubits_grow = a.qubits_grow;
          clbits_grow = a.clbits_grow;
          holds = a.holds;
        })
        h
