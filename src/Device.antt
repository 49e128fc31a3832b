-- ===== src/Device.antt =====
-- hardware/device.py: the calibration data of a device and its session identity, with the two
-- capability questions that the kernel asks of its provider. `neighbors` is the adjacency of the
-- networkx graph that hardware/topology_graph.py builds from the coupling map.
use dev_q.Prelude.{
  ℕ, String, Bool, ◌&&◌, List, [], ◌∷◌, Option, none, some, map, leb, ◌==◌, if◌then◌else◌,
}
use dev_q.Errors.{value_error, Result, ok, raise}
use dev_q.Numeric.{Float}
use dev_q.Circuit.{Circuit}

abbrev pub Edge : Type 0
Edge = ℕ × ℕ

pub record Device (F : Type 0) : Type 0 where
  pub kind : Option String
  pub num_qubits : ℕ
  pub neighbors : ℕ → List ℕ
  pub error_map : List (ℕ × F)
  pub edge_error_map : List (Edge × F)
  pub gate_error_map : List (ℕ × F)
  pub t2_map : List (ℕ × F)
  pub gate_1q_duration : Option F
  pub gate_2q_duration : Option F
  pub index : Option ℕ
  pub name : Option String
  pub supports_dynamic : Circuit F → Bool
  pub supports_mid_circuit_measurement : Circuit F → Bool

-- `tuple(sorted((u, v)))`
sort_edge : ℕ → ℕ → Edge
sort_edge u v = if leb u v then (u, v) else (v, u)

edge_eq : Edge → Edge → Bool
edge_eq (a, b) (c, d) = a == c && b == d

-- `d.get(key, default)`
get_qubit {ℓ} : {V : Type ℓ} → List (ℕ × V) → ℕ → V → V
get_qubit [] q default = default
get_qubit ((k, v) ∷ rest) q default = if k == q then v else get_qubit rest q default

get_edge {ℓ} : {V : Type ℓ} → List (Edge × V) → Edge → V → V
unfolding edge_eq
get_edge [] e default = default
get_edge ((k, v) ∷ rest) e default = if edge_eq k e then v else get_edge rest e default

-- `m[key] = v` of a dict: an equal key keeps its place and takes the new value.
put_edge {ℓ} : {V : Type ℓ} → Edge → V → List (Edge × V) → List (Edge × V)
unfolding edge_eq
put_edge e v [] = (e, v) ∷ []
put_edge e v ((k, w) ∷ rest) =
    let others = put_edge e v rest in if edge_eq k e then (k, v) ∷ rest else (k, w) ∷ others

-- The comprehension of `__init__` that sorts the ends of each edge.
unfoldable pub sort_edges {ℓ} : {V : Type ℓ} → List (Edge × V) → List (Edge × V) → List (Edge × V)
unfolding sort_edge put_edge
sort_edges done [] = done
sort_edges done (((u, v), err) ∷ rest) = sort_edges (put_edge (sort_edge u v) err done) rest

module _ {F : Type 0} where
  -- `attach`: a second call raises RuntimeError, given here as `none`.
  unfoldable pub attach : Device F → ℕ → Option String → Option (Device F)
  attach d index name = elim d.index [
    | some _ ↦ none
    | none ↦ some (record d { index = some index; name = name })
  ]

  unfoldable pub set_kind : Device F → Option String → Device F
  set_kind d kind = record d { kind = kind }

  unfoldable pub edges : Device F → List Edge
  edges d = map (λ e. e.0) d.edge_error_map

module _ {F : Type 0} ⦃fl : Float F⦄ where
  unfoldable pub qubit_error : Device F → ℕ → F
  unfolding get_qubit
  qubit_error d q = get_qubit d.error_map q (fl.decimal 1 2)

  unfoldable pub edge_error : Device F → ℕ → ℕ → F
  unfolding get_edge sort_edge
  edge_error d u v = get_edge d.edge_error_map (sort_edge u v) (fl.decimal 5 2)

  unfoldable pub gate_error : Device F → ℕ → F
  unfolding get_qubit
  gate_error d q = get_qubit d.gate_error_map q (fl.decimal 5 4)

  unfoldable pub t2 : Device F → ℕ → F
  unfolding get_qubit
  t2 d q = get_qubit d.t2_map q (fl.decimal 100 0)

  or_default : Option F → F → F
  or_default none default = default
  or_default (some x) default = x

  unfoldable pub gate_duration : Device F → ℕ → Result F
  unfolding or_default
  gate_duration d arity =
      if arity == 1
      then ok (or_default d.gate_1q_duration (fl.decimal 40 0))
      else if arity == 2
      then ok (or_default d.gate_2q_duration (fl.decimal 400 0))
      else raise value_error
