-- ===== src/Alloc/NoiseGraph/Sound.antt =====
-- The noise-aware graph allocator keeps the contract of base_allocator.py.
use dev_q.Prelude.{
  ℕ, ◌≤◌, ◌≡◌, ◌≢◌, refl, sym, true, false, ◌&&◌, List, [], ◌∷◌, Option, some, inl, inr, contains,
  count, take, length, leb, ltb, ◌==◌, sorted, length-take, length-sort_by, count-take-le,
  count-sort_by, contains-take, contains-count, count-contains, is_empty, All, All-map, IsDistinct,
  Bool-cases, arith,
}
use dev_q.Numeric.{Float}
use dev_q.Circuit.{Circuit}
use dev_q.Device.{Device, Edge, edges}
use dev_q.Pool.{Pool}
use dev_q.Sweep.{sweep_decision, explain_recorded}
use dev_q.Sweep.Best.{min_row-All}
use dev_q.Alloc.{Limits, BlockWeights, Decision}
use dev_q.Alloc.Filtering.{eligible_qubits, edge_allowed}
use dev_q.Alloc.Graph.{visit_block}
use dev_q.Alloc.Graph.Sound.{IsWithin, visit_block-IsWithin, IsWithin-IsChoice}
use dev_q.Alloc.NoiseGraph.{
  pair_blocks, block_in, enumerate_blocks, candidate_blocks, noise_scoring, reserve_best,
  noise_allocate,
}
use dev_q.Alloc.Placement.{IsSound, IsChoice, place-IsSound}

-- No coupling edge joins a qubit to itself.
abbrev pub HasNoLoop : List Edge → Type 0
HasNoLoop = All (λ e. e.0 ≢ e.1)

-- A block within the set, of the given size.
pub record IsBlock (usable : List ℕ) (required : ℕ) (block : List ℕ) : Type 0 where
  pub size : length block ≡ required
  pub within : IsWithin usable block

pair-IsBlock :
    (usable : List ℕ) (u v : ℕ)
    → u ≢ v
    → contains u usable ≡ true
    → contains v usable ≡ true
    → IsBlock usable 2 (u ∷ v ∷ [])
unfolding count contains
pair-IsBlock usable u v ne hu hv = record {
  size = refl;
  within = record { distinct = λ q. ground arith; members = λ q h. ground arith };
}

module _ {F : Type 0} ⦃fl : Float F⦄ (d : Device F) (edge : Option F) (usable : List ℕ) where
  pair_blocks-IsBlock :
      (es : List Edge)
      → HasNoLoop es
      → All (λ b. IsBlock usable 2 b.0) (pair_blocks d edge usable es)
  unfolding pair_blocks
  pair_blocks-IsBlock [] h = tt
  pair_blocks-IsBlock ((u, v) ∷ es) h =
      let others = pair_blocks-IsBlock es h.1 in
      elim (Bool-cases (contains u usable && contains v usable && edge_allowed d u v edge)) [
        | inr e ↦ rw (e, pair_blocks) others
        | inl e ↦ elim (Bool-cases (ltb u v)) [
          | inl lt ↦
              rw (e, lt, pair_blocks)
                (pair-IsBlock usable u v h.0 (ground arith) (ground arith), others)
          | inr ge ↦
              rw (e, ge, pair_blocks)
                (pair-IsBlock usable v u (λ p. h.0 (sym p)) (ground arith) (ground arith), others)
        ]
      ]

  sorted_visit-IsBlock :
      (required start : ℕ)
      → required ≤ length (visit_block d edge usable required (start ∷ []) [])
      → IsBlock usable required
          (sorted (take required (visit_block d edge usable required (start ∷ []) [])))
  sorted_visit-IsBlock required start enough =
      let visited = visit_block d edge usable required (start ∷ []) [] in
      let w = visit_block-IsWithin d edge usable required (start ∷ []) [] (record {
        distinct = λ q. unfold count in omega arith;
        members = λ q h. absurd (unfold contains in cc);
      }) in
      let same = λ (q : ℕ). count-sort_by (λ n. n) q (take required visited) in
      record {
        size = omega (
          arith,
          length-sort_by (λ n. n) (take required visited),
          length-take required visited enough,
        );
        within = record {
          distinct = λ q. omega (arith, same q, w.distinct q, count-take-le q required visited);
          members = λ q h. w.members q (
              contains-take q required visited (
                count-contains q (take required visited)
                  (omega (arith, same q, contains-count q (sorted (take required visited)) h))));
        };
      }

  enumerate_blocks-IsBlock :
      (required : ℕ) (starts : List ℕ) (seen : List (List ℕ))
      → All (λ b. IsBlock usable required b.0) (enumerate_blocks d edge usable required starts seen)
  unfolding enumerate_blocks
  enumerate_blocks-IsBlock required [] seen = tt
  enumerate_blocks-IsBlock required (start ∷ starts) seen =
      let visited = visit_block d edge usable required (start ∷ []) [] in
      let block = sorted (take required visited) in
      elim (Bool-cases (leb required (length visited))) [
        | inr small ↦ rw (small, enumerate_blocks) (enumerate_blocks-IsBlock required starts seen)
        | inl big ↦ elim (Bool-cases (block_in block seen)) [
          | inl old ↦
              rw (big, old, enumerate_blocks) (enumerate_blocks-IsBlock required starts seen)
          | inr new ↦
              rw (big, new, enumerate_blocks)
                (
                  sorted_visit-IsBlock required start (ground arith),
                  enumerate_blocks-IsBlock required starts (block ∷ seen),
                )
        ]
      ]

module _ {F : Type 0} ⦃fl : Float F⦄ (c : Circuit F) (d : Device F) (pool : Pool)
    (l : Limits F) where
  candidate_blocks-IsChoice :
      HasNoLoop (edges d) → All (λ b. IsChoice c d l pool b.0) (candidate_blocks c d pool l)
  unfolding candidate_blocks
  candidate_blocks-IsChoice loops =
      let usable = eligible_qubits d pool.free_qubits l in
      elim (Bool-cases (c.num_qubits == 2)) [
        | inl two ↦ rw two (
            All-map (λ b. IsBlock usable 2 b.0) (λ b. IsChoice c d l pool b.0) _
              (λ b k. IsWithin-IsChoice c d pool l b.0 (ground (arith, k.size)) k.within)
              (pair_blocks-IsBlock d l.max_edge_error usable (edges d) loops))
        | inr more ↦ rw more (
            All-map (λ b. IsBlock usable c.num_qubits b.0) (λ b. IsChoice c d l pool b.0) _
              (λ b k. IsWithin-IsChoice c d pool l b.0 k.size k.within)
              (enumerate_blocks-IsBlock d l.max_edge_error usable c.num_qubits (sorted usable) []))
      ]

  rows-All :
      (P : List ℕ → Type 0) (w : BlockWeights F) (tagged : Decision F)
      → All (λ b. P b.0) tagged
      → All (λ r. P r.0) (explain_recorded noise_scoring tagged w)
  unfolding explain_recorded noise_scoring
  rows-All P w [] h = tt
  rows-All P w (t ∷ ts) h = (h.0, rows-All P w ts h.1)

  reserve_best-IsSound :
      (w : BlockWeights F) (tagged : Decision F)
      → is_empty tagged ≡ false
      → IsDistinct pool.free_qubits
      → All (λ b. IsChoice c d l pool b.0) tagged
      → IsSound c d l pool
          (reserve_best pool tagged (sweep_decision noise_scoring tagged w)).attempt
          (reserve_best pool tagged (sweep_decision noise_scoring tagged w)).pool
  unfolding reserve_best sweep_decision explain_recorded noise_scoring
  reserve_best-IsSound w [] e dist h = absurd (cc)
  reserve_best-IsSound w (t ∷ ts) e dist h = place-IsSound _ (some (t ∷ ts)) dist (
      min_row-All _ (λ b. IsChoice c d l pool b) _ _ h.0
        (rows-All (λ b. IsChoice c d l pool b) w ts h.1))

-- On a pool without repetitions, and a device none of whose coupling edges is a loop, the
-- noise-aware allocator under any cost weights either reserves exactly a block of the circuit's
-- size, of distinct qubits within the per-qubit thresholds, or raises AllocationError and leaves
-- the pool as it was; it never raises anything else.
pub noise_allocate-IsSound :
    {F : Type 0} ⦃fl : Float F⦄ (w : BlockWeights F) (c : Circuit F) (d : Device F) (pool : Pool)
    (l : Limits F)
    → IsDistinct pool.free_qubits
    → HasNoLoop (edges d)
    → IsSound c d l pool (noise_allocate w c d pool l).attempt (noise_allocate w c d pool l).pool
unfolding noise_allocate
noise_allocate-IsSound w c d pool l dist loops =
    let tagged = candidate_blocks c d pool l in
    elim (Bool-cases (is_empty tagged)) [
      | inl none_found ↦ rw (none_found) refl
      | inr found ↦ rw (found) (
          reserve_best-IsSound c d pool l w tagged found dist
            (candidate_blocks-IsChoice c d pool l loops))
    ]
