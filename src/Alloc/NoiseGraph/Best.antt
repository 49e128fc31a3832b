-- ===== src/Alloc/NoiseGraph/Best.antt =====
-- The noise-aware graph allocator takes the cheapest of its candidate blocks.
use dev_q.Prelude.{
  ℕ, ◌≡◌, refl, sym, ◌∙◌, ap, true, false, List, [], ◌∷◌, some, Option, inl, inr, is_empty,
  Bool-cases, arith,
}
use dev_q.Errors.{Result, ok, raise}
use dev_q.Numeric.{Float, IsOrdered}
use dev_q.Circuit.{Circuit}
use dev_q.Device.{Device}
use dev_q.Pool
use dev_q.Pool.{Pool, Reserve, taken, refused, raises}
use dev_q.Sweep.{sweep_decision, explain_recorded}
use dev_q.Sweep.Best.{IsStrict, IsBest, sweep_decision-IsBest}
use dev_q.Alloc.{
  Limits, BlockWeights, Decision, Mapping, values, enumerate_from, placed, reserve, place,
}
use dev_q.Alloc.Placement.{values-enumerate_from}
use dev_q.Alloc.NoiseGraph.{
  block_less, candidate_blocks, noise_scoring, reserve_best, noise_allocate,
}

block_less_irreflexive : (x : List ℕ) → block_less x x ≡ false
unfolding block_less
block_less_irreflexive [] = refl
block_less_irreflexive (x ∷ xs) = ground (arith, block_less_irreflexive xs)

block_less_transitive :
    (x y z : List ℕ) → block_less x y ≡ true → block_less y z ≡ true → block_less x z ≡ true
unfolding block_less
block_less_transitive x y [] p q = absurd (cc)
block_less_transitive x [] (c ∷ z) p q = absurd (cc)
block_less_transitive [] (b ∷ y) (c ∷ z) p q = refl
block_less_transitive (a ∷ x) (b ∷ y) (c ∷ z) p q = ground (arith, block_less_transitive x y z)

pub block_less-IsStrict : IsStrict block_less
block_less-IsStrict = record {
  irreflexive = block_less_irreflexive;
  transitive = block_less_transitive;
}

module _ {F : Type 0} where
  reserve-placed :
      (pool : Pool) (block : List ℕ) (decision : Option (Decision F)) (r : Reserve) (m : Mapping)
      → (reserve pool block decision r).attempt ≡ placed m
      → values m ≡ block
  unfolding reserve
  reserve-placed pool block decision (taken p) m e = same_values m block (cc e)
    where
      same_values : (n : Mapping) (b : List ℕ) → n ≡ enumerate_from 0 b → values n ≡ b
      same_values n b p = ap values p ∙ values-enumerate_from 0 b
  reserve-placed pool block decision refused m e = ap values (cc e) ∙ values-enumerate_from 0 block
  reserve-placed pool block decision (raises p) m e = absurd (cc)

module _ {F : Type 0} ⦃fl : Float F⦄ where
  reserve_best-placed :
      (pool : Pool) (tagged : Decision F) (r : Result (List ℕ)) (m : Mapping)
      → (reserve_best pool tagged r).attempt ≡ placed m
      → r ≡ ok (values m)
  unfolding reserve_best place
  reserve_best-placed pool tagged (ok block) m e =
      ap ok (sym (reserve-placed pool block (some tagged) (Pool.allocate pool block) m e))
  reserve_best-placed pool tagged (raise x) m e = absurd (cc)

-- Where the noise-aware allocator places a circuit, the block is one of its candidates and no
-- candidate has a lower cost under the allocator's weights, nor the same cost and a lower block.
pub noise_allocate-IsBest :
    {F : Type 0} ⦃fl : Float F⦄ (w : BlockWeights F) (c : Circuit F) (d : Device F) (pool : Pool)
    (l : Limits F) (m : Mapping)
    → IsOrdered fl
    → (noise_allocate w c d pool l).attempt ≡ placed m
    → IsBest block_less (explain_recorded noise_scoring (candidate_blocks c d pool l) w) (values m)
unfolding noise_allocate
noise_allocate-IsBest w c d pool l m ordered e =
    let tagged = candidate_blocks c d pool l in
    elim (Bool-cases (is_empty tagged)) [
      | inl none_found ↦ absurd (cc (rw (none_found) at e))
      | inr found ↦
          sweep_decision-IsBest noise_scoring tagged w (values m) ordered
            (unfold noise_scoring in block_less-IsStrict)
            (reserve_best-placed pool tagged (sweep_decision noise_scoring tagged w) m
              (rw (found) at e))
    ]
