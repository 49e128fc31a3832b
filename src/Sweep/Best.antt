-- ===== src/Sweep/Best.antt =====
-- The candidate that kernel/sweep.py selects is the best of the report it gives.
use dev_q.Prelude.{
  ℕ, zero, suc, ◌≡◌, ◌⊎◌, refl, Bool, true, false, List, [], ◌∷◌, some, inl, inr, get_elem?, All,
  All-map, Bool-cases, if◌then◌else◌, arith,
}
use dev_q.Errors.{ok}
use dev_q.Numeric.{Float, IsOrdered}
use dev_q.Sweep.{Scoring, row_less, min_row, pick, sweep_decision, explain_recorded}

pub record IsStrict {K : Type 0} (less : K → K → Bool) : Type 0 where
  pub irreflexive : (x : K) → less x x ≡ false
  pub transitive : (x y z : K) → less x y ≡ true → less y z ≡ true → less x z ≡ true

-- A row has no smaller score than another, and with the same score no smaller key.
abbrev pub IsNotBefore :
    {F K D : Type 0} → ⦃fl : Float F⦄ → (K → K → Bool) → K × F × D → K × F × D → Type 0
IsNotBefore ⦃fl⦄ key_less (k, x, _) (l, y, _) =
    (fl.less x y ≡ false) × ((fl.equal x y ≡ false) ⊎ (key_less k l ≡ false))

-- A row of the list with the key, such that no row of the list comes before it.
pub record IsBest {F K D : Type 0} ⦃fl : Float F⦄ (key_less : K → K → Bool)
    (rows : List (K × F × D)) (key : K) : Type 0 where
  pub row : K × F × D
  pub place : ℕ
  pub found : get_elem? rows place ≡ some row
  pub named : row.0 ≡ key
  pub least : All (λ r. IsNotBefore key_less r row) rows

-- What holds of every key holds of the key of the least row.
pub min_row-All :
    {F K D : Type 0} ⦃fl : Float F⦄ (key_less : K → K → Bool) (P : K → Type 0) (best : K × F × D)
    (rows : List (K × F × D))
    → P best.0
    → All (λ r. P r.0) rows
    → P (min_row key_less best rows).0
unfolding min_row
min_row-All key_less P best [] h hs = h
min_row-All key_less P best (r ∷ rows) h hs = elim (Bool-cases (row_less key_less r best)) [
  | inl e ↦ rw (e, min_row) (min_row-All key_less P r rows hs.0 hs.1)
  | inr e ↦ rw (e, min_row) (min_row-All key_less P best rows h hs.1)
]

module _ {F K D : Type 0} ⦃fl : Float F⦄ (key_less : K → K → Bool) (ordered : IsOrdered fl)
    (strict : IsStrict key_less) where
  row_less_irreflexive : (r : K × F × D) → row_less key_less r r ≡ false
  unfolding row_less
  row_less_irreflexive (k, x, a) =
      rw ((ordered.equal_iff x x).1 refl, row_less) (strict.irreflexive k)

  row_less_transitive :
      (r s t : K × F × D)
      → row_less key_less r s ≡ true
      → row_less key_less s t ≡ true
      → row_less key_less r t ≡ true
  unfolding row_less
  row_less_transitive (k, x, a) (l, y, b) (m, z, c) p q = ground (
    arith,
    ordered.equal_iff x y,
    ordered.equal_iff y z,
    ordered.equal_iff x z,
    ordered.transitive x y z,
    ordered.transitive x y x,
    ordered.reflexive x,
    strict.transitive k l m,
  )

  not_less_trans :
      (s r best : K × F × D)
      → row_less key_less s best ≡ false
      → row_less key_less r best ≡ true
      → row_less key_less s r ≡ false
  not_less_trans s r best h p = elim (Bool-cases (row_less key_less s r)) [
    | inr e ↦ e
    | inl e ↦ absurd (cc (row_less_transitive s r best e p))
  ]

  abbrev lesser : K × F × D → K × F × D → K × F × D
  lesser r best = if row_less key_less r best then r else best

  lesser-least_left : (r best : K × F × D) → row_less key_less r (lesser r best) ≡ false
  lesser-least_left r best = elim (Bool-cases (row_less key_less r best)) [
    | inl e ↦ rw e (row_less_irreflexive r)
    | inr e ↦ rw e e
  ]

  lesser-least :
      (s r best : K × F × D)
      → row_less key_less s best ≡ false
      → row_less key_less s (lesser r best) ≡ false
  lesser-least s r best h = elim (Bool-cases (row_less key_less r best)) [
    | inl e ↦ rw e (not_less_trans s r best h e)
    | inr e ↦ rw e h
  ]

  -- The fold keeps a row that no row is less than.
  min_row-least :
      (best : K × F × D) (seen rows : List (K × F × D))
      → All (λ r. row_less key_less r best ≡ false) seen
      → All (λ r. row_less key_less r (min_row key_less best rows) ≡ false) seen
        × All (λ r. row_less key_less r (min_row key_less best rows) ≡ false) rows
  unfolding min_row
  min_row-least best seen [] h = (h, tt)
  min_row-least best seen (r ∷ rows) h =
      let kept =
        All-map (λ s. row_less key_less s best ≡ false)
          (λ s. row_less key_less s (lesser r best) ≡ false) seen (λ s q. lesser-least s r best q)
          h in
      let rest = min_row-least (lesser r best) (r ∷ seen) rows (lesser-least_left r best, kept) in
      (rest.0.1, (rest.0.0, rest.1))

  min_row-place :
      (best : K × F × D) (rows : List (K × F × D))
      → (i : ℕ) × (get_elem? (best ∷ rows) i ≡ some (min_row key_less best rows))
  unfolding min_row
  min_row-place best [] = (0, refl)
  min_row-place best (r ∷ rows) = elim (Bool-cases (row_less key_less r best)) [
    | inl e ↦ let (i, p) = min_row-place r rows in (suc i, rw (e, min_row) p)
    | inr e ↦ rw (e, min_row) (shift (min_row-place best rows))
  ]
    where
      shift :
          (i : ℕ) × (get_elem? (best ∷ rows) i ≡ some (min_row key_less best rows))
          → (i : ℕ) × (get_elem? (best ∷ r ∷ rows) i ≡ some (min_row key_less best rows))
      shift (zero, p) = (0, p)
      shift (suc i, p) = (suc (suc i), p)

  row_less-IsNotBefore :
      (r best : K × F × D) → row_less key_less r best ≡ false → IsNotBefore key_less r best
  unfolding row_less
  row_less-IsNotBefore (k, x, a) (l, y, b) h = elim (Bool-cases (fl.equal x y)) [
    | inr other ↦ (rw (other, row_less) at h, inl other)
    | inl same ↦
        let equal : x ≡ y = (ordered.equal_iff x y).0 same in
        (rw equal (ordered.reflexive y), inr (rw (same, row_less) at h))
  ]

  pick-IsBest :
      (rows : List (K × F × D)) (key : K) → pick key_less rows ≡ ok key → IsBest key_less rows key
  unfolding pick
  pick-IsBest [] key e = absurd (cc)
  pick-IsBest (r ∷ rows) key e =
      let place = min_row-place r rows in
      let least = min_row-least r (r ∷ []) rows (row_less_irreflexive r, tt) in
      record {
        row = min_row key_less r rows;
        place = place.0;
        found = place.1;
        named = cc;
        least =
            All-map (λ s. row_less key_less s (min_row key_less r rows) ≡ false)
              (λ s. IsNotBefore key_less s (min_row key_less r rows)) (r ∷ rows)
              (λ s h. row_less-IsNotBefore s (min_row key_less r rows) h) (least.0.0, least.1);
      }

-- Where scores and keys are strictly ordered, the key that a decision under any parameters returns
-- is that of a row of the report under the same parameters; no row of the report has a smaller
-- score, and none with the same score has a smaller key.
pub sweep_decision-IsBest :
    {F Key Terms Params Raw Detail : Type 0} ⦃fl : Float F⦄
    (c : Scoring F Key Terms Params Raw Detail) (tagged : List (Key × Terms)) (params : Params)
    (key : Key)
    → IsOrdered fl
    → IsStrict c.key_less
    → sweep_decision c tagged params ≡ ok key
    → IsBest c.key_less (explain_recorded c tagged params) key
unfolding sweep_decision
sweep_decision-IsBest c tagged params key ordered strict e =
    pick-IsBest c.key_less ordered strict (explain_recorded c tagged params) key e
