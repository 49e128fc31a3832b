-- ===== src/Sweep.antt =====
-- kernel/sweep.py: choosing among scored candidates. A component's three hooks are a record; what
-- the base class derives from them, for the live choice, the report and a replay, are functions.
-- `Sweepable`'s default hooks, which report "not scored", are the absence of such a record.
pub mod Best
use dev_q.Prelude.{Bool, List, [], ◌∷◌, map, if◌then◌else◌}
use dev_q.Numeric.{Float}
use dev_q.Errors.{Result, ok, raise, value_error}

-- `Key` names a candidate, `Terms` are its raw terms, `Params` the swept weights, `Raw` the score
-- before ranking and `Detail` the terms that are logged. `key_less` is `<` on the keys.
pub record Scoring (F Key Terms Params Raw Detail : Type 0) : Type 0 where
  pub sweep_score : Terms → Params → Raw
  pub sweep_rank : List (Key × Terms × Raw) → Params → List (Key × F × Detail)
  pub key_less : Key → Key → Bool

module _ {F Key Terms Params Raw Detail : Type 0} (c : Scoring F Key Terms Params Raw Detail) where
  score_each : List (Key × Terms) → Params → List (Key × Terms × Raw)
  score_each tagged params = map (λ t. (t.0, t.1, c.sweep_score t.1 params)) tagged

  -- The live parameters are the second argument.
  unfoldable pub explain_recorded : List (Key × Terms) → Params → List (Key × F × Detail)
  unfolding score_each
  explain_recorded tagged params = c.sweep_rank (score_each tagged params) params

module _ {F Key Detail : Type 0} ⦃fl : Float F⦄ (key_less : Key → Key → Bool) where
  -- The order of the tuples `(score, key)`: the keys count only where the scores are equal.
  unfoldable pub row_less : Key × F × Detail → Key × F × Detail → Bool
  row_less (k, x, _) (l, y, _) = if fl.equal x y then key_less k l else fl.less x y

  -- `min(rows, key=...)` keeps the earlier of two rows of which neither is less.
  unfoldable pub min_row : Key × F × Detail → List (Key × F × Detail) → Key × F × Detail
  unfolding row_less
  min_row best [] = best
  min_row best (r ∷ rows) = min_row (if row_less r best then r else best) rows

  -- `min` of no rows raises ValueError.
  unfoldable pub pick : List (Key × F × Detail) → Result Key
  unfolding min_row
  pick [] = raise value_error
  pick (r ∷ rows) = ok (min_row r rows).0

module _ {F Key Terms Params Raw Detail : Type 0} ⦃fl : Float F⦄
    (c : Scoring F Key Terms Params Raw Detail) where
  unfoldable pub sweep_decision : List (Key × Terms) → Params → Result Key
  unfolding pick explain_recorded
  sweep_decision tagged params = pick c.key_less (explain_recorded c tagged params)
