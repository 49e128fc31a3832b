-- ===== src/Dict.antt =====
-- Python's dict, in insertion order.
use text.Mathlib.Text.{◌==◌}
use text.Mathlib.TextEquality.{eq_iff}
use dev_q.Prelude.{
  ◌≡◌, refl, arith, String, Bool, true, false, List, [], ◌∷◌, Option, none, some, if◌then◌else◌,
}

module _ {Value : Type 0} where
  unfoldable pub lookup : String → List (String × Value) → Option Value
  lookup key [] = none
  lookup key ((name, value) ∷ rest) = if name == key then some value else lookup key rest

  unfoldable pub has : String → List (String × Value) → Bool
  has key [] = false
  has key ((name, value) ∷ rest) = if name == key then true else has key rest

  -- `d[key] = value`
  unfoldable pub insert : String → Value → List (String × Value) → List (String × Value)
  insert key value [] = (key, value) ∷ []
  insert key value ((name, old) ∷ rest) =
      if name == key then (name, value) ∷ rest else (name, old) ∷ insert key value rest

  -- `dict(zip(names, values))`, from a dict that is filled already.
  unfoldable pub fill : List (String × Value) → List String → List Value → List (String × Value)
  unfolding insert
  fill d [] values = d
  fill d (name ∷ names) [] = d
  fill d (name ∷ names) (value ∷ values) = fill (insert name value d) names values

-- Reads behind a write.
module _ {Value : Type 0} (name key : String) (value : Value) where
  pub lookup-insert :
      (d : List (String × Value))
      → lookup key (insert name value d) ≡ (if name == key then some value else lookup key d)
  unfolding lookup insert
  lookup-insert [] = refl
  lookup-insert ((other, old) ∷ rest) =
      ground (arith, lookup-insert rest, eq_iff other name, eq_iff other key, eq_iff name key)

  pub has-insert :
      (d : List (String × Value))
      → has key (insert name value d) ≡ (if name == key then true else has key d)
  unfolding has insert
  has-insert [] = refl
  has-insert ((other, old) ∷ rest) =
      ground (arith, has-insert rest, eq_iff other name, eq_iff other key, eq_iff name key)
