-- ===== src/Numeric.antt =====
-- Error rates, weights, times and scores. The program uses Python's floats; here they are a type
-- with the operations that the code applies to them, an argument of every definition that needs
-- one, so nothing is assumed of rounding. `decimal m e` is the literal m / 10 ^ e.
use dev_q.Prelude.{ℕ, ◌≡◌, ◌↔◌, Bool, true, false, Option}

pub record Float (F : Type 0) : Type 0 where
  pub decimal : (mantissa exponent : ℕ) → F
  pub inf : F
  pub of_count : ℕ → F
  -- float(n) of an int of any size: a huge one raises OverflowError.
  pub of_integer : ℕ → Option F
  pub plus : F → F → F
  pub minus : F → F → F
  pub times : F → F → F
  pub divide : F → F → F
  pub at_most : F → F → Bool
  pub less : F → F → Bool
  pub equal : F → F → Bool

-- What the comparisons of the numbers that occur satisfy; no NaN occurs among them.
pub record IsOrdered {F : Type 0} (fl : Float F) : Type 0 where
  pub reflexive : (x : F) → fl.less x x ≡ false
  pub transitive : (x y z : F) → fl.less x y ≡ true → fl.less y z ≡ true → fl.less x z ≡ true
  pub comparable : (x y : F) → fl.less x y ≡ false → fl.less y x ≡ false → fl.equal x y ≡ true
  pub equal_iff : (x y : F) → (fl.equal x y ≡ true) ↔ (x ≡ y)
