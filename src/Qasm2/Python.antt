-- ===== src/Qasm2/Python.antt =====
-- What the frontend takes from Python: float() and int(), the float operations and the functions
-- of the module math, and the character classes of str.
use Prim.Native.Char.{Char}
use dev_q.Prelude.{ℕ, String, Bool, true, Option, ◌≡◌}

-- The keys of `_FUNCS`.
pub data Function : Type 0 where
  sin cos tan exp ln sqrt : Function

-- `none` stands for the exception that the call raises.
pub record Math (F : Type 0) : Type 0 where
  -- float(text): a text that is no number raises ValueError.
  pub float_of : String → Option F
  -- int(value) of a value that is not negative: an infinite one raises OverflowError.
  pub int_of : F → Option ℕ
  -- Whether the machine's index type holds the size; list() of a longer range raises OverflowError.
  pub is_length : ℕ → Bool
  pub pi : F
  pub add : F → F → F
  pub sub : F → F → F
  pub mul : F → F → F
  pub div : F → F → F
  pub neg : F → F
  pub is_zero : F → Bool
  -- math.pow and the functions of `_FUNCS` raise ValueError or OverflowError.
  pub pow : F → F → Option F
  pub call : Function → F → Option F

pub record Classes : Type 0 where
  pub is_space : Char → Bool
  pub is_digit : Char → Bool
  pub is_alpha : Char → Bool
  pub is_alnum : Char → Bool

-- str.isalnum() holds of every character of which str.isalpha() holds.
pub record IsPython (u : Classes) : Type 0 where
  pub alnum : (c : Char) → u.is_alpha c ≡ true → u.is_alnum c ≡ true
