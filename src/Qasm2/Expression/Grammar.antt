-- ===== src/Qasm2/Expression/Grammar.antt =====
-- The grammar that frontends/qasm2/expression.py documents, with its spelling in tokens and its
-- meaning, written without the evaluator.
use text.Mathlib.Text.{◌==◌}
use dev_q.Qasm2.Expression.{function_of}
use dev_q.Prelude.{ℕ, String, Bool, true, false, ◌||◌, List, ◌∷◌, Option, none, some, if◌then◌else◌}
use dev_q.Qasm2.Python.{Math, Function, sin, cos, tan, exp, ln, sqrt}
use dev_q.Dict.{lookup}
use dev_q.Qasm2.Tokens.{Token, Kind, number, id, symbol, op}

mutual
  pub data Expr : Type 0 where
    sum : Term → Terms → Expr

  -- `(('+' | '-') term)*`
  pub data Terms : Type 0 where
    no_terms : Terms
    plus : Term → Terms → Terms
    minus : Term → Terms → Terms

  pub data Term : Type 0 where
    product : Unary → Factors → Term

  -- `(('*' | '/') unary)*`
  pub data Factors : Type 0 where
    no_factors : Factors
    times : Unary → Factors → Factors
    over : Unary → Factors → Factors

  pub data Unary : Type 0 where
    negative : Unary → Unary
    positive : Power → Unary

  pub data Power : Type 0 where
    plain : Atom → Power
    raised : Atom → Unary → Power

  pub data Atom : Type 0 where
    literal : String → Atom
    pi : Atom
    apply : Function → Expr → Atom
    group : Expr → Atom
    parameter : String → Atom

abbrev pub name_of : Function → String
name_of sin = "sin"
name_of cos = "cos"
name_of tan = "tan"
name_of exp = "exp"
name_of ln = "ln"
name_of sqrt = "sqrt"

-- The tokens, all on one line, before `rest`.
module _ (line : ℕ) where
  abbrev pub token : Kind → String → Token
  token kind value = record { kind = kind; value = value; line = line }

  unfoldable mutual
    pub show_expr : Expr → List Token → List Token
    show_expr (sum t ts) rest = show_term t (show_terms ts rest)

    pub show_terms : Terms → List Token → List Token
    show_terms no_terms rest = rest
    show_terms (plus t ts) rest = token op "+" ∷ show_term t (show_terms ts rest)
    show_terms (minus t ts) rest = token op "-" ∷ show_term t (show_terms ts rest)

    pub show_term : Term → List Token → List Token
    show_term (product u us) rest = show_unary u (show_factors us rest)

    pub show_factors : Factors → List Token → List Token
    show_factors no_factors rest = rest
    show_factors (times u us) rest = token op "*" ∷ show_unary u (show_factors us rest)
    show_factors (over u us) rest = token op "/" ∷ show_unary u (show_factors us rest)

    pub show_unary : Unary → List Token → List Token
    show_unary (negative u) rest = token op "-" ∷ show_unary u rest
    show_unary (positive p) rest = show_power p rest

    pub show_power : Power → List Token → List Token
    show_power (plain a) rest = show_atom a rest
    show_power (raised a u) rest = show_atom a (token op "^" ∷ show_unary u rest)

    pub show_atom : Atom → List Token → List Token
    show_atom (literal text) rest = token number text ∷ rest
    show_atom pi rest = token id "pi" ∷ rest
    show_atom (apply f e) rest =
        token id (name_of f) ∷ token symbol "(" ∷ show_expr e (token symbol ")" ∷ rest)
    show_atom (group e) rest = token symbol "(" ∷ show_expr e (token symbol ")" ∷ rest)
    show_atom (parameter name) rest = token id name ∷ rest

-- The names that are no parameters.
abbrev pub is_function : Option Function → Bool
is_function none = false
is_function (some f) = true

abbrev pub is_reserved : String → Bool
is_reserved name = (name == "pi") || is_function (function_of name)

infixl 5 ◌>>=◌
abbrev pub ◌>>=◌ : {A B : Type 0} → Option A → (A → Option B) → Option B
none >>= f = none
some a >>= f = f a

-- The meaning, or nothing where an operation is undefined.
module _ {F : Type 0} (m : Math F) (params : List (String × F)) where
  abbrev pub quotient : F → F → Option F
  quotient x y = if m.is_zero y then none else some (m.div x y)

  unfoldable mutual
    pub value_expr : Expr → Option F
    value_expr (sum t ts) = value_term t >>= λ v. value_terms ts v

    pub value_terms : Terms → F → Option F
    value_terms no_terms v = some v
    value_terms (plus t ts) v = value_term t >>= λ w. value_terms ts (m.add v w)
    value_terms (minus t ts) v = value_term t >>= λ w. value_terms ts (m.sub v w)

    pub value_term : Term → Option F
    value_term (product u us) = value_unary u >>= λ v. value_factors us v

    pub value_factors : Factors → F → Option F
    value_factors no_factors v = some v
    value_factors (times u us) v = value_unary u >>= λ w. value_factors us (m.mul v w)
    value_factors (over u us) v = value_unary u >>= λ w. quotient v w >>= λ x. value_factors us x

    pub value_unary : Unary → Option F
    value_unary (negative u) = value_unary u >>= λ v. some (m.neg v)
    value_unary (positive p) = value_power p

    pub value_power : Power → Option F
    value_power (plain a) = value_atom a
    value_power (raised a u) = value_atom a >>= λ v. value_unary u >>= λ w. m.pow v w

    pub value_atom : Atom → Option F
    value_atom (literal text) = m.float_of text
    value_atom pi = some m.pi
    value_atom (apply f e) = value_expr e >>= λ v. m.call f v
    value_atom (group e) = value_expr e
    value_atom (parameter name) = if is_reserved name then none else lookup name params
