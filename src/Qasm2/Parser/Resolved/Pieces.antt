-- ===== src/Qasm2/Parser/Resolved/Pieces.antt =====
-- frontends/qasm2/parser.py: the parts of statements that read the cursor alone, and the tokens they
-- take.
use dev_q.Prelude.{
  ℕ, zero, suc, ◌+◌, ◌≤◌, ◌<◌, String, Bool, true, false, List, [], ◌∷◌, Option, none, some, ◌≡◌,
  refl, subst, length, arith, if◌then◌else◌,
}
use dev_q.Qasm2.Outcome.{Method}
use dev_q.Qasm2.Python.{Math}
use dev_q.Dict.{lookup}
use dev_q.Qasm2.Tokens.{id, Token, Cursor, at_symbol, first_or, rest_of}
use dev_q.Qasm2.Expression.{evaluate}
use dev_q.Qasm2.Expression.Ends.{evaluate-Consumed}
use dev_q.Qasm2.Ends.{
  EndsBy-Ends, Ends, returned, refused, Ends-choice, Ends-when_found, Ends-found, Ends-proceed,
}
use dev_q.Qasm2.Ends.Cursor.{
  left, Consumed, Consumed-then, expect_symbol-Consumed, expect_kind-Consumed, rest_of_symbol,
  rest-le,
}
use dev_q.Qasm2.Parser.Definitions.{
  identifiers, listed, formal_params, capture, captured, keep_token, gate_body, skip_to_semicolon,
  skip_arguments, parse_barrier,
}
use dev_q.Qasm2.Parser.Inline.{param_values, parse_param_list, bound_qubits}
use dev_q.Qasm2.Parser.Layout.{Below, Values, lookup-Values}

pub identifiers-Consumed :
    (fuel : ℕ) (c : Cursor) → left c < fuel → Ends (Consumed 1 (left c)) (identifiers fuel c)
unfolding identifiers
identifiers-Consumed zero c h = elim h [ ]
identifiers-Consumed (suc fuel) c h =
    Consumed-then _ 0 1 1 (left c) (left c) _ (expect_kind-Consumed id c refl)
      (λ r q.
        Ends-choice (at_symbol "," (first_or r.1.tokens r.1.end_line)) _ _ r.1
          (λ t.
            let less = rest_of_symbol "," r.1.tokens r.1.end_line t in
            Consumed-then _ 0 1 0 (left r.1) (length (rest_of r.1.tokens)) _
              (identifiers-Consumed fuel (record r.1 { tokens = rest_of r.1.tokens }) (omega arith))
              (λ r' q'. returned _ (omega arith)) (omega arith))
          (λ t. returned _ (omega arith)))
      (omega arith)

-- `( ... )`, where the inside is read by a method that consumes a token, or is absent.
module _ {Value : Type 0} where
  listed-Consumed :
      (inside : Method Cursor Value) (nothing : Value) (c : Cursor)
      → ((d : Cursor) → left d ≤ left c → Ends (Consumed 1 (left d)) (inside d))
      → Ends (Consumed 0 (left c)) (listed inside nothing c)
  unfolding listed
  listed-Consumed inside nothing c k =
      Ends-choice (at_symbol "(" (first_or c.tokens c.end_line)) _ _ c
        (λ t.
          let least = rest-le c.tokens in
          let least' = rest-le (rest_of c.tokens) in
          Ends-choice (at_symbol ")" (first_or (rest_of c.tokens) c.end_line)) _ _
            (record c { tokens = rest_of c.tokens }) (λ t'. returned _ (omega arith))
            (λ t'.
              Consumed-then _ 0 1 0 (left c) (length (rest_of c.tokens)) _
                (k (record c { tokens = rest_of c.tokens }) (omega arith))
                (λ r q.
                  Consumed-then _ 0 1 0 (left r.1) (left r.1) _ (expect_symbol-Consumed ")" r.1)
                    (λ r' q'. returned _ (omega arith)) (omega arith))
                (omega arith)))
        (λ t. returned _ (omega arith))

pub formal_params-Consumed : (c : Cursor) → Ends (Consumed 0 (left c)) (formal_params c)
unfolding formal_params
formal_params-Consumed c =
    listed-Consumed (identifiers (suc (length c.tokens))) [] c
      λ d le. identifiers-Consumed (suc (length c.tokens)) d (omega arith)

-- What is left is shorter, if there is a result.
abbrev Shrinks : ℕ → Option (List Token × List Token) → Type 0
Shrinks n none = Unit {0}
Shrinks n (some r) = length r.1 + 1 ≤ n

keep_token-Shrinks :
    (n : ℕ) (tok : Token) (o : Option (List Token × List Token))
    → Shrinks n o
    → Shrinks (suc n) (keep_token tok o)
keep_token-Shrinks n tok none h = tt
keep_token-Shrinks n tok (some r) h = omega arith

if-Shrinks :
    (n : ℕ) (test : Bool) (x y : Option (List Token × List Token))
    → Shrinks n x
    → Shrinks n y
    → Shrinks n (if test then x else y)
if-Shrinks n true x y hx hy = hx
if-Shrinks n false x y hx hy = hy

capture-Shrinks : (nested : ℕ) (ts : List Token) → Shrinks (length ts) (capture nested ts)
unfolding capture
capture-Shrinks nested [] = tt
capture-Shrinks zero (tok ∷ ts) =
    let same = keep_token-Shrinks (length ts) tok (capture 0 ts) (capture-Shrinks 0 ts) in
    let deeper = keep_token-Shrinks (length ts) tok (capture 1 ts) (capture-Shrinks 1 ts) in
    if-Shrinks _ (at_symbol "{" tok) _ _ deeper
      (if-Shrinks _ (at_symbol "}" tok) (some ([], ts)) _ (omega arith) same)
capture-Shrinks (suc n) (tok ∷ ts) =
    let same =
      keep_token-Shrinks (length ts) tok (capture (suc n) ts) (capture-Shrinks (suc n) ts) in
    let deeper =
      keep_token-Shrinks (length ts) tok (capture (suc (suc n)) ts)
        (capture-Shrinks (suc (suc n)) ts) in
    let outer = keep_token-Shrinks (length ts) tok (capture n ts) (capture-Shrinks n ts) in
    if-Shrinks _ (at_symbol "{" tok) _ _ deeper (if-Shrinks _ (at_symbol "}" tok) _ _ outer same)

skip_to_semicolon-le :
    (ts rest : List Token) → skip_to_semicolon ts ≡ some rest → length rest ≤ length ts
unfolding skip_to_semicolon
skip_to_semicolon-le [] rest h = cc
skip_to_semicolon-le (tok ∷ ts) rest h = ground (arith, skip_to_semicolon-le ts rest)

captured-Consumed : (name : String) (c : Cursor) → Ends (Consumed 0 (left c)) (captured name c)
unfolding captured
captured-Consumed name c =
    Ends-found (capture 0 c.tokens) _ _
      (λ r e.
        let short = subst (Shrinks (length c.tokens)) e (capture-Shrinks 0 c.tokens) in
        returned _ (omega arith))
      (λ e. refused _ _)

pub gate_body-Consumed :
    (name : String) (c : Cursor) → Ends (Consumed 1 (left c)) (gate_body name c)
unfolding gate_body
gate_body-Consumed name c =
    Consumed-then _ 0 1 1 (left c) (left c) _ (expect_symbol-Consumed "{" c)
      (λ r q. captured-Consumed name r.1) (omega arith)

skip_arguments-Consumed : (c : Cursor) → Ends (Consumed 0 (left c)) (skip_arguments c)
unfolding skip_arguments
skip_arguments-Consumed c =
    Ends-found (skip_to_semicolon c.tokens) _ _
      (λ rest e. returned _ (omega (arith, skip_to_semicolon-le c.tokens rest e)))
      (λ e. refused _ _)

pub parse_barrier-Consumed : (c : Cursor) → Ends (Consumed 1 (left c)) (parse_barrier c)
unfolding parse_barrier
parse_barrier-Consumed c =
    let least = rest-le c.tokens in
    Consumed-then _ 1 0 1 (left c) (length (rest_of c.tokens)) _
      (skip_arguments-Consumed (record c { tokens = rest_of c.tokens }))
      (λ r q. expect_symbol-Consumed ";" r.1) (omega arith)

module _ {F : Type 0} (m : Math F) (binding : List (String × F)) where
  param_values-Consumed :
      (fuel : ℕ) (c : Cursor)
      → left c < fuel
      → Ends (Consumed 1 (left c)) (param_values m binding fuel c)
  unfolding param_values
  param_values-Consumed zero c h = elim h [ ]
  param_values-Consumed (suc fuel) c h =
      Consumed-then _ 0 1 1 (left c) (left c) _
        (EndsBy-Ends (evaluate m binding c) (evaluate-Consumed m binding c))
        (λ r q.
          Ends-choice (at_symbol "," (first_or r.1.tokens r.1.end_line)) _ _ r.1
            (λ t.
              let less = rest_of_symbol "," r.1.tokens r.1.end_line t in
              Consumed-then _ 0 1 0 (left r.1) (length (rest_of r.1.tokens)) _
                (param_values-Consumed fuel (record r.1 { tokens = rest_of r.1.tokens })
                  (omega arith))
                (λ r' q'. returned _ (omega arith)) (omega arith))
            (λ t. returned _ (omega arith)))
        (omega arith)

  pub parse_param_list-Consumed :
      (c : Cursor) → Ends (Consumed 0 (left c)) (parse_param_list m binding c)
  unfolding parse_param_list
  parse_param_list-Consumed c =
      listed-Consumed (param_values m binding (suc (length c.tokens))) [] c
        λ d le. param_values-Consumed (suc (length c.tokens)) d (omega arith)

-- The qubits that a body's call names are the caller's.
abbrev pub Bound : ℕ → ℕ → List ℕ × Cursor → Type 0
Bound n k r = Below n r.0 × Consumed 1 k r

pub bound_qubits-Bound :
    (n : ℕ) (binding : List (String × ℕ)) (line fuel : ℕ) (c : Cursor)
    → Values (λ q. q < n) binding
    → left c < fuel
    → Ends (Bound n (left c)) (bound_qubits binding line fuel c)
unfolding bound_qubits
bound_qubits-Bound n binding line zero c v h = elim h [ ]
bound_qubits-Bound n binding line (suc fuel) c v h =
    Ends-proceed _ _ _ (expect_kind-Consumed id c refl) λ r q.
      Ends-when_found (lookup r.0.value binding) _ _ r.1
        (λ qubit e.
          let low = lookup-Values (λ q. q < n) r.0.value binding qubit v e in
          Ends-choice (at_symbol "," (first_or r.1.tokens r.1.end_line)) _ _ r.1
            (λ t.
              let less = rest_of_symbol "," r.1.tokens r.1.end_line t in
              Ends-proceed _ _ _
                (bound_qubits-Bound n binding line fuel (record r.1 { tokens = rest_of r.1.tokens })
                  v (omega arith))
                (λ r' q'. returned _ ((low, q'.0), omega (arith, q'.1))))
            (λ t. returned _ ((low, tt), omega arith)))
        (λ e. refused _ _)
