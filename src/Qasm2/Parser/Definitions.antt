-- ===== src/Qasm2/Parser/Definitions.antt =====
-- frontends/qasm2/parser.py: gate definitions, whose bodies are captured as tokens, and barriers.
use dev_q.Prelude.{
  ℕ, zero, suc, String, ◌||◌, List, [], ◌∷◌, Option, none, some, if◌then◌else◌, length,
}
use dev_q.Qasm2.Outcome.{
  when_found, Method, ok, qasm_error, out_of_fuel, give, error_at, unterminated_body,
  already_defined, unterminated_barrier, ◌>>=◌, ◌>>◌,
}
use dev_q.Dict.{has, insert}
use dev_q.Qasm2.Tokens.{Token, Cursor, id, peek, next, at_symbol, expect_symbol, expect_kind}
use dev_q.Qasm2.Parser.{Parser, on_cursor, self}

-- `_BUILTIN_GATES`: the numbers of parameters and of qubits.
unfoldable pub builtin_gates : List (String × (ℕ × ℕ))
builtin_gates =
    ("id", (0, 1))
    ∷ ("x", (0, 1))
    ∷ ("y", (0, 1))
    ∷ ("z", (0, 1))
    ∷ ("h", (0, 1))
    ∷ ("s", (0, 1))
    ∷ ("sdg", (0, 1))
    ∷ ("t", (0, 1))
    ∷ ("tdg", (0, 1))
    ∷ ("sx", (0, 1))
    ∷ ("sxdg", (0, 1))
    ∷ ("rx", (1, 1))
    ∷ ("ry", (1, 1))
    ∷ ("rz", (1, 1))
    ∷ ("p", (1, 1))
    ∷ ("u1", (1, 1))
    ∷ ("u2", (2, 1))
    ∷ ("u3", (3, 1))
    ∷ ("u", (3, 1))
    ∷ ("cx", (0, 2))
    ∷ ("cy", (0, 2))
    ∷ ("cz", (0, 2))
    ∷ ("ch", (0, 2))
    ∷ ("swap", (0, 2))
    ∷ ("ecr", (0, 2))
    ∷ ("crx", (1, 2))
    ∷ ("cry", (1, 2))
    ∷ ("crz", (1, 2))
    ∷ ("cp", (1, 2))
    ∷ ("cu1", (1, 2))
    ∷ ("ccx", (0, 3))
    ∷ ("cswap", (0, 3))
    ∷ []

-- The loop over comma-separated identifiers.
unfoldable pub identifiers : ℕ → Method Cursor (List String)
unfolding expect_kind
identifiers zero c = out_of_fuel
identifiers (suc fuel) c =
    let more = λ (name : String). do next; names ← identifiers fuel; give (name ∷ names)
    in (do
      tok ← expect_kind id
      sep ← peek
      if at_symbol "," sep then more tok.value else give (tok.value ∷ []))
      c

-- `( ... )` with nothing or `inside` between the parentheses, or no parenthesis at all.
unfoldable pub listed : {Value : Type 0} → Method Cursor Value → Value → Method Cursor Value
unfolding expect_symbol
listed inside nothing = do
  tok ← peek
  let empty = next >> give nothing
  let filled = do value ← inside; expect_symbol ")"; give value
  let parenthesised = do next; ahead ← peek; if at_symbol ")" ahead then empty else filled
  if at_symbol "(" tok then parenthesised else give nothing

unfoldable pub formal_params : Method Cursor (List String)
unfolding identifiers listed
formal_params c = listed (identifiers (suc (length c.tokens))) [] c

abbrev pub keep_token : Token → Option (List Token × List Token) → Option (List Token × List Token)
keep_token tok none = none
keep_token tok (some (body, behind)) = some (tok ∷ body, behind)

-- The body's tokens up to the brace that closes it, `nested` braces being open inside, and the
-- tokens behind it.
unfoldable pub capture : ℕ → List Token → Option (List Token × List Token)
capture nested [] = none
capture nested (tok ∷ rest) =
    let deeper = keep_token tok (capture (suc nested) rest) in
    let outer : Option (List Token × List Token) = elim nested [
      | zero ↦ some ([], rest)
      | suc n ↦ keep_token tok (capture n rest)
    ] in
    let same = keep_token tok (capture nested rest) in
    if at_symbol "{" tok then deeper else if at_symbol "}" tok then outer else same

-- `body[-1].line if body else 0`
unfoldable pub last_line : List Token → ℕ
last_line [] = 0
last_line (tok ∷ []) = tok.line
last_line (_ ∷ tok ∷ rest) = last_line (tok ∷ rest)

unfoldable pub captured : String → Method Cursor Cursor
unfolding capture last_line
captured name c =
    when_found (capture 0 c.tokens)
      (λ (body, behind).
        ok (record { tokens = body; end_line = last_line body }, record c { tokens = behind }))
      (qasm_error (unterminated_body name) (some c.end_line))

unfoldable pub gate_body : String → Method Cursor Cursor
unfolding captured expect_symbol
gate_body name = do expect_symbol "{"; captured name

-- `while not (symbol ;): if at_end: raise; next()`
unfoldable pub skip_to_semicolon : List Token → Option (List Token)
skip_to_semicolon [] = none
skip_to_semicolon (tok ∷ rest) =
    let further = skip_to_semicolon rest in if at_symbol ";" tok then some (tok ∷ rest) else further

unfoldable pub skip_arguments : Method Cursor (Unit {0})
unfolding skip_to_semicolon
skip_arguments c =
    when_found (skip_to_semicolon c.tokens) (λ rest. ok (tt, record c { tokens = rest }))
      (qasm_error unterminated_barrier (some c.end_line))

unfoldable pub parse_barrier : Method Cursor Token
unfolding skip_arguments expect_symbol
parse_barrier = do next; skip_arguments; expect_symbol ";"

module _ {F : Type 0} where
  unfoldable pub parse_gate_def : Method (Parser F) (Unit {0})
  unfolding formal_params identifiers gate_body has builtin_gates
  parse_gate_def = do
    on_cursor next
    name_tok ← on_cursor (expect_kind id)
    let name = name_tok.value
    params ← on_cursor formal_params
    p ← self
    qubits ← on_cursor (identifiers (suc (length p.cursor.tokens)))
    body ← on_cursor (gate_body name)
    behind ← on_cursor peek
    let define = λ (q : Parser F). ok (
      tt,
      record q {
        gate_defs =
            insert name (record { params = params; qubits = qubits; body = body }) q.gate_defs;
      },
    )
    if has name p.gate_defs || has name builtin_gates
        then error_at (already_defined name) behind.line
        else define
