-- ===== src/Qasm2/Tokens.antt =====
-- The tokens (frontends/qasm2/tokenizer.py) and the TokenCursor (frontends/qasm2/parser.py).
use text.Mathlib.Text.{◌==◌}
use dev_q.Prelude.{
  ℕ, String, Bool, true, false, ◌&&◌, List, [], ◌∷◌, Option, none, some, if◌then◌else◌,
}
use dev_q.Qasm2.Outcome.{Method, ok, give, error_at, ◌>>=◌, expected}

pub data Kind : Type 0 where
  number id string symbol op eof : Kind

abbrev pub spelling : Kind → String
spelling number = "NUMBER"
spelling id = "ID"
spelling string = "STRING"
spelling symbol = "SYMBOL"
spelling op = "OP"
spelling eof = "EOF"

pub record Token : Type 0 where
  pub kind : Kind
  pub value : String
  pub line : ℕ

-- The tokens from the position on, without the closing EOF, whose line is `end_line`.
pub record Cursor : Type 0 where
  pub tokens : List Token
  pub end_line : ℕ

-- The value of an EOF token is None; no code compares it.
abbrev pub eof_at : ℕ → Token
eof_at line = record { kind = eof; value = ""; line = line }

abbrev pub is_kind : Kind → Kind → Bool
is_kind number number = true
is_kind id id = true
is_kind string string = true
is_kind symbol symbol = true
is_kind op op = true
is_kind eof eof = true
is_kind _ _ = false

abbrev pub at_symbol : String → Token → Bool
at_symbol value tok = is_kind tok.kind symbol && (tok.value == value)

abbrev pub at_op : String → Token → Bool
at_op value tok = is_kind tok.kind op && (tok.value == value)

-- `peek(ahead)` at the tokens that are left.
abbrev pub first_or : List Token → ℕ → Token
first_or [] line = eof_at line
first_or (tok ∷ _) line = tok

abbrev pub rest_of : List Token → List Token
rest_of [] = []
rest_of (_ ∷ rest) = rest

abbrev pub peek : Method Cursor Token
peek c = ok (first_or c.tokens c.end_line, c)

abbrev pub peek_ahead : Method Cursor Token
peek_ahead c = ok (first_or (rest_of c.tokens) c.end_line, c)

-- At the end `next` stays where it is.
abbrev pub next : Method Cursor Token
next c = ok (first_or c.tokens c.end_line, record c { tokens = rest_of c.tokens })

-- `expect(kind, value)`; `wanted` gives the token kind alone where `value` is None.
abbrev pub matches : Kind → Option String → Token → Bool
matches kind none tok = is_kind tok.kind kind
matches kind (some value) tok = is_kind tok.kind kind && (tok.value == value)

abbrev wanted : Kind → Option String → String
wanted kind none = spelling kind
wanted kind (some value) = value

unfoldable pub expect : Kind → Option String → Method Cursor Token
expect kind value = do
  tok ← peek
  if matches kind value tok
      then next
      else error_at (expected (wanted kind value) tok.value) tok.line

unfoldable pub expect_symbol : String → Method Cursor Token
unfolding expect
expect_symbol value = expect symbol (some value)

unfoldable pub expect_kind : Kind → Method Cursor Token
unfolding expect
expect_kind kind = expect kind none

unfoldable pub at_end : Method Cursor Bool
at_end = do tok ← peek; give (is_kind tok.kind eof)
