-- ===== src/Qasm2/Tokenizer.antt =====
-- frontends/qasm2/tokenizer.py: `tokenize`.
-- One round of its loop is `read_one`, which reads what starts at the current character; an inner
-- loop returns what it consumed with the text that is left.
pub mod Total
use Prim.Native.Char.{Char, code}
use text.Mathlib.Text.{◌==◌}
use dev_q.Prelude.{
  ℕ, zero, suc, ◌+◌, String, Bool, true, false, ◌&&◌, ◌||◌, not, List, [], ◌∷◌, Option, none, some,
  if◌then◌else◌,
}
use dev_q.Prelude as P
use dev_q.Qasm2.Outcome.{
  when_found, Outcome, ok, qasm_error, out_of_fuel, proceed, unexpected_character,
  unterminated_comment, unterminated_string,
}
use dev_q.Qasm2.Python.{Classes}
use dev_q.Qasm2.Tokens.{Kind, number, id, string, symbol, op, Token, Cursor}

abbrev pub size : String → ℕ
size String.[] = 0
size (String.◌∷◌ c text) = suc (size text)

abbrev pub is : Char → ℕ → Bool
is c n = P.◌==◌ (code c) n

abbrev pub newline : ℕ
newline = 10

abbrev pub starts : ℕ → String → Bool
starts n String.[] = false
starts n (String.◌∷◌ c text) = is c n

abbrev pub drop_one : String → String
drop_one String.[] = String.[]
drop_one (String.◌∷◌ c text) = text

abbrev pub is_any : Char → List ℕ → Bool
is_any c [] = false
is_any c (n ∷ ns) = if is c n then true else is_any c ns

abbrev pub symbols : List ℕ
symbols = b'(' ∷ b')' ∷ b'[' ∷ b']' ∷ b'{' ∷ b'}' ∷ b',' ∷ b';' ∷ []

abbrev pub ops : List ℕ
ops = b'+' ∷ b'-' ∷ b'*' ∷ b'/' ∷ b'^' ∷ []

-- The tail of a line comment.
unfoldable pub skip_line : String → String
skip_line String.[] = String.[]
skip_line (String.◌∷◌ c text) = if is c newline then String.◌∷◌ c text else skip_line text

abbrev pub count_line : Char → ℕ → ℕ
count_line c line = if is c newline then suc line else line

-- The inside of a block comment: what follows its end, or nothing where the text ends first.
unfoldable pub skip_block : String → ℕ → Option (String × ℕ)
skip_block String.[] line = none
skip_block (String.◌∷◌ c text) line =
    let inside = skip_block text (count_line c line) in
    if is c b'*' && starts b'/' text then some (drop_one text, line) else inside

-- The inside of a string, the rest behind its quote, and the line.
unfoldable pub string_body : String → ℕ → Option (String × String × ℕ)
string_body String.[] line = none
string_body (String.◌∷◌ c text) line =
    let inside = string_body text (count_line c line) in
    if is c b'"' then some ("", text, line) else elim inside [
      | none ↦ none
      | some (body, rest, end_line) ↦ some (String.◌∷◌ c body, rest, end_line)
    ]

-- `text[i:j]` one character longer.
abbrev pub longer : Char → String × String → String × String
longer c (taken, rest) = (String.◌∷◌ c taken, rest)

module _ (u : Classes) where
  -- What the number loop still accepts: a sign stands only directly behind the exponent marker.
  unfoldable pub number_body : (seen_dot seen_exp signed : Bool) → String → String × String
  number_body seen_dot seen_exp signed String.[] = ("", "")
  number_body seen_dot seen_exp signed (String.◌∷◌ c text) =
      let after_digit = longer c (number_body seen_dot seen_exp false text) in
      let after_dot = longer c (number_body true seen_exp false text) in
      let after_exp = longer c (number_body seen_dot true true text) in
      if signed && is_any c (b'+' ∷ b'-' ∷ [])
      then after_digit
      else if u.is_digit c
      then after_digit
      else if is c b'.' && not seen_dot && not seen_exp
      then after_dot
      else if is_any c (b'e' ∷ b'E' ∷ []) && not seen_exp
      then after_exp
      else ("", String.◌∷◌ c text)

  abbrev pub is_word : Char → Bool
  is_word c = u.is_alnum c || is c b'_'

  unfoldable pub word_body : String → String × String
  word_body String.[] = ("", "")
  word_body (String.◌∷◌ c text) =
      let more = longer c (word_body text) in if is_word c then more else ("", String.◌∷◌ c text)

  abbrev pub digit_first : String → Bool
  digit_first String.[] = false
  digit_first (String.◌∷◌ c text) = u.is_digit c

-- One round: the token, if it reads one, the text that is left, and its line.
pub record Step : Type 0 where
  pub token : Option Token
  pub rest : String
  pub line : ℕ

abbrev pub skipped : String → ℕ → Outcome Step
skipped rest line = ok (record { token = none; rest = rest; line = line })

abbrev pub read : Kind → String → String → ℕ → Outcome Step
read kind value rest line = ok (record {
  token = some (record { kind = kind; value = value; line = line });
  rest = rest;
  line = line;
})

abbrev pub single : Char → String
single c = String.◌∷◌ c ""

unfoldable pub block_comment : String → ℕ → Outcome Step
unfolding skip_block
block_comment text start =
    when_found (skip_block text start) (λ (rest, line). skipped rest line)
      (qasm_error unterminated_comment (some start))

unfoldable pub read_string : String → ℕ → Outcome Step
unfolding string_body
read_string text start =
    when_found (string_body text start) (λ (body, rest, line). read string body rest line)
      (qasm_error unterminated_string (some start))

unfoldable pub read_equal : String → ℕ → Outcome Step
read_equal text line =
    if starts b'=' text then read symbol "==" (drop_one text) line else read symbol "=" text line

module _ (u : Classes) where
  unfoldable pub read_number : Char → String → ℕ → Outcome Step
  unfolding number_body
  read_number c text line =
      let whole = number_body u false false false (String.◌∷◌ c text) in
      read number whole.0 whole.1 line

  unfoldable pub read_word : Char → String → ℕ → Outcome Step
  unfolding word_body
  read_word c text line =
      let whole = word_body u (String.◌∷◌ c text) in read id whole.0 whole.1 line

  -- The cases behind the comments, the arrow, `=` and the strings.
  unfoldable pub read_plain : Char → String → ℕ → Outcome Step
  unfolding read_number read_word
  read_plain c text line =
      if u.is_digit c || (is c b'.' && digit_first u text)
      then read_number c text line
      else if u.is_alpha c || is c b'_'
      then read_word c text line
      else if is_any c ops
      then read op (single c) text line
      else if is_any c symbols
      then read symbol (single c) text line
      else qasm_error (unexpected_character c) (some line)

  unfoldable pub read_one : Char → String → ℕ → Outcome Step
  unfolding skip_line block_comment read_equal read_string read_plain
  read_one c text line =
      if is c newline
      then skipped text (suc line)
      else if u.is_space c
      then skipped text line
      else if is c b'/' && starts b'/' text
      then skipped (skip_line (drop_one text)) line
      else if is c b'/' && starts b'*' text
      then block_comment (drop_one text) line
      else if is c b'-' && starts b'>' text
      then read symbol "->" (drop_one text) line
      else if is c b'='
      then read_equal text line
      else if is c b'"'
      then read_string text line
      else read_plain c text line

  abbrev pub keep : Option Token → Cursor → Cursor
  keep none c = c
  keep (some tok) c = record c { tokens = tok ∷ c.tokens }

  unfoldable pub scan : ℕ → String → ℕ → Outcome Cursor
  unfolding read_one
  scan zero text line = out_of_fuel
  scan (suc fuel) String.[] line = ok (record { tokens = []; end_line = line })
  scan (suc fuel) (String.◌∷◌ c text) line =
      proceed (read_one c text line)
        λ step. proceed (scan fuel step.rest step.line) λ more. ok (keep step.token more)

  -- Each round consumes a character, so the fuel is one more than the text's length.
  unfoldable pub tokenize : String → Outcome Cursor
  unfolding scan
  tokenize text = scan (suc (size text)) text 1
