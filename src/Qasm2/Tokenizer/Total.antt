-- ===== src/Qasm2/Tokenizer/Total.antt =====
-- frontends/qasm2/tokenizer.py: the end of `tokenize`, by what each round of its loop leaves.
use Prim.Native.Char.{Char}
use dev_q.Prelude.{
  ℕ, zero, suc, ◌≤◌, ◌<◌, String, Bool, true, false, ◌&&◌, ◌||◌, Option, none, some, ◌≡◌, subst,
  arith, if◌then◌else◌,
}
use dev_q.Qasm2.Outcome.{Outcome}
use dev_q.Qasm2.Python.{Classes, IsPython}
use dev_q.Qasm2.Tokenizer.{
  size, is, newline, starts, drop_one, is_any, skip_line, skip_block, count_line, string_body,
  number_body, word_body, digit_first, Step, block_comment, read_string, read_equal, read_number,
  read_word, read_plain, ops, symbols, read_one, scan, tokenize,
}
use dev_q.Qasm2.Ends.{Ends, returned, refused, Ends-if, Ends-proceed, Ends-found, Ends-weaken}

drop_one-le : (text : String) → size (drop_one text) ≤ size text
drop_one-le String.[] = omega arith
drop_one-le (String.◌∷◌ c text) = omega arith

skip_line-le : (text : String) → size (skip_line text) ≤ size text
unfolding skip_line
skip_line-le String.[] = omega arith
skip_line-le (String.◌∷◌ c text) = ground (arith, skip_line-le text)

skip_block-le :
    (text : String) (line : ℕ) (r : String × ℕ)
    → skip_block text line ≡ some r
    → size r.0 ≤ size text
unfolding skip_block
skip_block-le String.[] line r h = cc
skip_block-le (String.◌∷◌ c text) line r h =
    ground (arith, skip_block-le text (count_line c line) r, drop_one-le text)

abbrev Behind : ℕ → Option (String × String × ℕ) → Type 0
Behind n none = Unit {0}
Behind n (some r) = size r.1 ≤ n

string_body-Behind : (text : String) (line : ℕ) → Behind (size text) (string_body text line)
unfolding string_body
string_body-Behind String.[] line = tt
string_body-Behind (String.◌∷◌ c text) line =
    quote_cases (is c b'"') (string_body text (count_line c line))
      (string_body-Behind text (count_line c line))
  where
    quote_cases :
        (test : Bool) (inside : Option (String × String × ℕ))
        → Behind (size text) inside
        → Behind (suc (size text)) (
            if test then some ("", text, line) else elim inside [
              | none ↦ none
              | some (body, rest, end_line) ↦ some (String.◌∷◌ c body, rest, end_line)
            ])
    quote_cases true inside h = omega arith
    quote_cases false none h = tt
    quote_cases false (some r) h = omega arith

module _ (u : Classes) where
  number_body-le :
      (seen_dot seen_exp signed : Bool) (text : String)
      → size (number_body u seen_dot seen_exp signed text).1 ≤ size text
  unfolding number_body
  number_body-le seen_dot seen_exp signed String.[] = omega arith
  number_body-le seen_dot seen_exp signed (String.◌∷◌ c text) = ground (
    arith,
    number_body-le seen_dot seen_exp false text,
    number_body-le true seen_exp false text,
    number_body-le seen_dot true true text,
  )

  word_body-le : (text : String) → size (word_body u text).1 ≤ size text
  unfolding word_body
  word_body-le String.[] = omega arith
  word_body-le (String.◌∷◌ c text) = ground (arith, word_body-le text)

-- A round leaves at most the text behind its first character.
abbrev Shorter : String → Step → Type 0
Shorter text step = size step.rest ≤ size text

module _ (u : Classes) where
  read_number-Shorter :
      (c : Char) (text : String) (line : ℕ)
      → (u.is_digit c || (is c b'.' && digit_first u text)) ≡ true
      → Ends (Shorter text) (read_number u c text line)
  unfolding read_number number_body
  read_number-Shorter c text line h = returned _ (
      ground (
        arith,
        number_body-le u false false false text,
        number_body-le u true false false text,
        number_body-le u false true true text,
      ))

  read_word-Shorter :
      (c : Char) (text : String) (line : ℕ)
      → IsPython u
      → (u.is_alpha c || is c b'_') ≡ true
      → Ends (Shorter text) (read_word u c text line)
  unfolding read_word word_body
  read_word-Shorter c text line python h =
      returned _ (ground (arith, word_body-le u text, python.alnum c))

  read_plain-Shorter :
      (c : Char) (text : String) (line : ℕ)
      → IsPython u
      → Ends (Shorter text) (read_plain u c text line)
  unfolding read_plain
  read_plain-Shorter c text line python =
      Ends-if (u.is_digit c || (is c b'.' && digit_first u text)) _ _
        (λ t. read_number-Shorter c text line t)
        λ t.
          Ends-if (u.is_alpha c || is c b'_') _ _ (λ t. read_word-Shorter c text line python t)
            λ t.
              Ends-if (is_any c ops) _ _ (λ t. returned _ (omega arith))
                λ t.
                  Ends-if (is_any c symbols) _ _ (λ t. returned _ (omega arith)) (λ t. refused _ _)

block_comment-Shorter : (text : String) (line : ℕ) → Ends (Shorter text) (block_comment text line)
unfolding block_comment
block_comment-Shorter text line =
    Ends-found (skip_block text line) _ _ (λ r e. returned _ (skip_block-le text line r e))
      (λ e. refused _ _)

read_string-Shorter : (text : String) (line : ℕ) → Ends (Shorter text) (read_string text line)
unfolding read_string
read_string-Shorter text line =
    Ends-found (string_body text line) _ _
      (λ r e. returned _ (subst (Behind (size text)) e (string_body-Behind text line)))
      (λ e. refused _ _)

Shorter-drop :
    (text : String) (o : Outcome Step) → Ends (Shorter (drop_one text)) o → Ends (Shorter text) o
Shorter-drop text o h = Ends-weaken _ o (λ step q. omega (arith, drop_one-le text)) h

read_equal-Shorter : (text : String) (line : ℕ) → Ends (Shorter text) (read_equal text line)
unfolding read_equal
read_equal-Shorter text line =
    Ends-if (starts b'=' text) _ _ (λ t. returned _ (drop_one-le text))
      (λ t. returned _ (omega arith))

module _ (u : Classes) (python : IsPython u) where
  read_one-Shorter :
      (c : Char) (text : String) (line : ℕ) → Ends (Shorter text) (read_one u c text line)
  unfolding read_one
  read_one-Shorter c text line =
      Ends-if (is c newline) _ _ (λ t. returned _ (omega arith))
        λ t.
          Ends-if (u.is_space c) _ _ (λ t. returned _ (omega arith))
            λ t.
              Ends-if (is c b'/' && starts b'/' text) _ _
                (λ t. returned _ (omega (arith, skip_line-le (drop_one text), drop_one-le text)))
                λ t.
                  Ends-if (is c b'/' && starts b'*' text) _ _
                    (λ t. Shorter-drop text _ (block_comment-Shorter (drop_one text) line))
                    λ t.
                      Ends-if (is c b'-' && starts b'>' text) _ _
                        (λ t. returned _ (drop_one-le text))
                        λ t.
                          Ends-if (is c b'=') _ _ (λ t. read_equal-Shorter text line)
                            λ t.
                              Ends-if (is c b'"') _ _ (λ t. read_string-Shorter text line)
                                (λ t. read_plain-Shorter u c text line python)

  scan-Ends :
      (fuel : ℕ) (text : String) (line : ℕ)
      → size text < fuel
      → Ends (λ c. Unit {0}) (scan u fuel text line)
  unfolding scan
  scan-Ends zero text line h = elim h [ ]
  scan-Ends (suc fuel) String.[] line h = returned _ tt
  scan-Ends (suc fuel) (String.◌∷◌ c text) line h =
      Ends-proceed _ _ _ (read_one-Shorter c text line) λ step short.
        Ends-proceed _ _ _ (scan-Ends fuel step.rest step.line (omega arith))
          λ more q. returned _ tt

  pub tokenize-Ends : (text : String) → Ends (λ c. Unit {0}) (tokenize u text)
  unfolding tokenize
  tokenize-Ends text = scan-Ends (suc (size text)) text 1 (omega arith)
