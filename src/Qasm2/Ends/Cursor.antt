-- ===== src/Qasm2/Ends/Cursor.antt =====
-- Steps of the TokenCursor (frontends/qasm2/parser.py): how many tokens they take.
use dev_q.Prelude.{ℕ, ◌+◌, ◌≤◌, String, true, false, ◌||◌, List, [], ◌∷◌, ◌≡◌, length, arith}
use dev_q.Qasm2.Outcome.{Outcome, Fault, proceed}
use dev_q.Qasm2.Tokens.{
  Kind, number, id, string, symbol, op, eof, Token, Cursor, is_kind, at_op, at_symbol, first_or,
  rest_of, expect_kind, expect_symbol,
}
use dev_q.Qasm2.Ends.{EndsBy, returned, refused, Ends-choice, Ends-proceed, Ends-weaken}

abbrev pub left : Cursor → ℕ
left c = length c.tokens

-- Of `n` tokens the step consumed `k` at least.
abbrev pub Consumed : {Value : Type 0} → ℕ → ℕ → Value × Cursor → Type 0
Consumed k n r = left r.1 + k ≤ n

pub rest-le : (ts : List Token) → length (rest_of ts) ≤ length ts
rest-le [] = omega arith
rest-le (tok ∷ ts) = omega arith

module _ (ts : List Token) (line : ℕ) where
  -- Behind a token that is no EOF one token less is left.
  pub rest_of_kind :
      (k : Kind)
      → is_kind k eof ≡ false
      → is_kind (first_or ts line).kind k ≡ true
      → length (rest_of ts) + 1 ≤ length ts
  rest_of_kind k n h = kind_cases ts k n h
    where
      kind_cases :
          (us : List Token) (j : Kind)
          → is_kind j eof ≡ false
          → is_kind (first_or us line).kind j ≡ true
          → length (rest_of us) + 1 ≤ length us
      kind_cases (tok ∷ us) j n' h' = omega arith
      kind_cases [] number n' h' = cc
      kind_cases [] id n' h' = cc
      kind_cases [] string n' h' = cc
      kind_cases [] symbol n' h' = cc
      kind_cases [] op n' h' = cc
      kind_cases [] eof n' h' = cc

pub rest_of_symbol :
    (value : String) (ts : List Token) (line : ℕ)
    → at_symbol value (first_or ts line) ≡ true
    → length (rest_of ts) + 1 ≤ length ts
rest_of_symbol value [] line h = cc
rest_of_symbol value (tok ∷ ts) line h = omega arith

pub rest_of_op :
    (value : String) (ts : List Token) (line : ℕ)
    → at_op value (first_or ts line) ≡ true
    → length (rest_of ts) + 1 ≤ length ts
rest_of_op value [] line h = cc
rest_of_op value (tok ∷ ts) line h = omega arith

pub rest_of_either_op :
    (value other : String) (ts : List Token) (line : ℕ)
    → (at_op value (first_or ts line) || at_op other (first_or ts line)) ≡ true
    → length (rest_of ts) + 1 ≤ length ts
rest_of_either_op value other [] line h = cc
rest_of_either_op value other (tok ∷ ts) line h = omega arith

pub rest_of_no_end :
    (ts : List Token) (line : ℕ)
    → is_kind (first_or ts line).kind eof ≡ false
    → length (rest_of ts) + 1 ≤ length ts
rest_of_no_end [] line h = cc
rest_of_no_end (tok ∷ ts) line h = omega arith

module _ {Value : Type 0} {E : Fault → Type 0} (o : Outcome (Value × Cursor)) where
  -- One step and another on what it leaves.
  pub Consumed-then :
      {Out : Type 0} (i j k n n' : ℕ) (next : Value × Cursor → Outcome (Out × Cursor))
      → EndsBy E (Consumed j n') o
      → ((r : Value × Cursor) → Consumed j n' r → EndsBy E (Consumed i (left r.1)) (next r))
      → k + n' ≤ n + i + j
      → EndsBy E (Consumed k n) (proceed o next)
  Consumed-then i j k n n' next h f le =
      Ends-proceed (Consumed k n) o next h
        λ r q. Ends-weaken (Consumed k n) (next r) (λ r' q'. omega arith) (f r q)

  pub Consumed-weaken :
      (j k n n' : ℕ) → EndsBy E (Consumed j n') o → k + n' ≤ n + j → EndsBy E (Consumed k n) o
  Consumed-weaken j k n n' h le = Ends-weaken (Consumed k n) o (λ r q. omega arith) h

pub expect_symbol-Consumed :
    {E : Fault → Type 0} (value : String) (c : Cursor)
    → EndsBy E (Consumed 1 (left c)) (expect_symbol value c)
unfolding expect_symbol
expect_symbol-Consumed value c =
    Ends-choice (at_symbol value (first_or c.tokens c.end_line)) _ _ c
      (λ h. returned _ (rest_of_symbol value c.tokens c.end_line h)) (λ h. refused _ _)

pub expect_kind-Consumed :
    {E : Fault → Type 0} (k : Kind) (c : Cursor)
    → is_kind k eof ≡ false
    → EndsBy E (Consumed 1 (left c)) (expect_kind k c)
unfolding expect_kind
expect_kind-Consumed k c n =
    Ends-choice (is_kind (first_or c.tokens c.end_line).kind k) _ _ c
      (λ h. returned _ (rest_of_kind c.tokens c.end_line k n h)) (λ h. refused _ _)
