-- ===== src/Qasm2/Parser/Layout.antt =====
-- The flattened index space: the declared registers follow one another with no gap.
use text.Mathlib.Text.{◌==◌}
use text.Mathlib.TextEquality.{eq_iff}
use dev_q.Prelude.{
  ℕ, zero, suc, ◌+◌, ◌≤◌, ◌<◌, String, Bool, true, false, List, [], ◌∷◌, Option, none, some, ◌≡◌,
  ◌≢◌, refl, subst, ap, length, All, All-map, arith, if◌then◌else◌, Bool-cases, inl, inr,
}
use dev_q.Dict.{lookup, has, insert, fill}
use dev_q.Qasm2.Parser.{Registers, span}

-- No register has the name.
abbrev pub IsFresh : String → Registers → Type 0
IsFresh name = All (λ e. (e.0 == name) ≡ false)

-- From `start` on, each register begins where the one before it ends, the last ends at `total`, and
-- no two have the same name.
abbrev pub IsLaidOut : ℕ → Registers → ℕ → Type 0
IsLaidOut start [] total = start ≡ total
IsLaidOut start ((name, (base, size)) ∷ rest) total =
    (base ≡ start) × (0 < size) × IsFresh name rest × IsLaidOut (start + size) rest total

pub start-le : (start : ℕ) (rs : Registers) (total : ℕ) → IsLaidOut start rs total → start ≤ total
start-le start [] total h = omega arith
start-le start ((name, (base, size)) ∷ rest) total (e, pos, d, h) =
    omega (arith, start-le (start + size) rest total h)

abbrev pub Below : ℕ → List ℕ → Type 0
Below n = All (λ q. q < n)

pub Below-weaken : (n k : ℕ) (qs : List ℕ) → n ≤ k → Below n qs → Below k qs
Below-weaken n k qs le h = All-map (λ q. q < n) (λ q. q < k) qs (λ q lt. omega arith) h

-- A register lies within the space, and is not empty.
abbrev pub IsWithin : ℕ → ℕ × ℕ → Type 0
IsWithin total (base, size) = (base + size ≤ total) × (0 < size)

IsFresh-insert :
    (other name : String) (register : ℕ × ℕ) (rs : Registers)
    → IsFresh other rs
    → (name == other) ≡ false
    → IsFresh other (insert name register rs)
unfolding insert
IsFresh-insert other name register [] h n = (n, tt)
IsFresh-insert other name register ((first, old) ∷ rest) h n = elim (Bool-cases (first == name)) [
  | inl same ↦ rw same (h.0, h.1)
  | inr more ↦ rw more (h.0, IsFresh-insert other name register rest h.1 n)
]

pub IsLaidOut-insert :
    (start : ℕ) (rs : Registers) (total : ℕ) (name : String) (size : ℕ)
    → IsLaidOut start rs total
    → 0 < size
    → has name rs ≡ false
    → IsLaidOut start (insert name (total, size) rs) (total + size)
unfolding has insert
IsLaidOut-insert start [] total name size e pos fresh = (sym e, pos, tt, omega arith)
  where
    sym : {a b : ℕ} → a ≡ b → b ≡ a
    sym h = omega arith
IsLaidOut-insert start ((other, (base, width)) ∷ rest) total name size (e, p, d, h) pos fresh =
    insert_cases (other == name) fresh
      (λ apart.
        IsFresh-insert other name (total, size) rest d
          (ground (arith, eq_iff other name, eq_iff name other, apart)))
      (IsLaidOut-insert (start + width) rest total name size h pos)
  where
    insert_cases :
        (test : Bool)
        → (if test then true else has name rest) ≡ false
        → (test ≡ false → IsFresh other (insert name (total, size) rest))
        → (has name rest ≡ false
            → IsLaidOut (start + width) (insert name (total, size) rest) (total + size))
        → IsLaidOut start
            (if test
              then (other, (total, size)) ∷ rest
              else (other, (base, width)) ∷ insert name (total, size) rest)
            (total + size)
    insert_cases true f new ih = cc
    insert_cases false f new ih = (e, p, new refl, ih f)

pub lookup-IsWithin :
    (name : String) (start : ℕ) (rs : Registers) (total : ℕ) (r : ℕ × ℕ)
    → IsLaidOut start rs total
    → lookup name rs ≡ some r
    → IsWithin total r
unfolding lookup
lookup-IsWithin name start [] total r e found = cc
lookup-IsWithin name start ((other, (base, size)) ∷ rest) total r (e, pos, d, h) found =
    lookup_cases (other == name) found (lookup-IsWithin name (start + size) rest total r h)
  where
    lookup_cases :
        (test : Bool)
        → (if test then some (base, size) else lookup name rest) ≡ some r
        → (lookup name rest ≡ some r → IsWithin total r)
        → IsWithin total r
    lookup_cases true f ih = ground (arith, start-le (start + size) rest total h)
    lookup_cases false f ih = ih f

pub span-Below : (base size n : ℕ) → base + size ≤ n → Below n (span base size)
unfolding span
span-Below base zero n h = tt
span-Below base (suc size) n h = (omega arith, span-Below (suc base) size n (omega arith))

pub length-span : (base size : ℕ) → length (span base size) ≡ size
unfolding span
length-span base zero = refl
length-span base (suc size) = omega (arith, length-span (suc base) size)

some-injective : {A : Type 0} (x y : A) → some x ≡ some y → x ≡ y
some-injective {A} x y e = ap (content x) e
  where
    content : A → Option A → A
    content default none = default
    content default (some a) = a

-- The values of a dict that `zip` fills.
module _ {Value : Type 0} (P : Value → Type 0) where
  abbrev pub Values : List (String × Value) → Type 0
  Values = All (λ entry. P entry.1)

  insert-Values :
      (key : String) (value : Value) (d : List (String × Value))
      → P value
      → Values d
      → Values (insert key value d)
  unfolding insert
  insert-Values key value [] v h = (v, tt)
  insert-Values key value ((name, old) ∷ rest) v h =
      insert_cases (name == key) (insert-Values key value rest v h.1)
    where
      insert_cases :
          (test : Bool)
          → Values (insert key value rest)
          → Values (if test then (name, value) ∷ rest else (name, old) ∷ insert key value rest)
      insert_cases true ih = (v, h.1)
      insert_cases false ih = (h.0, ih)

  pub fill-Values :
      (d : List (String × Value)) (names : List String) (values : List Value)
      → Values d
      → All P values
      → Values (fill d names values)
  unfolding fill
  fill-Values d [] values h vs = h
  fill-Values d (name ∷ names) [] h vs = h
  fill-Values d (name ∷ names) (value ∷ values) h vs =
      fill-Values (insert name value d) names values (insert-Values name value d vs.0 h) vs.1

  pub lookup-Values :
      (key : String) (d : List (String × Value)) (value : Value)
      → Values d
      → lookup key d ≡ some value
      → P value
  unfolding lookup
  lookup-Values key [] value h found = cc
  lookup-Values key ((name, old) ∷ rest) value h found =
      lookup_cases (name == key) found (lookup-Values key rest value h.1)
    where
      lookup_cases :
          (test : Bool)
          → (if test then some old else lookup key rest) ≡ some value
          → (lookup key rest ≡ some value → P value)
          → P value
      lookup_cases true f ih = subst P (some-injective old value f) h.0
      lookup_cases false f ih = ih f

pub has-lookup :
    {Value : Type 0} (key : String) (d : List (String × Value))
    → has key d ≡ true
    → lookup key d ≢ none
unfolding has lookup
has-lookup key [] h = cc
has-lookup key ((name, old) ∷ rest) h = ground (arith, has-lookup key rest)
