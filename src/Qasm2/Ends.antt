-- ===== src/Qasm2/Ends.antt =====
-- What reading must not do: run out of fuel, or raise a Python exception that is neither a QASMError
-- nor one that float() or int() raises on a literal, or list() on the range of a size that a literal
-- gives. A returned value has a given property.
pub mod Cursor
use dev_q.Prelude.{
  ℕ, String, Bool, true, false, Option, none, some, ◌≡◌, ◌≢◌, refl, if◌then◌else◌, Bool-cases, inl,
  inr,
}
use dev_q.Qasm2.Outcome.{
  when_found, lift, Outcome, ok, qasm_error, crash, out_of_fuel, proceed, or_error, or_crash,
  Problem, Fault, value_error, overflow_error,
}

pub data IsLiteralFault : Fault → Type 0 where
  no_number : IsLiteralFault value_error
  infinite : IsLiteralFault overflow_error

-- What float() alone raises on a literal.
pub data IsNumberFault : Fault → Type 0 where
  unreadable : IsNumberFault value_error

pub data EndsBy {Value : Type 0} (E : Fault → Type 0) (Q : Value → Type 0)
    : Outcome Value → Type 0 where
  returned : (value : Value) → Q value → EndsBy E Q (ok value)
  refused : (problem : Problem) (line : Option ℕ) → EndsBy E Q (qasm_error problem line)
  faulted : (fault : Fault) → E fault → EndsBy E Q (crash fault)

-- The same for the whole of the frontend.
abbrev pub Ends : {Value : Type 0} → (Value → Type 0) → Outcome Value → Type 0
Ends Q o = EndsBy IsLiteralFault Q o

module _ {Value : Type 0} {E : Fault → Type 0} {Q : Value → Type 0} where
  pub Ends-ne-out_of_fuel : (o : Outcome Value) → EndsBy E Q o → o ≢ out_of_fuel
  Ends-ne-out_of_fuel _ (returned value q) same = cc
  Ends-ne-out_of_fuel _ (refused problem line) same = cc
  Ends-ne-out_of_fuel _ (faulted fault f) same = cc

  pub Ends-ok : (value : Value) → EndsBy E Q (ok value) → Q value
  Ends-ok value (returned _ q) = q

  pub Ends-crash : (fault : Fault) → EndsBy E Q (crash fault) → E fault
  Ends-crash fault (faulted _ f) = f

  pub Ends-if :
      (test : Bool) (yes_case no_case : Outcome Value)
      → (test ≡ true → EndsBy E Q yes_case)
      → (test ≡ false → EndsBy E Q no_case)
      → EndsBy E Q (if test then yes_case else no_case)
  Ends-if true yes_case no_case y n = y refl
  Ends-if false yes_case no_case y n = n refl

  -- The same for a choice between two methods.
  pub Ends-choice :
      {State : Type 0} (test : Bool) (yes_case no_case : State → Outcome Value) (s : State)
      → (test ≡ true → EndsBy E Q (yes_case s))
      → (test ≡ false → EndsBy E Q (no_case s))
      → EndsBy E Q ((if test then yes_case else no_case) s)
  Ends-choice true yes_case no_case s y n = y refl
  Ends-choice false yes_case no_case s y n = n refl

  pub Ends-when_found :
      {State Key : Type 0} (o : Option Key) (found : Key → State → Outcome Value)
      (missing : State → Outcome Value) (s : State)
      → ((k : Key) → o ≡ some k → EndsBy E Q (found k s))
      → (o ≡ none → EndsBy E Q (missing s))
      → EndsBy E Q (when_found o found missing s)
  Ends-when_found (some k) found missing s f n = f k refl
  Ends-when_found none found missing s f n = n refl

  pub Ends-found :
      {Key : Type 0} (o : Option Key) (found : Key → Outcome Value) (missing : Outcome Value)
      → ((k : Key) → o ≡ some k → EndsBy E Q (found k))
      → (o ≡ none → EndsBy E Q missing)
      → EndsBy E Q (when_found o found missing)
  Ends-found (some k) found missing f n = f k refl
  Ends-found none found missing f n = n refl

  pub Ends-proceed :
      {Out : Type 0} (P : Out → Type 0) (o : Outcome Value) (next : Value → Outcome Out)
      → EndsBy E Q o
      → ((value : Value) → Q value → EndsBy E P (next value))
      → EndsBy E P (proceed o next)
  Ends-proceed P _ next (returned value q) k = k value q
  Ends-proceed P _ next (refused problem line) k = refused problem line
  Ends-proceed P _ next (faulted fault f) k = faulted fault f

  -- What a lifted outcome is handed on to.
  pub Ends-lift :
      {State Out : Type 0} (P : Out → Type 0) (o : Outcome Value) (state : State)
      (next : Value × State → Outcome Out)
      → EndsBy E Q o
      → ((value : Value) → Q value → EndsBy E P (next (value, state)))
      → EndsBy E P (proceed (lift o state) next)
  Ends-lift P _ state next (returned value q) k = k value q
  Ends-lift P _ state next (refused problem line) k = refused problem line
  Ends-lift P _ state next (faulted fault f) k = faulted fault f

  pub Ends-weaken :
      (P : Value → Type 0) (o : Outcome Value)
      → ((value : Value) → Q value → P value)
      → EndsBy E Q o
      → EndsBy E P o
  Ends-weaken P _ k (returned value q) = returned value (k value q)
  Ends-weaken P _ k (refused problem line) = refused problem line
  Ends-weaken P _ k (faulted fault f) = faulted fault f

module _ {Value : Type 0} {E : Fault → Type 0} where
  pub Ends-or_error :
      (o : Option Value) (problem : Problem) (line : ℕ)
      → EndsBy E (λ _. Unit {0}) (or_error o problem line)
  Ends-or_error (some value) problem line = returned value tt
  Ends-or_error none problem line = refused problem (some line)

  pub Ends-or_crash :
      (o : Option Value) (fault : Fault) → E fault → EndsBy E (λ _. Unit {0}) (or_crash o fault)
  Ends-or_crash (some value) fault f = returned value tt
  Ends-or_crash none fault f = faulted fault f

  -- A lookup that finds its key raises nothing.
  pub Ends-found_key :
      (o : Option Value) (fault : Fault) → o ≢ none → EndsBy E (λ _. Unit {0}) (or_crash o fault)
  Ends-found_key (some value) fault h = returned value tt
  Ends-found_key none fault h = absurd (h refl)

-- float() on a literal is one of the calls that the frontend makes on literals.
pub EndsBy-Ends :
    {Value : Type 0} {Q : Value → Type 0} (o : Outcome Value) → EndsBy IsNumberFault Q o → Ends Q o
EndsBy-Ends _ (returned value q) = returned value q
EndsBy-Ends _ (refused problem line) = refused problem line
EndsBy-Ends _ (faulted fault unreadable) = faulted fault no_number
