-- ===== src/Qasm2/Outcome.antt =====
-- What reading a source ends in: a value, a QASMError with its message and line, another Python
-- exception, or (in the model alone) fuel that ran out.
use Prim.Native.Char.{Char}
use dev_q.Prelude.{ℕ, String, Option, none, some, ◌≡◌, refl}

-- The messages of frontends/qasm2, with what they name.
pub data Problem : Type 0 where
  unexpected_character : Char → Problem
  unterminated_comment unterminated_string : Problem
  expected : (want got : String) → Problem
  division_by_zero invalid_power undefined_value : Problem
  unknown_name unexpected_in_expression : String → Problem
  version_expected no_qreg : Problem
  other_version : String → Problem
  unexpected_at_start : String → Problem
  opaque_gate : Problem
  no_positive_size : String → Problem
  already_declared : String → Problem
  unknown_qreg unknown_creg : String → Problem
  out_of_range : String → ℕ → Problem
  unterminated_body already_defined : String → Problem
  unknown_qubit : String → Problem
  sizes_disagree : String → Problem
  wrong_arity : String → Problem
  nested_too_deep : String → Problem
  unexpected_in_body : String → Problem
  measure_sizes : Problem
  unterminated_barrier : Problem

-- Python's own exceptions that the modelled code can raise.
pub data Fault : Type 0 where
  value_error overflow_error key_error index_error attribute_error : Fault

pub data Outcome (Value : Type 0) : Type 0 where
  ok : Value → Outcome Value
  qasm_error : Problem → Option ℕ → Outcome Value
  crash : Fault → Outcome Value
  out_of_fuel : Outcome Value

abbrev pub proceed : {Value Out : Type 0} → Outcome Value → (Value → Outcome Out) → Outcome Out
proceed (ok value) next = next value
proceed (qasm_error problem line) next = qasm_error problem line
proceed (crash fault) next = crash fault
proceed out_of_fuel next = out_of_fuel

abbrev pub or_crash : {Value : Type 0} → Option Value → Fault → Outcome Value
or_crash (some value) fault = ok value
or_crash none fault = crash fault

abbrev pub or_error : {Value : Type 0} → Option Value → Problem → ℕ → Outcome Value
or_error (some value) problem line = ok value
or_error none problem line = qasm_error problem (some line)

-- A method of an object of type `State`.
abbrev pub Method : Type 0 → Type 0 → Type 0
Method State Value = State → Outcome (Value × State)

abbrev pub give : {State Value : Type 0} → Value → Method State Value
give value state = ok (value, state)

abbrev pub error_at : {State Value : Type 0} → Problem → ℕ → Method State Value
error_at problem line state = qasm_error problem (some line)

-- A lookup's two cases.
abbrev pub when_found : {Value Out : Type 0} → Option Value → (Value → Out) → Out → Out
when_found (some value) found missing = found value
when_found none found missing = missing

infixl 5 ◌>>=◌ ◌>>◌
abbrev pub ◌>>=◌ :
    {State Value Out : Type 0} → Method State Value → (Value → Method State Out) → Method State Out
(call >>= next) state = proceed (call state) λ (value, state'). next value state'

abbrev pub ◌>>◌ :
    {State Value Out : Type 0} → Method State Value → Method State Out → Method State Out
call >> next = call >>= λ _. next

abbrev pub lift : {State Value : Type 0} → Outcome Value → Method State Value
lift outcome state = proceed outcome λ value. ok (value, state)

-- Reading that came back went through each of its calls.
pub proceed-eq-ok :
    {Value Out : Type 0} (call : Outcome Value) (next : Value → Outcome Out) {out : Out}
    → proceed call next ≡ ok out
    → (value : Value) × (call ≡ ok value) × (next value ≡ ok out)
proceed-eq-ok (ok value) next returned = (value, refl, returned)
proceed-eq-ok (qasm_error problem line) next returned = cc
proceed-eq-ok (crash fault) next returned = cc
proceed-eq-ok out_of_fuel next returned = cc
