-- ===== src/Errors.antt =====
-- Python's exceptions that the modelled code can raise, as values.
use dev_q.Prelude.{Option, none, some, ◌≡◌, refl, ap}

pub data Exception : Type 0 where
  index_error value_error key_error type_error : Exception
  -- kernel/memory/memory_manager.py: AllocatorContractError
  allocator_contract_error : Exception
  -- kernel/router/base_router.py: RouterContractError
  router_contract_error : Exception
  -- Any exception of an allocator other than AllocationError.
  allocator_bug : Exception

pub data Result {ℓ} (Value : Type ℓ) : Type ℓ where
  raise : Exception → Result Value
  ok : Value → Result Value

-- A value that the source takes for granted: a missing one raises `e`.
abbrev pub or_raise {ℓ} : {Value : Type ℓ} → Option Value → Exception → Result Value
or_raise (some value) e = ok value
or_raise none e = raise e

-- The rest of the code, which an exception skips.
infixl 5 ◌>>=◌
abbrev pub ◌>>=◌ {ℓ κ} :
    {Value : Type ℓ} {Out : Type κ} → Result Value → (Value → Result Out) → Result Out
raise exception >>= next = raise exception
ok value >>= next = next value

abbrev pub value_or {ℓ} : {Value : Type ℓ} → Value → Result Value → Value
value_or default (raise exception) = default
value_or default (ok value) = value

pub ok-injective {ℓ} : {Value : Type ℓ} {x y : Value} → ok x ≡ ok y → x ≡ y
ok-injective {x = x} same = ap (value_or x) same

-- Code that returned went through each of its calls.
pub >>=-eq-ok {ℓ κ} :
    {Value : Type ℓ} {Out : Type κ} (call : Result Value) (next : Value → Result Out) {out : Out}
    → (call >>= next) ≡ ok out
    → (value : Value) × (call ≡ ok value) × (next value ≡ ok out)
>>=-eq-ok (raise exception) next returned = cc
>>=-eq-ok (ok value) next returned = (value, refl, returned)
