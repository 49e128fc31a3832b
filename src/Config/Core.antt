-- ===== src/Config/Core.antt =====
-- The keys of DevQ itself (config/config_loader.py) and the stock validators (registry/keyspec.py).
use text.Mathlib.Text.{◌==◌}
use dev_q.Prelude as P
use dev_q.Prelude.{
  ℕ, zero, suc, ◌+◌, String, Bool, true, false, not, ◌&&◌, List, [], ◌∷◌, Option, none, some,
  if◌then◌else◌,
}
use dev_q.Numeric.{Float}
use dev_q.Dict.{insert}
use dev_q.Config.{
  Scope, device, global, common, Verdict, accepted, declined, raised, KeySpec, Specs,
}

-- A value that json.load gives. An integer below 0 is -(n + 1).
pub data Json (F : Type 0) : Type 0 where
  null : Json F
  boolean : Bool → Json F
  integer : ℕ → Json F
  negative_integer : ℕ → Json F
  real : F → Json F
  string : String → Json F
  compound : Json F

module _ {F : Type 0} ⦃fl : Float F⦄ where
  -- An int or a float, and no bool.
  unfoldable pub is_number : Json F → Bool
  is_number (integer n) = true
  is_number (negative_integer n) = true
  is_number (real x) = true
  is_number null = false
  is_number (boolean b) = false
  is_number (string s) = false
  is_number compound = false

  -- `float(value)` of a number; `none` where a huge int raises OverflowError.
  unfoldable pub as_float : Json F → Option F
  as_float (integer n) = fl.of_integer n
  as_float (negative_integer n) = elim (fl.of_integer (suc n)) [
    | none ↦ none
    | some x ↦ some (fl.minus (fl.decimal 0 0) x)
  ]
  as_float (real x) = some x
  as_float null = none
  as_float (boolean b) = none
  as_float (string s) = none
  as_float compound = none

  unfoldable pub non_negative : Json F → Verdict
  unfolding is_number as_float
  non_negative value =
      if is_number value
      then (elim (as_float value) [
        | none ↦ raised
        | some x ↦ if fl.less x (fl.decimal 0 0) then declined else accepted
      ])
      else declined

  unfoldable pub unit_interval : Json F → Verdict
  unfolding is_number as_float
  unit_interval value =
      if is_number value
      then (elim (as_float value) [
        | none ↦ raised
        | some x ↦
            if fl.at_most (fl.decimal 0 0) x && fl.at_most x (fl.decimal 1 0)
            then accepted
            else declined
      ])
      else declined

unfoldable pub positive_int : {F : Type 0} → Json F → Verdict
positive_int (integer n) = if P.◌==◌ n 0 then declined else accepted
positive_int (negative_integer n) = declined
positive_int (real x) = declined
positive_int null = declined
positive_int (boolean b) = declined
positive_int (string s) = declined
positive_int compound = declined

unfoldable pub is_name_of : List String → String → Bool
is_name_of [] name = false
is_name_of (known ∷ names) name = if known == name then true else is_name_of names name

-- `_in_registry`: one of the names that are registered.
unfoldable pub in_registry : {F : Type 0} → List String → Json F → Verdict
unfolding is_name_of
in_registry names (string name) = if is_name_of names name then accepted else declined
in_registry names null = declined
in_registry names (boolean b) = declined
in_registry names (integer n) = declined
in_registry names (negative_integer n) = declined
in_registry names (real x) = declined
in_registry names compound = declined

-- `KeySpec(scope, default, validate, label, normalise_group)`
abbrev pub key_spec :
    {F : Type 0} → Scope → Json F → (Json F → Verdict) → String → Option String → KeySpec (Json F)
key_spec scope default validate label normalise_group = record {
  scope = scope;
  default = default;
  validate = validate;
  label = label;
  normalise_group = normalise_group;
  runtime_read = false;
}

module _ {F : Type 0} ⦃fl : Float F⦄ where
  unfoldable pub core_specs : (schedulers allocators routers : List String) → Specs (Json F)
  unfolding in_registry positive_int unit_interval non_negative
  core_specs schedulers allocators routers =
      ("scheduler", key_spec device (string "packing") (in_registry schedulers) "Scheduler" none)
      ∷ (
        "allocator",
        key_spec device (string "noise_graph") (in_registry allocators) "Allocator" none,
      )
      ∷ ("shots", key_spec device (integer 1024) positive_int "Shots" none)
      ∷ ("router", key_spec global (string "noise") (in_registry routers) "Router" none)
      ∷ (
        "router_queue_weight",
        key_spec global (real (fl.decimal 5 1)) unit_interval "Router queue weight"
            (some "router_blend"),
      )
      ∷ (
        "router_noise_weight",
        key_spec global (real (fl.decimal 5 1)) unit_interval "Router noise weight"
            (some "router_blend"),
      )
      ∷ (
        "qubit_error_weight",
        key_spec common (real (fl.decimal 1 1)) non_negative "Qubit error weight"
            (some "noise_cost"),
      )
      ∷ (
        "edge_error_weight",
        key_spec common (real (fl.decimal 9 1)) non_negative "Edge error weight"
            (some "noise_cost"),
      )
      ∷ []

-- `_CORE_GROUPS`
unfoldable pub core_groups : List (String × List String)
core_groups =
    ("noise_cost", "qubit_error_weight" ∷ "edge_error_weight" ∷ [])
    ∷ ("router_blend", "router_queue_weight" ∷ "router_noise_weight" ∷ [])
    ∷ []

-- `dict(plugins).update(core)`, for the specs and for the groups.
unfoldable pub updated : {V : Type 0} → List (String × V) → List (String × V) → List (String × V)
unfolding insert
updated plugins [] = plugins
updated plugins ((key, value) ∷ rest) = updated (insert key value plugins) rest
