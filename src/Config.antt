-- ===== src/Config.antt =====
-- config/config_loader.py: the cascade of configuration levels, and the scaling of weight groups.
-- A configuration file, as json reads it, and a provider's preferences are dicts that are given.
pub mod Cascade
pub mod Core
pub mod Keys
use text.Mathlib.Text.{◌==◌}
use dev_q.Prelude.{
  ℕ, suc, ◌+◌, String, Bool, true, false, List, [], ◌∷◌, Option, none, some, if◌then◌else◌, length,
  ltb,
}
use dev_q.Numeric.{Float}
use dev_q.Errors.{Result, ok, raise, ◌>>=◌, or_raise, value_error, key_error}
use dev_q.Dict.{lookup, has, insert}

-- registry/keyspec.py: SCOPES
pub data Scope : Type 0 where
  device global common : Scope

-- What a validator does: it returns None, or a message, or raises.
pub data Verdict : Type 0 where
  accepted declined raised : Verdict

pub record KeySpec (V : Type 0) : Type 0 where
  pub scope : Scope
  pub default : V
  pub validate : V → Verdict
  pub label : String
  pub normalise_group : Option String
  pub runtime_read : Bool

-- The labels of the provenance.
pub data Source : Type 0 where
  core : Source
  provider : String → Source
  user_global : Source
  user_device : (index : ℕ) → Source

-- The scope that is resolved: `load_global` skips device keys, and `load_device` global keys.
pub data Level : Type 0 where
  global_level device_level : Level

unfoldable pub sees : Level → Scope → Bool
sees global_level device = false
sees global_level _ = true
sees device_level global = false
sees device_level _ = true

abbrev pub Specs : Type 0 → Type 0
Specs V = List (String × KeySpec V)

-- A level's dict, with the label of its source.
pub record Settings (V : Type 0) : Type 0 where
  pub source : Source
  pub values : List (String × V)

pub record Resolved (V : Type 0) : Type 0 where
  pub config : List (String × V)
  pub provenance : List (String × Source)

-- `message is None`, with no exception.
unfoldable pub is_accepted : Verdict → Bool
is_accepted accepted = true
is_accepted declined = false
is_accepted raised = false

module _ {V : Type 0} where
  -- `{k: s.default for k, s in specs.items() if s.scope in ...}`
  unfoldable pub core_config : Level → Specs V → List (String × V)
  unfolding sees
  core_config level [] = []
  core_config level ((key, spec) ∷ rest) =
      let others = core_config level rest in
      if sees level spec.scope then (key, spec.default) ∷ others else others

  unfoldable pub core_provenance : List (String × V) → List (String × Source)
  core_provenance [] = []
  core_provenance ((key, value) ∷ rest) = (key, core) ∷ core_provenance rest

  unfoldable pub core_resolved : Level → Specs V → Resolved V
  unfolding core_config core_provenance
  core_resolved level specs = record {
    config = core_config level specs;
    provenance = core_provenance (core_config level specs);
  }

  -- An unknown key, a message and an exception each leave a warning and `False`.
  unfoldable pub validate_key_value : Specs V → String → V → Bool
  unfolding lookup is_accepted
  validate_key_value specs key value = elim (lookup key specs) [
    | none ↦ false
    | some spec ↦ is_accepted (spec.validate value)
  ]

  -- `spec is not None and spec.scope == ...`: the other scope's keys are skipped.
  unfoldable pub is_foreign : Level → Specs V → String → Bool
  unfolding lookup sees
  is_foreign level specs key = elim (lookup key specs) [
    | none ↦ false
    | some spec ↦ if sees level spec.scope then false else true
  ]

  unfoldable pub assign : Source → String → V → Resolved V → Resolved V
  unfolding insert
  assign source key value r = record {
    config = insert key value r.config;
    provenance = insert key source r.provenance;
  }

  unfoldable pub apply_setting : Level → Specs V → Source → String → V → Resolved V → Resolved V
  unfolding is_foreign validate_key_value assign
  apply_setting level specs source key value r =
      if is_foreign level specs key
      then r
      else if validate_key_value specs key value
      then assign source key value r
      else r

  -- `for key, val in ...items()`
  unfoldable pub apply_values :
      Level → Specs V → Source → List (String × V) → Resolved V → Resolved V
  unfolding apply_setting
  apply_values level specs source [] r = r
  apply_values level specs source ((key, value) ∷ rest) r =
      apply_values level specs source rest (apply_setting level specs source key value r)

  unfoldable pub apply_levels : Level → Specs V → List (Settings V) → Resolved V → Resolved V
  unfolding apply_values
  apply_levels level specs [] r = r
  apply_levels level specs (s ∷ rest) r =
      apply_levels level specs rest (apply_values level specs s.source s.values r)

module _ {F V : Type 0} ⦃fl : Float F⦄ (to_float : V → Option F) (of_float : F → V) where
  -- `[float(config[m]) for m in members]`
  unfoldable pub floats_of : List (String × V) → List String → Result (List F)
  unfolding lookup
  floats_of config [] = ok []
  floats_of config (m ∷ members) = do
    value ← or_raise (lookup m config) key_error
    x ← or_raise (to_float value) value_error
    xs ← floats_of config members
    ok (x ∷ xs)

  unfoldable pub sum_from : F → List F → F
  sum_from total [] = total
  sum_from total (x ∷ xs) = sum_from (fl.plus total x) xs

  unfoldable pub revert : Specs V → List String → Resolved V → Result (Resolved V)
  unfolding lookup assign
  revert specs [] r = ok r
  revert specs (m ∷ members) r = do
    spec ← or_raise (lookup m specs) key_error
    revert specs members (assign core m spec.default r)

  unfoldable pub scale : F → List String → List F → List (String × V) → List (String × V)
  unfolding insert
  scale total [] values config = config
  scale total (m ∷ members) [] config = config
  scale total (m ∷ members) (x ∷ values) config =
      scale total members values (insert m (of_float (fl.divide x total)) config)

  unfoldable pub normalise : Specs V → List String → Resolved V → Result (Resolved V)
  unfolding floats_of sum_from revert scale
  normalise specs members r = do
    values ← floats_of r.config members
    let total = sum_from (fl.decimal 0 0) values
    if fl.at_most total (fl.decimal 0 0)
        then revert specs members r
        else ok (record r { config = scale total members values r.config })

  unfoldable pub present : List (String × V) → List String → List String
  unfolding has
  present config [] = []
  present config (m ∷ members) =
      let others = present config members in if has m config then m ∷ others else others

  unfoldable pub normalise_groups :
      Specs V → List (String × List String) → Resolved V → Result (Resolved V)
  unfolding normalise present
  normalise_groups specs [] r = ok r
  normalise_groups specs ((name, members) ∷ groups) r =
      let here = present r.config members in
      let scaled = do r' ← normalise specs here r; normalise_groups specs groups r'
      in let skipped = normalise_groups specs groups r in
        if ltb (length here) 2 then skipped else scaled

  -- `load_global`: the file is absent, or given by its dict.
  unfoldable pub load_global :
      Specs V → List (String × List String) → List (String × V) → Result (Resolved V)
  unfolding core_resolved apply_levels normalise_groups
  load_global specs groups file = normalise_groups specs groups (
      apply_levels global_level specs (record { source = user_global; values = file } ∷ [])
        (core_resolved global_level specs))

  unfoldable pub load_device :
      Specs V
      → List (String × List String)
      → (provider_name : String) (preferences : List (String × V)) → (index : ℕ)
      → (global_file device_file : List (String × V)) → Result (Resolved V)
  unfolding core_resolved apply_levels normalise_groups
  load_device specs groups provider_name preferences index global_file device_file =
      normalise_groups specs groups (
        apply_levels device_level specs
          (record { source = provider provider_name; values = preferences }
            ∷ record { source = user_global; values = global_file }
            ∷ record { source = user_device index; values = device_file }
            ∷ [])
          (core_resolved device_level specs))
