-- ===== src/Config/Cascade.antt =====
-- config/config_loader.py: the cascade, for one key at a time.
use text.Mathlib.Text.{◌==◌}
use text.Mathlib.TextEquality.{eq_iff}
use dev_q.Prelude.{
  String, true, false, ◌&&◌, List, [], ◌∷◌, some, ◌≡◌, refl, ◌∙◌, Bool-cases, inl, inr,
  if◌then◌else◌, arith,
}
use dev_q.Dict.{lookup, lookup-insert}
use dev_q.Config.{
  KeySpec, Source, core, Level, sees, Specs, Settings, Resolved, core_config, core_provenance,
  core_resolved, is_accepted, validate_key_value, is_foreign, assign, apply_setting, apply_values,
  apply_levels,
}

module _ {V : Type 0} (key : String) (spec : KeySpec V) where
  -- The value and the source that the levels leave, for this key alone: the last acceptable value.
  abbrev pub latest_in : Source → List (String × V) → V × Source → V × Source
  latest_in source [] old = old
  latest_in source ((name, value) ∷ rest) old =
      latest_in source rest
        (if (name == key) && is_accepted (spec.validate value) then (value, source) else old)

  abbrev pub latest : List (Settings V) → V × Source → V × Source
  latest [] old = old
  latest (s ∷ rest) old = latest rest (latest_in s.source s.values old)

  -- What is resolved for the key.
  abbrev pub Holds : Resolved V → V × Source → Type 0
  Holds r (value, source) =
      (lookup key r.config ≡ some value) × (lookup key r.provenance ≡ some source)

  module _ (level : Level) (specs : Specs V) (known : lookup key specs ≡ some spec)
      (seen : sees level spec.scope ≡ true) where
    assign-other :
        (source : Source) (name : String) (value : V) (r : Resolved V) (old : V × Source)
        → (name == key) ≡ false
        → Holds r old
        → Holds (assign source name value r) old
    unfolding assign
    assign-other source name value r old other h = (
      lookup-insert name key value r.config ∙ rw other h.0,
      lookup-insert name key source r.provenance ∙ rw other h.1,
    )

    apply_other :
        (source : Source) (name : String) (value : V) (r : Resolved V) (old : V × Source)
        → (name == key) ≡ false
        → Holds r old
        → Holds (apply_setting level specs source name value r) old
    unfolding apply_setting
    apply_other source name value r old other h = elim (Bool-cases (is_foreign level specs name)) [
      | inl foreign ↦ rw foreign h
      | inr own ↦ rw own (elim (Bool-cases (validate_key_value specs name value)) [
        | inl valid ↦ rw valid (assign-other source name value r old other h)
        | inr invalid ↦ rw invalid h
      ])
    ]

    own : (name : String) → (name == key) ≡ true → is_foreign level specs name ≡ false
    unfolding is_foreign
    own name same = ground (arith, eq_iff name key)

    verdict :
        (name : String) (value : V)
        → (name == key) ≡ true
        → validate_key_value specs name value ≡ is_accepted (spec.validate value)
    unfolding validate_key_value
    verdict name value same = ground (arith, eq_iff name key)

    apply_same :
        (source : Source) (name : String) (value : V) (r : Resolved V) (old : V × Source)
        → (name == key) ≡ true
        → Holds r old
        → Holds
            (apply_setting level specs source name value r)
            (if (name == key) && is_accepted (spec.validate value) then (value, source) else old)
    unfolding apply_setting assign
    apply_same source name value r old same h = rw (own name same) (
        rw (verdict name value same) (
          rw same (elim (Bool-cases (is_accepted (spec.validate value))) [
            | inl yes_case ↦ rw yes_case (
              lookup-insert name key value r.config ∙ rw same refl,
              lookup-insert name key source r.provenance ∙ rw same refl,
            )
            | inr no_case ↦ rw no_case h
          ])))

    apply_setting-Holds :
        (source : Source) (name : String) (value : V) (r : Resolved V) (old : V × Source)
        → Holds r old
        → Holds
            (apply_setting level specs source name value r)
            (if (name == key) && is_accepted (spec.validate value) then (value, source) else old)
    apply_setting-Holds source name value r old h = elim (Bool-cases (name == key)) [
      | inl same ↦ apply_same source name value r old same h
      | inr other ↦ rw other (apply_other source name value r old other h)
    ]

    apply_values-Holds :
        (source : Source) (values : List (String × V)) (r : Resolved V) (old : V × Source)
        → Holds r old
        → Holds (apply_values level specs source values r) (latest_in source values old)
    unfolding apply_values
    apply_values-Holds source [] r old h = h
    apply_values-Holds source ((name, value) ∷ rest) r old h =
        apply_values-Holds source rest _ _ (apply_setting-Holds source name value r old h)

    apply_levels-Holds :
        (levels : List (Settings V)) (r : Resolved V) (old : V × Source)
        → Holds r old
        → Holds (apply_levels level specs levels r) (latest levels old)
    unfolding apply_levels
    apply_levels-Holds [] r old h = h
    apply_levels-Holds (s ∷ rest) r old h =
        apply_levels-Holds rest _ _ (apply_values-Holds s.source s.values r old h)

-- The defaults of the keys that the level sees.
core_config-default :
    {V : Type 0} (key : String) (level : Level) (specs : Specs V) (spec : KeySpec V)
    → lookup key specs ≡ some spec
    → sees level spec.scope ≡ true
    → lookup key (core_config level specs) ≡ some spec.default
unfolding lookup core_config
core_config-default key level [] spec known seen = cc
core_config-default key level ((name, other) ∷ rest) spec known seen =
    ground (arith, core_config-default key level rest spec)

core_provenance-core :
    {V : Type 0} (key : String) (config : List (String × V)) (value : V)
    → lookup key config ≡ some value
    → lookup key (core_provenance config) ≡ some core
unfolding lookup core_provenance
core_provenance-core key [] value h = cc
core_provenance-core key ((name, other) ∷ rest) value h =
    ground (arith, core_provenance-core key rest value)

-- For every key that is known and belongs to the scope that is resolved, the levels leave the value
-- of the last setting of the key that its validator accepts, level by level and in the order of each
-- dict, or its default where there is none; and its provenance names that setting's source, or
-- DevQ's core. Groups are not scaled yet.
pub apply_levels-latest :
    {V : Type 0} (key : String) (spec : KeySpec V) (level : Level) (specs : Specs V)
    (levels : List (Settings V))
    → lookup key specs ≡ some spec
    → sees level spec.scope ≡ true
    → Holds key spec
        (apply_levels level specs levels (core_resolved level specs))
        (latest key spec levels (spec.default, core))
unfolding core_resolved
apply_levels-latest key spec level specs levels known seen =
    let default = core_config-default key level specs spec known seen in
    apply_levels-Holds key spec level specs known seen levels (core_resolved level specs)
      (spec.default, core)
      (default, core_provenance-core key (core_config level specs) spec.default default)
