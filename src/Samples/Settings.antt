-- ===== src/Samples/Settings.antt =====
-- A device's configuration, from its provider, a global file and a file of its own, and the
-- frontends that read a source.
use dev_q.Prelude.{ℕ, ◌≡◌, refl, List, [], ◌∷◌, none, some}
use dev_q.Errors.{ok, Result, value_or}
use dev_q.Dict.{lookup}
use dev_q.Config.{
  device_level, user_global, user_device, provider, sees, Settings, Resolved, apply_levels,
  core_resolved, is_accepted, load_device,
}
use dev_q.Config.Cascade.{Holds, apply_levels-latest}
use dev_q.Config.Core.{
  Json, integer, real, string, as_float, core_specs, core_groups, key_spec, positive_int,
}
use dev_q.Config.{device, Specs}
use dev_q.Config.Keys.{flatten_key, param_to_key}
use dev_q.Config.Keys.Inverse.{param_to_key-flatten_key}
use dev_q.Resolver.{Frontends, Resolution, ambiguous, resolve_frontend}
use dev_q.Resolver.Claims.{resolve_frontend-Returns}
use dev_q.Resolver.Answer.{resolve_frontend-answer}
use dev_q.Samples.{nat_float}

abbrev known_specs : Specs (Json ℕ)
unfolding core_specs
known_specs = core_specs ("packing" ∷ "fcfs" ∷ []) ("noise_graph" ∷ []) ("noise" ∷ [])

-- The device's own file asks for 0 shots, which is refused.
abbrev levels : List (Settings (Json ℕ))
levels =
    record { source = provider "Simulated"; values = ("shots", integer 100) ∷ [] }
    ∷ record {
      source = user_global;
      values = ("router", string "noise") ∷ ("shots", integer 200) ∷ [];
    }
    ∷ record { source = user_device 0; values = ("shots", integer 0) ∷ [] }
    ∷ []

apply_levels-latest_example :
    Holds "shots"
      (key_spec device (integer 1024) positive_int "Shots" none)
      (apply_levels device_level known_specs levels (core_resolved device_level known_specs))
      (integer 200, user_global)
unfolding lookup core_specs sees positive_int is_accepted
apply_levels-latest_example =
    apply_levels-latest "shots" (key_spec device (integer 1024) positive_int "Shots" none)
      device_level known_specs levels refl refl

abbrev loaded : Result (Resolved (Json ℕ))
unfolding load_device core_specs as_float core_groups
loaded =
    load_device as_float real known_specs core_groups "Simulated" [] 0
      (("qubit_error_weight", integer 1) ∷ []) (("edge_error_weight", integer 3) ∷ [])

-- 1 and 3 are scaled to a quarter and three quarters.
loaded_scaled :
    lookup "edge_error_weight" (value_or (record { config = []; provenance = [] }) loaded).config
    ≡ some (real 7500)
unfolding load_device core_specs as_float core_groups lookup
loaded_scaled = refl

abbrev two_frontends : Frontends
two_frontends =
    ("qasm2", record { extensions = ".qasm" ∷ ".inc" ∷ [] })
    ∷ ("qasm3", record { extensions = ".qasm" ∷ [] })
    ∷ []

-- Both claim the extension.
resolve_frontend-answer_example :
    resolve_frontend (λ s. s) "circuits/bell.v2.qasm" two_frontends none
    ≡ ok (ambiguous ".qasm" ("qasm2" ∷ "qasm3" ∷ []))
resolve_frontend-answer_example =
    resolve_frontend-answer (λ s. s) "circuits/bell.v2" "qasm" two_frontends
      (refl, refl, (refl, refl, (refl, refl, (refl, refl, tt)))) ((refl, tt), (tt, tt))

resolve_frontend-Returns_example :
    (r : Resolution) × (resolve_frontend (λ s. s) "adder.inc" two_frontends none ≡ ok r)
resolve_frontend-Returns_example = resolve_frontend-Returns (λ s. s) "adder.inc" two_frontends none

param_to_key-flatten_key_example :
    param_to_key (flatten_key "naqjs.eta_final.rate") ≡ "naqjs.eta_final.rate"
param_to_key-flatten_key_example =
    param_to_key-flatten_key "naqjs" "eta_final.rate"
      (refl, refl, (refl, refl, (refl, refl, (refl, refl, (refl, refl, tt))))) refl
