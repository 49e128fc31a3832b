-- ===== src/Config/Keys/Inverse.antt =====
-- registry/keyspec.py: the rewriting of a key and its inverse, under the registry's guards.
use Prim.Native.Char.{Char}
use dev_q.Prelude.{String, Bool, false, ◌≡◌, refl, ap, ◌∙◌, Bool-cases, inl, inr, arith}
use dev_q.Config.Keys.{is_code, separated, dotted, at_separator, flatten_key, param_to_key}

abbrev pub glue : String → String → String
glue String.[] rest = rest
glue (String.◌∷◌ c prefix) rest = String.◌∷◌ c (glue prefix rest)

abbrev pub ends_with_underscore : String → Bool
ends_with_underscore String.[] = false
ends_with_underscore (String.◌∷◌ c String.[]) = is_code c b'_'
ends_with_underscore (String.◌∷◌ c (String.◌∷◌ d rest)) = ends_with_underscore (String.◌∷◌ d rest)

-- No dot and no separator inside.
abbrev pub IsPlain : String → Type 0
IsPlain String.[] = Unit {0}
IsPlain (String.◌∷◌ c rest) =
    (is_code c b'.' ≡ false) × (at_separator (String.◌∷◌ c rest) ≡ false) × IsPlain rest

flatten_key-glue :
    (prefix rest : String)
    → IsPlain prefix
    → flatten_key (glue prefix (dotted rest)) ≡ glue prefix (separated rest)
unfolding flatten_key
flatten_key-glue String.[] rest h = refl
flatten_key-glue (String.◌∷◌ c prefix) rest h =
    rw h.0 (ap (λ (t : String). String.◌∷◌ c t) (flatten_key-glue prefix rest h.2))

-- The separator behind the prefix is the first one.
no_separator :
    (c : Char) (prefix rest : String)
    → at_separator (String.◌∷◌ c prefix) ≡ false
    → ends_with_underscore (String.◌∷◌ c prefix) ≡ false
    → at_separator (String.◌∷◌ c (glue prefix (separated rest))) ≡ false
no_separator c String.[] rest h last = rw last refl
no_separator c (String.◌∷◌ d String.[]) rest h last = ground arith
no_separator c (String.◌∷◌ d (String.◌∷◌ e prefix)) rest h last = h

last_of_rest :
    (c : Char) (prefix : String)
    → ends_with_underscore (String.◌∷◌ c prefix) ≡ false
    → ends_with_underscore prefix ≡ false
last_of_rest c String.[] h = refl
last_of_rest c (String.◌∷◌ d rest) h = h

param_to_key-glue :
    (prefix rest : String)
    → IsPlain prefix
    → ends_with_underscore prefix ≡ false
    → param_to_key (glue prefix (separated rest)) ≡ glue prefix (dotted rest)
unfolding param_to_key
param_to_key-glue String.[] rest h last = refl
param_to_key-glue (String.◌∷◌ c prefix) rest h last =
    elim (Bool-cases (at_separator (String.◌∷◌ c (glue prefix (separated rest))))) [
      | inl found ↦ absurd (cc (no_separator c prefix rest h.1 last))
      | inr clear ↦ rw clear (
          ap (λ (t : String). String.◌∷◌ c t)
            (param_to_key-glue prefix rest h.2 (last_of_rest c prefix last)))
    ]

-- Rewriting a dotted key to a parameter's name and back gives the key again, where its prefix before
-- the first dot holds no separator and does not end in an underscore. The rest of the key is free.
pub param_to_key-flatten_key :
    (prefix rest : String)
    → IsPlain prefix
    → ends_with_underscore prefix ≡ false
    → param_to_key (flatten_key (glue prefix (dotted rest))) ≡ glue prefix (dotted rest)
param_to_key-flatten_key prefix rest h last =
    ap param_to_key (flatten_key-glue prefix rest h) ∙ param_to_key-glue prefix rest h last
