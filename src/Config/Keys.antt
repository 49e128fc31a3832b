-- ===== src/Config/Keys.antt =====
-- registry/keyspec.py: a dotted configuration key as a constructor parameter's name, and back.
pub mod Inverse
use Prim.Native.Char.{Char, code}
use Prim.Native.String as NativeString
use dev_q.Prelude.{ℕ, String, Bool, true, false, ◌&&◌, if◌then◌else◌, ◌==◌}

abbrev pub is_code : Char → ℕ → Bool
is_code c n = code c == n

-- `KEY_PARAM_SEP` before a text.
abbrev pub separated : String → String
separated rest = String.◌∷◌ "_" (String.◌∷◌ "_" (String.◌∷◌ "_" rest))

abbrev pub dotted : String → String
dotted rest = String.◌∷◌ "." rest

abbrev pub at_separator : String → Bool
at_separator (String.◌∷◌ c (String.◌∷◌ d (String.◌∷◌ e rest))) =
    is_code c b'_' && is_code d b'_' && is_code e b'_'
at_separator _ = false

abbrev pub behind_two : String → String
behind_two (String.◌∷◌ c (String.◌∷◌ d rest)) = rest
behind_two _ = String.[]

-- `dotted.replace(".", KEY_PARAM_SEP, 1)`
unfoldable pub flatten_key : String → String
flatten_key String.[] = String.[]
flatten_key (String.◌∷◌ c rest) =
    let further = String.◌∷◌ c (flatten_key rest) in
    if is_code c b'.' then separated rest else further

-- `param.replace(KEY_PARAM_SEP, ".", 1)`
unfoldable pub param_to_key : String → String
param_to_key String.[] = String.[]
param_to_key (String.◌∷◌ c rest) =
    let further = String.◌∷◌ c (param_to_key rest) in
    if at_separator (String.◌∷◌ c rest) then dotted (behind_two rest) else further
