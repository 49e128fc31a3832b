-- ===== src/Resolver.antt =====
-- frontends/resolver.py: which frontend reads a job's source. `lower` is str.lower.
pub mod Claims
pub mod Answer
use Prim.Native.Char.{Char, code}
use Prim.Native.String as NativeString
use text.Mathlib.Text.{◌==◌}
use dev_q.Prelude as P
use dev_q.Prelude.{
  String, Bool, true, false, List, [], ◌∷◌, ◌++◌, Option, none, some, if◌then◌else◌,
}
use dev_q.Errors.{Result, ok, raise, ◌>>=◌, or_raise, key_error}
use dev_q.Dict.{lookup}

-- `EXTENSIONS`
pub record Frontend : Type 0 where
  pub extensions : List String

abbrev pub Frontends : Type 0
Frontends = List (String × Frontend)

pub data Resolution : Type 0 where
  chosen : Frontend → Resolution
  unknown_frontend : String → Resolution
  ambiguous : String → List String → Resolution
  unhandled : String → Resolution

abbrev pub has_code : Char → P.ℕ → Bool
has_code c n = P.◌==◌ (code c) n

-- `source.rsplit("/", 1)[-1]`
unfoldable pub behind_slash : String → String → String
behind_slash name String.[] = name
behind_slash name (String.◌∷◌ c rest) = behind_slash (if has_code c b'/' then rest else name) rest

-- The text from its last dot on, if it has one.
unfoldable pub from_dot : Option String → String → Option String
from_dot found String.[] = found
from_dot found (String.◌∷◌ c rest) =
    from_dot (if has_code c b'.' then some (String.◌∷◌ c rest) else found) rest

module _ (lower : String → String) where
  unfoldable pub extension_of : String → String
  unfolding behind_slash from_dot
  extension_of source = elim (from_dot none (behind_slash source source)) [
    | none ↦ ""
    | some extension ↦ lower extension
  ]

  -- `index.setdefault(ext, []).append(name)`
  unfoldable pub append_name :
      String → String → List (String × List String) → List (String × List String)
  append_name ext name [] = (ext, name ∷ []) ∷ []
  append_name ext name ((other, names) ∷ rest) =
      if other == ext
      then (other, names ++ name ∷ []) ∷ rest
      else (other, names) ∷ append_name ext name rest

  unfoldable pub append_extensions :
      String → List String → List (String × List String) → List (String × List String)
  unfolding append_name
  append_extensions name [] index = index
  append_extensions name (ext ∷ exts) index =
      append_extensions name exts (append_name (lower ext) name index)

  unfoldable pub index_frontends :
      Frontends → List (String × List String) → List (String × List String)
  unfolding append_extensions
  index_frontends [] index = index
  index_frontends ((name, frontend) ∷ rest) index =
      index_frontends rest (append_extensions name frontend.extensions index)

  unfoldable pub build_extension_index : Frontends → List (String × List String)
  unfolding index_frontends
  build_extension_index frontends = index_frontends frontends []

  -- `index.get(ext, [])`
  unfoldable pub names_for : String → List (String × List String) → List String
  unfolding lookup
  names_for ext index = elim (lookup ext index) [ none ↦ [] | some names ↦ names ]

  -- Exactly one name, more than one, or none.
  unfoldable pub resolve_names : Frontends → String → List String → Result Resolution
  unfolding lookup
  resolve_names frontends ext [] = ok (unhandled ext)
  resolve_names frontends ext (name ∷ []) = do
    frontend ← or_raise (lookup name frontends) key_error
    ok (chosen frontend)
  resolve_names frontends ext (name ∷ other ∷ names) = ok (ambiguous ext (name ∷ other ∷ names))

  unfoldable pub resolve_explicit : Frontends → String → Resolution
  unfolding lookup
  resolve_explicit frontends name = elim (lookup name frontends) [
    | none ↦ unknown_frontend name
    | some frontend ↦ chosen frontend
  ]

  unfoldable pub resolve_frontend : String → Frontends → Option String → Result Resolution
  unfolding extension_of build_extension_index names_for resolve_names resolve_explicit
  resolve_frontend source frontends (some name) = ok (resolve_explicit frontends name)
  resolve_frontend source frontends none =
      resolve_names frontends (extension_of source)
        (names_for (extension_of source) (build_extension_index frontends))
