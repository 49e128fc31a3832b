-- ===== src/Resolver/Answer.antt =====
-- frontends/resolver.py: the dispatch of a source against its extension and the frontends' claims.
use text.Mathlib.Text.{◌==◌}
use text.Mathlib.TextPositions.{eq_refl}
use dev_q.Prelude.{
  String, false, List, [], ◌∷◌, ◌++◌, map, Option, none, some, ◌≡◌, refl, sym, ap, ◌∙◌, All,
  All-append, if◌then◌else◌, Bool-cases, inl, inr,
}
use dev_q.Errors.{ok}
use dev_q.Dict.{lookup}
use dev_q.Resolver.{
  Frontend, Frontends, Resolution, chosen, ambiguous, unhandled, has_code, behind_slash, from_dot,
  extension_of, resolve_names, resolve_frontend,
}
use dev_q.Resolver.Claims.{claims_by, claimants, resolve_frontend-claimants}

abbrev pub behind : String → String → String
behind String.[] rest = rest
behind (String.◌∷◌ c prefix) rest = String.◌∷◌ c (behind prefix rest)

abbrev pub with_dot : String → String
with_dot suffix = String.◌∷◌ "." suffix

-- No dot and no slash.
abbrev pub IsSuffix : String → Type 0
IsSuffix String.[] = Unit {0}
IsSuffix (String.◌∷◌ c rest) = (has_code c b'.' ≡ false) × (has_code c b'/' ≡ false) × IsSuffix rest

-- No name is there twice.
abbrev pub IsDict : Frontends → Type 0
IsDict [] = Unit {0}
IsDict ((name, frontend) ∷ rest) = All (λ e. (name == e.0) ≡ false) rest × IsDict rest

from_dot-suffix :
    (found : Option String) (suffix : String) → IsSuffix suffix → from_dot found suffix ≡ found
unfolding from_dot
from_dot-suffix found String.[] h = refl
from_dot-suffix found (String.◌∷◌ c rest) h = rw (h.0, from_dot) (from_dot-suffix found rest h.2)

from_dot-behind :
    (prefix : String) (found : Option String) (suffix : String)
    → IsSuffix suffix
    → from_dot found (behind prefix (with_dot suffix)) ≡ some (with_dot suffix)
unfolding from_dot
from_dot-behind String.[] found suffix h = from_dot-suffix (some (with_dot suffix)) suffix h
from_dot-behind (String.◌∷◌ c prefix) found suffix h =
    from_dot-behind prefix
      (if has_code c b'.' then some (String.◌∷◌ c (behind prefix (with_dot suffix))) else found)
      suffix h

behind_slash-suffix : (name suffix : String) → IsSuffix suffix → behind_slash name suffix ≡ name
unfolding behind_slash
behind_slash-suffix name String.[] h = refl
behind_slash-suffix name (String.◌∷◌ c rest) h =
    rw (h.1, behind_slash) (behind_slash-suffix name rest h.2)

-- What is behind the last slash still ends in the suffix.
behind_slash-behind :
    (before prefix suffix : String)
    → IsSuffix suffix
    → (kept : String) × (behind_slash
          (behind before (with_dot suffix))
          (behind prefix (with_dot suffix))
        ≡ behind kept (with_dot suffix))
unfolding behind_slash
behind_slash-behind before String.[] suffix h =
    (before, behind_slash-suffix (behind before (with_dot suffix)) suffix h)
behind_slash-behind before (String.◌∷◌ c prefix) suffix h = elim (Bool-cases (has_code c b'/')) [
  | inl slash ↦ rw (slash, behind_slash) (behind_slash-behind prefix prefix suffix h)
  | inr other ↦ rw (other, behind_slash) (behind_slash-behind before prefix suffix h)
]

module _ (lower : String → String) where
  extension_of-behind :
      (prefix suffix : String)
      → IsSuffix suffix
      → extension_of lower (behind prefix (with_dot suffix)) ≡ lower (with_dot suffix)
  unfolding extension_of
  extension_of-behind prefix suffix h =
      let (kept, e) = behind_slash-behind prefix prefix suffix h in
      rw (extension_of, e, from_dot-behind kept none suffix h) refl

  -- A frontend, once for each of its extensions that reads `ext`.
  abbrev pub claims_of : String → String × Frontend → List String → Frontends
  claims_of ext entry [] = []
  claims_of ext entry (e ∷ exts) =
      if lower e == ext then entry ∷ claims_of ext entry exts else claims_of ext entry exts

  -- The frontends that claim an extension, in the order of registration.
  abbrev pub claiming : String → Frontends → Frontends
  claiming ext [] = []
  claiming ext ((name, frontend) ∷ rest) =
      claims_of ext (name, frontend) frontend.extensions ++ claiming ext rest

  -- One claim is that frontend's; several are ambiguous, and none is unhandled.
  abbrev pub answer : String → Frontends → Resolution
  answer ext [] = unhandled ext
  answer ext ((name, frontend) ∷ []) = chosen frontend
  answer ext (first ∷ second ∷ more) = ambiguous ext (map (λ e. e.0) (first ∷ second ∷ more))

  names-append :
      (xs ys : Frontends)
      → map (λ (e : String × Frontend). e.0) (xs ++ ys) ≡ map (λ e. e.0) xs ++ map (λ e. e.0) ys
  names-append [] ys = refl
  names-append (x ∷ xs) ys = ap (λ (l : List String). x.0 ∷ l) (names-append xs ys)

  claims_of-names :
      (ext name : String) (frontend : Frontend) (exts : List String)
      → map (λ (e : String × Frontend). e.0) (claims_of ext (name, frontend) exts)
        ≡ claims_by lower ext name exts
  claims_of-names ext name frontend [] = refl
  claims_of-names ext name frontend (e ∷ exts) = elim (Bool-cases (lower e == ext)) [
    | inl same ↦
        rw same (ap (λ (l : List String). name ∷ l) (claims_of-names ext name frontend exts))
    | inr other ↦ rw other (claims_of-names ext name frontend exts)
  ]

  claiming-names :
      (ext : String) (fs : Frontends)
      → map (λ (e : String × Frontend). e.0) (claiming ext fs) ≡ claimants lower ext fs
  claiming-names ext [] = refl
  claiming-names ext ((name, frontend) ∷ rest) =
      names-append (claims_of ext (name, frontend) frontend.extensions) (claiming ext rest)
      ∙ rw (claims_of-names ext name frontend frontend.extensions, claiming-names ext rest) refl

  module _ (P : String × Frontend → Type 0) where
    claims_of-All :
        (ext : String) (entry : String × Frontend) (exts : List String)
        → P entry
        → All P (claims_of ext entry exts)
    claims_of-All ext entry [] h = tt
    claims_of-All ext entry (e ∷ exts) h = elim (Bool-cases (lower e == ext)) [
      | inl same ↦ rw same (h, claims_of-All ext entry exts h)
      | inr other ↦ rw other (claims_of-All ext entry exts h)
    ]

    claiming-All : (ext : String) (fs : Frontends) → All P fs → All P (claiming ext fs)
    claiming-All ext [] h = tt
    claiming-All ext ((name, frontend) ∷ rest) h =
        All-append P (claims_of ext (name, frontend) frontend.extensions) (claiming ext rest)
          (claims_of-All ext (name, frontend) frontend.extensions h.0) (claiming-All ext rest h.1)

  -- Past another name, a dict still finds its entries.
  lookup_behind :
      (name : String) (frontend : Frontend) (all rest : Frontends)
      → All (λ e. (name == e.0) ≡ false) rest
      → All (λ e. lookup e.0 all ≡ some e.1) rest
      → All (λ e. lookup e.0 ((name, frontend) ∷ all) ≡ some e.1) rest
  unfolding lookup
  lookup_behind name frontend all [] d h = tt
  lookup_behind name frontend all (e ∷ rest) d h =
      (rw d.0 h.0, lookup_behind name frontend all rest d.1 h.1)

  lookup-entries : (fs : Frontends) → IsDict fs → All (λ e. lookup e.0 fs ≡ some e.1) fs
  unfolding lookup
  lookup-entries [] d = tt
  lookup-entries ((name, frontend) ∷ rest) d =
      (rw (eq_refl name) refl, lookup_behind name frontend rest rest d.0 (lookup-entries rest d.1))

  resolve_names-answer :
      (fs : Frontends) (ext : String) (found : Frontends)
      → All (λ e. lookup e.0 fs ≡ some e.1) found
      → resolve_names lower fs ext (map (λ e. e.0) found) ≡ ok (answer ext found)
  unfolding resolve_names
  resolve_names-answer fs ext [] h = refl
  resolve_names-answer fs ext ((name, frontend) ∷ []) h = rw h.0 refl
  resolve_names-answer fs ext (first ∷ second ∷ more) h = refl

  -- With no explicit name, a source that ends in a dot and a suffix without a dot or slash is read
  -- by the frontend that alone claims the suffix with its dot, letters lowered on both sides; with
  -- several claims the answer is their names in order, a frontend once for each extension that
  -- matches, and with none it is that nothing handles the extension. The frontends are a dict.
  pub resolve_frontend-answer :
      (prefix suffix : String) (fs : Frontends)
      → IsSuffix suffix
      → IsDict fs
      → resolve_frontend lower (behind prefix (with_dot suffix)) fs none
        ≡ ok (answer (lower (with_dot suffix)) (claiming (lower (with_dot suffix)) fs))
  resolve_frontend-answer prefix suffix fs h d =
      let ext = lower (with_dot suffix) in
      resolve_frontend-claimants lower (behind prefix (with_dot suffix)) fs
      ∙ rw (extension_of-behind prefix suffix h, sym (claiming-names ext fs))
          (resolve_names-answer fs ext (claiming ext fs)
            (claiming-All (λ e. lookup e.0 fs ≡ some e.1) ext fs (lookup-entries fs d)))
