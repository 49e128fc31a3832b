-- ===== src/Resolver/Claims.antt =====
-- frontends/resolver.py: the dispatch against the frontends that claim an extension.
use text.Mathlib.Text.{◌==◌}
use text.Mathlib.TextEquality.{eq_iff}
use text.Mathlib.TextPositions.{eq_refl}
use dev_q.Prelude.{
  String, List, [], ◌∷◌, ◌++◌, Option, none, some, ◌≡◌, ◌≢◌, refl, sym, ap, ◌∙◌, append-nil,
  append_assoc, All, All-append, All-map, if◌then◌else◌, arith, Bool-cases, Option-cases, inl, inr,
}
use dev_q.Errors.{ok}
use dev_q.Dict.{lookup}
use dev_q.Resolver.{
  Frontend, Frontends, Resolution, chosen, extension_of, append_name, append_extensions,
  index_frontends, build_extension_index, names_for, resolve_names, resolve_frontend,
}

module _ (lower : String → String) where
  -- The name once for each of its extensions that reads `ext`.
  abbrev pub claims_by : String → String → List String → List String
  claims_by ext name [] = []
  claims_by ext name (e ∷ exts) =
      if lower e == ext then name ∷ claims_by ext name exts else claims_by ext name exts

  -- The names of the frontends that claim an extension, in the order of registration.
  abbrev pub claimants : String → Frontends → List String
  claimants ext [] = []
  claimants ext ((name, frontend) ∷ rest) =
      claims_by ext name frontend.extensions ++ claimants ext rest

  names_for-append_name :
      (ext e name : String) (index : List (String × List String))
      → names_for lower ext (append_name lower e name index)
        ≡ (if e == ext then names_for lower ext index ++ name ∷ [] else names_for lower ext index)
  unfolding names_for append_name
  names_for-append_name ext e name [] = ground arith
  names_for-append_name ext e name ((other, names) ∷ rest) =
      ground (
        arith,
        names_for-append_name ext e name rest,
        eq_iff other e,
        eq_iff other ext,
        eq_iff e ext,
      )

  names_for-append_extensions :
      (ext name : String) (exts : List String) (index : List (String × List String))
      → names_for lower ext (append_extensions lower name exts index)
        ≡ names_for lower ext index ++ claims_by ext name exts
  unfolding append_extensions
  names_for-append_extensions ext name [] index = sym (append-nil (names_for lower ext index))
  names_for-append_extensions ext name (e ∷ exts) index =
      names_for-append_extensions ext name exts (append_name lower (lower e) name index)
      ∙ rw (names_for-append_name ext (lower e) name index) (elim (Bool-cases (lower e == ext)) [
        | inl same ↦
            rw same (append_assoc (names_for lower ext index) (name ∷ []) (claims_by ext name exts))
        | inr other ↦ rw other refl
      ])

  names_for-index_frontends :
      (ext : String) (fs : Frontends) (index : List (String × List String))
      → names_for lower ext (index_frontends lower fs index)
        ≡ names_for lower ext index ++ claimants ext fs
  unfolding index_frontends
  names_for-index_frontends ext [] index = sym (append-nil (names_for lower ext index))
  names_for-index_frontends ext ((name, frontend) ∷ rest) index =
      names_for-index_frontends ext rest (append_extensions lower name frontend.extensions index)
      ∙ (ap (λ (l : List String). l ++ claimants ext rest)
            (names_for-append_extensions ext name frontend.extensions index)
          ∙ append_assoc (names_for lower ext index) (claims_by ext name frontend.extensions)
              (claimants ext rest))

  -- The index that is built holds, under each extension, exactly the frontends that claim it.
  names_for-build :
      (ext : String) (fs : Frontends)
      → names_for lower ext (build_extension_index lower fs) ≡ claimants ext fs
  unfolding build_extension_index names_for
  names_for-build ext fs = names_for-index_frontends ext fs []

  -- With no explicit name, only the names that claim the extension count.
  pub resolve_frontend-claimants :
      (source : String) (fs : Frontends)
      → resolve_frontend lower source fs none
        ≡ resolve_names lower fs
            (extension_of lower source)
            (claimants (extension_of lower source) fs)
  unfolding resolve_frontend
  resolve_frontend-claimants source fs =
      ap (resolve_names lower fs (extension_of lower source))
        (names_for-build (extension_of lower source) fs)

  abbrev Registered : Frontends → String → Type 0
  Registered fs name = lookup name fs ≢ none

  claims_by-Registered :
      (ext name : String) (frontend : Frontend) (rest : Frontends) (exts : List String)
      → All (Registered ((name, frontend) ∷ rest)) (claims_by ext name exts)
  unfolding lookup
  claims_by-Registered ext name frontend rest [] = tt
  claims_by-Registered ext name frontend rest (e ∷ exts) = elim (Bool-cases (lower e == ext)) [
    | inl same ↦ rw same (here, claims_by-Registered ext name frontend rest exts)
    | inr other ↦ rw other (claims_by-Registered ext name frontend rest exts)
  ]
    where
      here : Registered ((name, frontend) ∷ rest) name
      here = rw (eq_refl name) (λ h. cc)

  claimants-Registered : (ext : String) (fs : Frontends) → All (Registered fs) (claimants ext fs)
  unfolding lookup
  claimants-Registered ext [] = tt
  claimants-Registered ext ((name, frontend) ∷ rest) =
      All-append (Registered ((name, frontend) ∷ rest)) (claims_by ext name frontend.extensions)
        (claimants ext rest) (claims_by-Registered ext name frontend rest frontend.extensions)
        (All-map (Registered rest) (Registered ((name, frontend) ∷ rest)) (claimants ext rest)
          (λ other known. elim (Bool-cases (name == other)) [
            | inl same ↦ rw same (λ h. cc)
            | inr no_match ↦ rw no_match known
          ])
          (claimants-Registered ext rest))

  resolve_names-Returns :
      (fs : Frontends) (ext : String) (names : List String)
      → All (Registered fs) names
      → (r : Resolution) × (resolve_names lower fs ext names ≡ ok r)
  unfolding resolve_names
  resolve_names-Returns fs ext [] h = (_, refl)
  resolve_names-Returns fs ext (name ∷ []) h = elim (Option-cases (lookup name fs)) [
    | inl missing ↦ absurd (h.0 missing)
    | inr (frontend, found) ↦ (chosen frontend, rw found refl)
  ]
  resolve_names-Returns fs ext (name ∷ other ∷ names) h = (_, refl)

  -- Resolving a source, with an explicit name or without, always gives an answer: the name that the
  -- index holds for an extension is that of a registered frontend, so no lookup raises KeyError.
  pub resolve_frontend-Returns :
      (source : String) (fs : Frontends) (explicit : Option String)
      → (r : Resolution) × (resolve_frontend lower source fs explicit ≡ ok r)
  unfolding resolve_frontend
  resolve_frontend-Returns source fs (some name) = (_, refl)
  resolve_frontend-Returns source fs none =
      let ext = extension_of lower source in
      let (r, e) = resolve_names-Returns fs ext (claimants ext fs) (claimants-Registered ext fs) in
      (r, resolve_frontend-claimants source fs ∙ e)
