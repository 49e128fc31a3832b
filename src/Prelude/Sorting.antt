-- ===== src/Prelude/Sorting.antt =====
-- `list.sort(key=...)` and `sorted(...)`: a stable insertion sort by a key.
use Prim.Native.Nat.{ℕ, suc, ◌≤◌}
use mathlib.Core.Path.{◌≡◌, refl, ◌∙◌}
use mathlib.Core.Logic.{inl, inr}
use mathlib.Core.List.{List, [], ◌∷◌, map}
use native.Mathlib.Omega.{arith}
use dev_q.Prelude.Tests.{leb, if◌then◌else◌, Bool-cases}
use dev_q.Prelude.Lists.{length, All, All-map}
use dev_q.Prelude.Sets.{count, count-cons}

module _ {ℓ} {A : Type ℓ} (key : A → ℕ) where
  -- Before the first member with a larger or equal key, so that equal keys keep their order.
  unfoldable pub insert_by : A → List A → List A
  insert_by a [] = a ∷ []
  insert_by a (x ∷ xs) =
      let rest = insert_by a xs in if leb (key a) (key x) then a ∷ x ∷ xs else x ∷ rest

  unfoldable pub sort_by : List A → List A
  unfolding insert_by
  sort_by [] = []
  sort_by (x ∷ xs) = insert_by x (sort_by xs)

  abbrev pub IsSortedBy : List A → Type 0
  IsSortedBy [] = Unit
  IsSortedBy (x ∷ xs) = All (λ y. key x ≤ key y) xs × IsSortedBy xs

abbrev pub sorted : List ℕ → List ℕ
sorted = sort_by (λ n. n)

module _ (key : ℕ → ℕ) where
  pub count-insert_by : (q a : ℕ) (s : List ℕ) → count q (insert_by key a s) ≡ count q (a ∷ s)
  unfolding insert_by count
  count-insert_by q a [] = refl
  count-insert_by q a (x ∷ s) = ground (arith, count-insert_by q a s)

  -- Sorting loses no member and adds none.
  pub count-sort_by : (q : ℕ) (s : List ℕ) → count q (sort_by key s) ≡ count q s
  unfolding sort_by
  count-sort_by q [] = refl
  count-sort_by q (x ∷ s) =
      count-insert_by q x (sort_by key s) ∙ count-cons q x (sort_by key s) s (count-sort_by q s)

module _ {ℓ} {A : Type ℓ} (key : A → ℕ) where
  count-map-insert_by :
      (f : A → ℕ) (q : ℕ) (a : A) (s : List A)
      → count q (map f (insert_by key a s)) ≡ count q (f a ∷ map f s)
  unfolding insert_by count
  count-map-insert_by f q a [] = refl
  count-map-insert_by f q a (x ∷ s) = ground (arith, count-map-insert_by f q a s)

  pub count-map-sort_by :
      (f : A → ℕ) (q : ℕ) (s : List A) → count q (map f (sort_by key s)) ≡ count q (map f s)
  unfolding sort_by
  count-map-sort_by f q [] = refl
  count-map-sort_by f q (x ∷ s) =
      count-map-insert_by f q x (sort_by key s)
      ∙ count-cons q (f x) (map f (sort_by key s)) (map f s) (count-map-sort_by f q s)

  insert_by-All : (P : A → Type 0) (a : A) (s : List A) → P a → All P s → All P (insert_by key a s)
  unfolding insert_by
  insert_by-All P a [] h hs = (h, tt)
  insert_by-All P a (x ∷ s) h hs = elim (Bool-cases (leb (key a) (key x))) [
    | inl e ↦ rw e (h, hs)
    | inr e ↦ rw e (hs.0, insert_by-All P a s h hs.1)
  ]

  insert_by-IsSortedBy :
      (a : A) (s : List A) → IsSortedBy key s → IsSortedBy key (insert_by key a s)
  unfolding insert_by
  insert_by-IsSortedBy a [] h = (tt, tt)
  insert_by-IsSortedBy a (x ∷ s) h = elim (Bool-cases (leb (key a) (key x))) [
    | inl e ↦
        let first : key a ≤ key x = ground arith in
        rw e
          ((first, All-map (λ y. key x ≤ key y) (λ y. key a ≤ key y) s (λ y q. omega arith) h.0), h)
    | inr e ↦
        rw e
          (insert_by-All (λ y. key x ≤ key y) a s (ground arith) h.0, insert_by-IsSortedBy a s h.1)
  ]

  pub sort_by-All : (P : A → Type 0) (s : List A) → All P s → All P (sort_by key s)
  unfolding sort_by
  sort_by-All P [] h = tt
  sort_by-All P (x ∷ s) h = insert_by-All P x (sort_by key s) h.0 (sort_by-All P s h.1)

  pub sort_by-IsSortedBy : (s : List A) → IsSortedBy key (sort_by key s)
  unfolding sort_by
  sort_by-IsSortedBy [] = tt
  sort_by-IsSortedBy (x ∷ s) = insert_by-IsSortedBy x (sort_by key s) (sort_by-IsSortedBy s)

  pub length-sort_by : (s : List A) → length (sort_by key s) ≡ length s
  unfolding sort_by
  length-sort_by [] = refl
  length-sort_by (x ∷ s) = omega (arith, length-insert_by x (sort_by key s), length-sort_by s)
    where
      length-insert_by : (a : A) (t : List A) → length (insert_by key a t) ≡ suc (length t)
      length-insert_by a [] = refl
      length-insert_by a (y ∷ t) = ground (arith, length-insert_by a t)
