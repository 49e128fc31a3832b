-- ===== src/Prelude/Sets.antt =====
-- Sets of qubits as lists in iteration order, and how often a number stands in a list.
use Prim.Native.Nat.{ℕ, zero, suc, ◌+◌, ◌≤◌, ◌<◌}
use mathlib.Core.Path.{◌≡◌, refl, subst}
use mathlib.Core.Logic.{inl, inr}
use mathlib.Core.Bool.{Bool, true, false}
use mathlib.Core.List.{List, [], ◌∷◌, ◌++◌}
use native.Mathlib.Omega.{arith}
use dev_q.Prelude.Tests.{◌==◌, ==_iff, if◌then◌else◌, Bool-cases}
use dev_q.Prelude.Lists.{length, select, take, All}

-- `q in s`
unfoldable pub contains : ℕ → List ℕ → Bool
contains q [] = false
contains q (x ∷ s) = if x == q then true else contains q s

-- `s.add(q)`
unfoldable pub add : ℕ → List ℕ → List ℕ
add q s = if contains q s then s else s ++ q ∷ []

-- `s.remove(q)` at a member. (A call at another value raises KeyError: `Pool.remove_each`.)
unfoldable pub discard : ℕ → List ℕ → List ℕ
discard q [] = []
discard q (x ∷ s) = let rest = discard q s in if x == q then s else x ∷ rest

-- `range(n)`, from `i` on.
unfoldable pub range_from : ℕ → ℕ → List ℕ
range_from i zero = []
range_from i (suc n) = i ∷ range_from (suc i) n

abbrev pub range : ℕ → List ℕ
range n = range_from 0 n

unfoldable pub count : ℕ → List ℕ → ℕ
count q [] = 0
count q (x ∷ s) = let rest = count q s in if x == q then suc rest else rest

-- No number stands in the list twice.
abbrev pub IsDistinct : List ℕ → Type 0
IsDistinct s = (q : ℕ) → count q s ≤ 1

pub count-cons :
    (q x : ℕ) (s t : List ℕ) → count q s ≡ count q t → count q (x ∷ s) ≡ count q (x ∷ t)
unfolding count
count-cons q x s t h = ground arith

pub count-append : (q : ℕ) (xs ys : List ℕ) → count q (xs ++ ys) ≡ count q xs + count q ys
unfolding count
count-append q [] ys = omega arith
count-append q (x ∷ xs) ys = ground (arith, count-append q xs ys)

pub contains-count : (q : ℕ) (s : List ℕ) → contains q s ≡ true → 0 < count q s
unfolding contains count
contains-count q [] h = cc
contains-count q (x ∷ s) h = ground (arith, contains-count q s)

pub not_contains-count : (q : ℕ) (s : List ℕ) → contains q s ≡ false → count q s ≡ 0
unfolding contains count
not_contains-count q [] h = refl
not_contains-count q (x ∷ s) h = ground (arith, not_contains-count q s)

pub count-contains : (q : ℕ) (s : List ℕ) → 0 < count q s → contains q s ≡ true
count-contains q s h = ground (arith, not_contains-count q s)

pub count-discard :
    (q p : ℕ) (s : List ℕ)
    → 0 < count p s
    → count q (discard p s) + (if p == q then 1 else 0) ≡ count q s
unfolding count discard
count-discard q p [] h = elim h [ ]
count-discard q p (x ∷ s) h = ground (arith, count-discard q p s)

pub count-add :
    (q p : ℕ) (s : List ℕ)
    → count p s ≡ 0
    → count q (add p s) ≡ count q s + (if p == q then 1 else 0)
unfolding add count
count-add q p s h = ground (arith, contains-count p s, count-append q s (p ∷ []))

pub count-select-le : (q : ℕ) (t : ℕ → Bool) (s : List ℕ) → count q (select t s) ≤ count q s
unfolding count select
count-select-le q t [] = omega arith
count-select-le q t (x ∷ s) = ground (arith, count-select-le q t s)

pub count-take-le : (q n : ℕ) (s : List ℕ) → count q (take n s) ≤ count q s
unfolding count
count-take-le q zero s = omega arith
count-take-le q (suc n) [] = omega arith
count-take-le q (suc n) (x ∷ s) = ground (arith, count-take-le q n s)

pub count-range_from_below : (q i n : ℕ) → q < i → count q (range_from i n) ≡ 0
unfolding count range_from
count-range_from_below q i zero h = refl
count-range_from_below q i (suc n) h = ground (arith, count-range_from_below q (suc i) n)

pub count-range_from-le : (q i n : ℕ) → count q (range_from i n) ≤ 1
unfolding count range_from
count-range_from-le q i zero = omega arith
count-range_from-le q i (suc n) =
    ground (arith, count-range_from-le q (suc i) n, count-range_from_below q (suc i) n)

pub length-range_from : (i n : ℕ) → length (range_from i n) ≡ n
unfolding range_from
length-range_from i zero = refl
length-range_from i (suc n) = omega (arith, length-range_from (suc i) n)

-- All members satisfy what each number that the set contains satisfies.
pub All-contained : (P : ℕ → Type 0) (s : List ℕ) → ((q : ℕ) → contains q s ≡ true → P q) → All P s
unfolding contains
All-contained P [] h = tt
All-contained P (x ∷ s) h = (h x (ground arith), All-contained P s (λ q m. h q (ground arith)))

pub contains-All : (P : ℕ → Type 0) (q : ℕ) (s : List ℕ) → All P s → contains q s ≡ true → P q
unfolding contains
contains-All P q [] h m = absurd (cc)
contains-All P q (x ∷ s) h m = elim (Bool-cases (x == q)) [
  | inl e ↦ subst P ((==_iff x q).0 e) h.0
  | inr e ↦ contains-All P q s h.1 (ground arith)
]

pub contains-select :
    (q : ℕ) (t : ℕ → Bool) (s : List ℕ)
    → contains q (select t s) ≡ true
    → (contains q s ≡ true) × (t q ≡ true)
unfolding contains select
contains-select q t [] h = absurd (cc)
contains-select q t (x ∷ s) h = ground (arith, contains-select q t s)

pub contains-select_of :
    (q : ℕ) (t : ℕ → Bool) (s : List ℕ)
    → contains q s ≡ true
    → t q ≡ true
    → contains q (select t s) ≡ true
unfolding contains select
contains-select_of q t [] h k = h
contains-select_of q t (x ∷ s) h k = ground (arith, contains-select_of q t s)

pub contains-append :
    (q : ℕ) (s t : List ℕ) → contains q (s ++ t) ≡ (if contains q s then true else contains q t)
unfolding contains
contains-append q [] t = refl
contains-append q (x ∷ s) t = ground (arith, contains-append q s t)

pub contains-take : (q n : ℕ) (s : List ℕ) → contains q (take n s) ≡ true → contains q s ≡ true
contains-take q n s h =
    count-contains q s (omega (arith, contains-count q (take n s) h, count-take-le q n s))
