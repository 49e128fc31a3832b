-- ===== src/Circuit/Depth/Levels.antt =====
-- The levels of the qubits that `get_depth` of circuits/circuit_rep.py reads and writes.
use dev_q.Prelude.{
  ℕ, zero, suc, ◌≤◌, ◌<◌, ◌≡◌, refl, sym, subst, ==_iff, Option-cases, true, List, [], ◌∷◌, some,
  inl, inr, get_elem?, set, replicate, contains, leb, All, Bool-cases, ◌==◌, if◌then◌else◌, arith,
}
use dev_q.Errors.{ok, >>=-eq-ok, ok-injective, or_raise, index_error}
use dev_q.Circuit.{max_from, max_of, read_each, write_each}

max_from-ge : (m : ℕ) (xs : List ℕ) → m ≤ max_from m xs
unfolding max_from
max_from-ge m [] = omega arith
max_from-ge m (x ∷ xs) = ground (arith, max_from-ge (if leb x m then m else x) xs)

max_from-All : (m : ℕ) (xs : List ℕ) → All (λ x. x ≤ max_from m xs) xs
unfolding max_from
max_from-All m [] = tt
max_from-All m (x ∷ xs) = (
  ground (arith, max_from-ge (if leb x m then m else x) xs),
  max_from-All (if leb x m then m else x) xs,
)

max_from-le : (m b : ℕ) (xs : List ℕ) → m ≤ b → All (λ x. x ≤ b) xs → max_from m xs ≤ b
unfolding max_from
max_from-le m b [] h all = h
max_from-le m b (x ∷ xs) h all =
    max_from-le (if leb x m then m else x) b xs (ground (arith, h, all.0)) all.1

pub max_of-All : (xs : List ℕ) (m : ℕ) → max_of xs ≡ ok m → All (λ x. x ≤ m) xs
unfolding max_of
max_of-All [] m e = absurd (cc)
max_of-All (x ∷ xs) m e =
    subst (λ (n : ℕ). All (λ y. y ≤ n) (x ∷ xs)) (ok-injective e)
      (max_from-ge x xs, max_from-All x xs)

pub max_of-le : (xs : List ℕ) (m b : ℕ) → max_of xs ≡ ok m → All (λ x. x ≤ b) xs → m ≤ b
unfolding max_of
max_of-le [] m b e all = absurd (cc)
max_of-le (x ∷ xs) m b e all =
    subst (λ (n : ℕ). n ≤ b) (ok-injective e) (max_from-le x b xs all.0 all.1)

pub get_elem?-All :
    (P : ℕ → Type 0) (xs : List ℕ) (i n : ℕ) → All P xs → get_elem? xs i ≡ some n → P n
get_elem?-All P [] i n all e = absurd (cc)
get_elem?-All P (x ∷ xs) zero n all e = let same : x ≡ n = cc in subst P same all.0
get_elem?-All P (x ∷ xs) (suc i) n all e = get_elem?-All P xs i n all.1 e

get_elem?-set :
    (xs : List ℕ) (i q v n : ℕ)
    → get_elem? xs q ≡ some n
    → get_elem? (set xs i v) q ≡ some (if i == q then v else n)
get_elem?-set [] i q v n e = absurd (cc)
get_elem?-set (x ∷ xs) zero zero v n e = refl
get_elem?-set (x ∷ xs) zero (suc q) v n e = ground (arith, e)
get_elem?-set (x ∷ xs) (suc i) zero v n e = ground (arith, e)
get_elem?-set (x ∷ xs) (suc i) (suc q) v n e = ground (arith, get_elem?-set xs i q v n e)

pub get_elem?-write_each :
    (v : ℕ) (qs depths : List ℕ) (q n : ℕ)
    → get_elem? depths q ≡ some n
    → get_elem? (write_each v qs depths) q ≡ some (if contains q qs then v else n)
unfolding write_each contains
get_elem?-write_each v [] depths q n e = e
get_elem?-write_each v (p ∷ qs) depths q n e = ground (
  arith,
  get_elem?-write_each v qs (set depths p v) q (if p == q then v else n)
      (get_elem?-set depths p q v n e),
)

All-set :
    (b : ℕ) (xs : List ℕ) (i v : ℕ) → v ≤ b → All (λ x. x ≤ b) xs → All (λ x. x ≤ b) (set xs i v)
All-set b [] i v h all = tt
All-set b (x ∷ xs) zero v h all = (h, all.1)
All-set b (x ∷ xs) (suc i) v h all = (all.0, All-set b xs i v h all.1)

pub All-write_each :
    (b v : ℕ) (qs depths : List ℕ)
    → v ≤ b
    → All (λ x. x ≤ b) depths
    → All (λ x. x ≤ b) (write_each v qs depths)
unfolding write_each
All-write_each b v [] depths h all = all
All-write_each b v (q ∷ qs) depths h all =
    All-write_each b v qs (set depths q v) h (All-set b depths q v h all)

pub All-read_each :
    (P : ℕ → Type 0) (depths qs ds : List ℕ) → All P depths → read_each depths qs ≡ ok ds → All P ds
unfolding read_each
All-read_each P depths [] ds all e = subst (All P) (ok-injective e) tt
All-read_each P depths (q ∷ qs) ds all e =
    let (d, here, e1) = >>=-eq-ok (or_raise (get_elem? depths q) index_error) _ e in
    let (rest, tail, e2) = >>=-eq-ok (read_each depths qs) _ e1 in
    subst (All P) (ok-injective e2) (
      elim (Option-cases (get_elem? depths q)) [
        | inl out ↦ cc (rw out at here)
        | inr (n, found) ↦
            let same : n ≡ d = ok-injective (rw found at here) in
            subst P same (get_elem?-All P depths q n all found)
      ],
      All-read_each P depths qs rest all tail,
    )

-- A level that is read is below every bound of what was read.
pub read_each-le :
    (b : ℕ) (depths qs ds : List ℕ) (q n : ℕ)
    → read_each depths qs ≡ ok ds
    → All (λ d. d ≤ b) ds
    → contains q qs ≡ true
    → get_elem? depths q ≡ some n
    → n ≤ b
unfolding read_each contains
read_each-le b depths [] ds q n e all m f = absurd (cc)
read_each-le b depths (p ∷ qs) ds q n e all m f =
    let (d, here, e1) = >>=-eq-ok (or_raise (get_elem? depths p) index_error) _ e in
    let (rest, tail, e2) = >>=-eq-ok (read_each depths qs) _ e1 in
    let bound : All (λ d. d ≤ b) (d ∷ rest) =
      subst (All (λ (d : ℕ). d ≤ b)) (sym (ok-injective e2)) all in
    elim (Bool-cases (p == q)) [
      | inl same ↦
          let found : get_elem? depths p ≡ some n = rw ((==_iff p q).0 same) f in
          let level : n ≡ d = ok-injective (rw found at here) in rw level bound.0
      | inr other ↦ read_each-le b depths qs rest q n tail bound.1 (ground (arith, other)) f
    ]

pub replicate-All : (n b : ℕ) → All (λ d. d ≤ b) (replicate n 0)
replicate-All zero b = tt
replicate-All (suc n) b = (omega arith, replicate-All n b)

pub get_elem?-replicate : (n q : ℕ) → q < n → get_elem? {A = ℕ} (replicate n 0) q ≡ some 0
get_elem?-replicate zero q h = absurd (omega (arith, h))
get_elem?-replicate (suc n) zero h = refl
get_elem?-replicate (suc n) (suc q) h = get_elem?-replicate n q (omega (arith, h))
