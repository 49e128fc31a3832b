-- ===== src/Kernel/Log.antt =====
-- The event log of kernel/kernel.py: what the operations of the kernel append to it.
pub mod Operations
pub mod Routing
pub mod Cycles
use dev_q.Prelude.{
  ℕ, zero, suc, ◌+◌, ◌≤◌, ◌≡◌, refl, sym, ap, ◌∙◌, subst, List, [], ◌∷◌, ◌++◌, append_assoc,
  append-nil, map, length, length-append, range_from, All, All-append, arith,
}
use dev_q.Kernel.{Event, Stamped, Kernel, emit}

range_from-append :
    (i j m n k : ℕ) → j ≡ i + m → k ≡ m + n → range_from i m ++ range_from j n ≡ range_from i k
unfolding range_from
range_from-append i j zero n k p q =
    let starts : j ≡ i = omega (arith, p) in
    let lengths : k ≡ n = omega (arith, q) in rw (starts, lengths) refl
range_from-append i j (suc m) n zero p q = absurd (omega (arith, q))
range_from-append i j (suc m) n (suc k) p q =
    ap (λ l. i ∷ l) (range_from-append (suc i) j m n k (omega (arith, p)) (omega (arith, q)))

map-append {ℓ κ} :
    {A : Type ℓ} {B : Type κ} (f : A → B) (xs ys : List A) → map f (xs ++ ys) ≡ map f xs ++ map f ys
map-append f [] ys = refl
map-append f (x ∷ xs) ys = ap (λ l. f x ∷ l) (map-append f xs ys)

module _ {F : Type 0} where
  abbrev pub seqs : List (Stamped F) → List ℕ
  seqs = map (λ s. s.seq)

  -- From `before` to `after` the log has only grown; the new records are numbered on from the
  -- kernel's counter without a gap, and carry its cycle. The clock is not read backwards.
  pub record IsLogged (before after : Kernel F) : Type 0 where
    pub new : List (Stamped F)
    pub grown : after.log ≡ before.log ++ new
    pub numbered : seqs new ≡ range_from before.seq (length new)
    pub dated : All (λ s. s.cycle ≡ before.cycle) new
    pub next : after.seq ≡ before.seq + length new
    pub cycle : after.cycle ≡ before.cycle
    pub observed : before.observations ≤ after.observations

  pub IsLogged-same :
      (k k' : Kernel F)
      → k'.log ≡ k.log
      → k'.seq ≡ k.seq
      → k'.cycle ≡ k.cycle
      → k.observations ≤ k'.observations
      → IsLogged k k'
  unfolding range_from
  IsLogged-same k k' l s c o = record {
    new = [];
    grown = l ∙ sym (append-nil k.log);
    numbered = refl;
    dated = tt;
    next = omega (arith, s);
    cycle = c;
    observed = o;
  }

  pub emit-IsLogged : (e : Event F) (k : Kernel F) → IsLogged k (emit e k)
  unfolding emit range_from
  emit-IsLogged e k = record {
    new = record { event = e; cycle = k.cycle; seq = k.seq } ∷ [];
    grown = refl;
    numbered = refl;
    dated = (refl, tt);
    next = omega arith;
    cycle = refl;
    observed = omega arith;
  }

  pub IsLogged-trans : (a b c : Kernel F) → IsLogged a b → IsLogged b c → IsLogged a c
  IsLogged-trans a b c p q = record {
    new = p.new ++ q.new;
    grown = q.grown ∙ ap (λ l. l ++ q.new) p.grown ∙ append_assoc a.log p.new q.new;
    numbered =
        map-append (λ (s : Stamped F). s.seq) p.new q.new
        ∙ ap (λ l. l ++ seqs q.new) p.numbered
        ∙ ap (λ l. range_from a.seq (length p.new) ++ l) q.numbered
        ∙ range_from-append a.seq b.seq (length p.new) (length q.new) (length (p.new ++ q.new))
            p.next (length-append p.new q.new);
    dated =
        All-append (λ s. s.cycle ≡ a.cycle) p.new q.new p.dated
          (subst (λ (n : ℕ). All (λ s. s.cycle ≡ n) q.new) p.cycle q.dated);
    next = omega (arith, p.next, q.next, length-append p.new q.new);
    cycle = q.cycle ∙ p.cycle;
    observed = omega (arith, p.observed, q.observed);
  }
