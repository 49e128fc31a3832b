-- ===== src/Scheduler/Held.antt =====
-- The qubits that the jobs which a scheduler selected hold: those of the jobs that it did not
-- reject, which are the ones that the kernel then executes.
use dev_q.Prelude.{
  ℕ, ◌+◌, ◌<◌, ◌≡◌, refl, List, [], ◌∷◌, ◌++◌, Option, none, some, count, count-append,
  if◌then◌else◌, arith,
}
use dev_q.Alloc.{values}
use dev_q.Process.{Qcb, Jobs, is_rejected, get_job}

module _ {F : Type 0} where
  abbrev pub qubits_of : Option (Qcb F) → List ℕ
  qubits_of none = []
  qubits_of (some j) = if is_rejected j.state then [] else values j.v2p_map

  unfoldable pub held : Jobs F → List ℕ → List ℕ
  held jobs [] = []
  held jobs (id ∷ ids) = qubits_of (get_job jobs id) ++ held jobs ids

  pub count-held-cons :
      (q id : ℕ) (jobs : Jobs F) (ids : List ℕ)
      → count q (held jobs (id ∷ ids))
        ≡ count q (qubits_of (get_job jobs id)) + count q (held jobs ids)
  unfolding held
  count-held-cons q id jobs ids = count-append q (qubits_of (get_job jobs id)) (held jobs ids)

  pub count-held-append :
      (q : ℕ) (jobs : Jobs F) (ids more : List ℕ)
      → count q (held jobs (ids ++ more)) ≡ count q (held jobs ids) + count q (held jobs more)
  unfolding held count
  count-held-append q jobs [] more = omega arith
  count-held-append q jobs (id ∷ ids) more = omega (
    arith,
    count-append q (qubits_of (get_job jobs id)) (held jobs (ids ++ more)),
    count-append q (qubits_of (get_job jobs id)) (held jobs ids),
    count-held-append q jobs ids more,
  )

  -- Jobs that did not change hold what they held.
  held-congr :
      (jobs jobs' : Jobs F) (ids : List ℕ)
      → ((i : ℕ) → 0 < count i ids → get_job jobs' i ≡ get_job jobs i)
      → held jobs' ids ≡ held jobs ids
  unfolding held count
  held-congr jobs jobs' [] h = refl
  held-congr jobs jobs' (id ∷ ids) h =
      rw (h id (ground arith), held-congr jobs jobs' ids (λ i m. h i (ground arith)))
