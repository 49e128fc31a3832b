-- ===== src/Scheduler/Ordered/Depth.antt =====
-- The sort of a scheduler's queue by circuit depth.
use dev_q.Prelude.{
  ℕ, ◌≡◌, refl, ◌∙◌, ap, subst, List, [], ◌∷◌, map, sort_by, IsSortedBy, sort_by-IsSortedBy,
  sort_by-All, count-map-sort_by, count, All,
}
use dev_q.Errors.{Result, ok, ◌>>=◌, >>=-eq-ok, ok-injective, or_raise, key_error}
use dev_q.Circuit.{get_depth}
use dev_q.Process.{Jobs, get_job}
use dev_q.Scheduler.Ordered.{depths, sort_queue}

module _ {F : Type 0} where
  -- The depth of the circuit of a job.
  abbrev pub depth_of : Jobs F → ℕ → Result ℕ
  depth_of jobs id = do j ← or_raise (get_job jobs id) key_error; get_depth j.circuit

  -- The queue in ascending order of the depths that `get_depth` gives.
  pub record IsDepthSorted (jobs : Jobs F) (queue sorted : List ℕ) : Type 0 where
    pub same : (id : ℕ) → count id sorted ≡ count id queue
    pub keyed : List (ℕ × ℕ)
    pub named : sorted ≡ map (λ (e : ℕ × ℕ). e.1) keyed
    pub depths : All (λ (e : ℕ × ℕ). depth_of jobs e.1 ≡ ok e.0) keyed
    pub ascending : IsSortedBy (λ (e : ℕ × ℕ). e.0) keyed

  depths_lem :
      (jobs : Jobs F) (queue : List ℕ) (keyed : List (ℕ × ℕ))
      → depths jobs queue ≡ ok keyed
      → (map (λ (e : ℕ × ℕ). e.1) keyed ≡ queue)
        × All (λ (e : ℕ × ℕ). depth_of jobs e.1 ≡ ok e.0) keyed
  unfolding depths
  depths_lem jobs [] keyed e =
      subst
        (λ (k : List (ℕ × ℕ)).
          (map (λ (e : ℕ × ℕ). e.1) k ≡ []) × All (λ (e : ℕ × ℕ). depth_of jobs e.1 ≡ ok e.0) k)
        (ok-injective e) (refl, tt)
  depths_lem jobs (id ∷ ids) keyed e =
      let (j, found, e1) = >>=-eq-ok (or_raise (get_job jobs id) key_error) _ e in
      let (d, deep, e2) = >>=-eq-ok (get_depth j.circuit) _ e1 in
      let (rest, tail, e3) = >>=-eq-ok (depths jobs ids) _ e2 in
      let (names, all) = depths_lem jobs ids rest tail in
      subst
        (λ (k : List (ℕ × ℕ)).
          (map (λ (e : ℕ × ℕ). e.1) k ≡ id ∷ ids)
          × All (λ (e : ℕ × ℕ). depth_of jobs e.1 ≡ ok e.0) k)
        (ok-injective e3) (ap (λ l. id ∷ l) names, (rw (found, ◌>>=◌) deep, all))

  pub sort_queue-IsDepthSorted :
      (jobs : Jobs F) (queue sorted : List ℕ)
      → sort_queue jobs queue ≡ ok sorted
      → IsDepthSorted jobs queue sorted
  unfolding sort_queue
  sort_queue-IsDepthSorted jobs queue sorted e =
      let (keyed, ds, e1) = >>=-eq-ok (depths jobs queue) _ e in
      let (names, all) = depths_lem jobs queue keyed ds in
      subst (IsDepthSorted jobs queue) (ok-injective e1) (record {
        same = λ id.
            count-map-sort_by (λ (e : ℕ × ℕ). e.0) (λ (e : ℕ × ℕ). e.1) id keyed
            ∙ ap (count id) names;
        keyed = sort_by (λ (e : ℕ × ℕ). e.0) keyed;
        named = refl;
        depths =
            sort_by-All (λ (e : ℕ × ℕ). e.0) (λ (e : ℕ × ℕ). depth_of jobs e.1 ≡ ok e.0) keyed all;
        ascending = sort_by-IsSortedBy (λ (e : ℕ × ℕ). e.0) keyed;
      })
