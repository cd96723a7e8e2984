-- ===== src/Openmp/Calls/Balance.antt =====
-- src/ompt-critical.cpp and src/critical-core.cpp together: processes that run OpenMP callbacks and end
-- with `finishMeasurement`.
use otf_cpt.Common.{
  ℕ, ◌≡◌, sym, subst, ap, ◌∙◌, Bool, false, some, some-injective, List, [], ◌∷◌, map, All,
}
use otf_cpt.Common.Int.{ℤ, pos, ◌≤ℤ◌}
use otf_cpt.Common.Ratio.{IsAtMostOne}
use otf_cpt.Clock.Metric.{Metric}
use otf_cpt.Tool.World.{World, Summary}
use otf_cpt.Tool.Measure.{finish_measurement}
use otf_cpt.Tool.Pop.{Collective, results}
use otf_cpt.Tool.Pop.Reduction.{IsReduction, IsBalanced}
use otf_cpt.Tool.Pop.Bounds.{results-AtMostOne}
use otf_cpt.Openmp.Objects.{Sizes}
use otf_cpt.Openmp.Calls.{Reach}
use otf_cpt.Openmp.Calls.Finish.{Reach-finish_measurement}
use otf_cpt.Openmp.Returns.Valid.{Begun}

-- A process that calls of the OpenMP runtime have led to `world`, and that finishes there on `thread`.
pub record Process (M : Type 0) ⦃metric : Metric M⦄ (sizes : Sizes) (runtime : ℤ) : Type 0 where
  pub stopped : Bool
  pub dump : Bool
  pub times : ℕ → ℤ
  pub world : World M
  pub reached : Reach sizes runtime stopped dump times world
  pub thread : ℕ
  pub begun : Begun thread world
  pub unfinished : world.finished ≡ false
  pub first : ℕ
  pub rest : List ℕ
  pub listed : world.thread_clocks ≡ first ∷ rest
  pub after : World M
  pub finishes : finish_measurement runtime thread world ≡ some (tt, after)
  pub values : Summary
  pub stored : after.summary ≡ some values

module _ {M : Type 0} ⦃metric : Metric M⦄ (sizes : Sizes) (runtime : ℤ) where
  values-Balanced : (p : Process M sizes runtime) → IsBalanced p.values
  values-Balanced p =
      let g =
        Reach-finish_measurement sizes runtime p.thread p.first p.rest p.reached p.begun
          p.unfinished p.listed in
      let same : g.after ≡ p.after =
        ap (λ (q : Unit {0} × World M). q.1) (some-injective _ _ (sym g.returned ∙ p.finishes)) in
      subst IsBalanced (some-injective _ _ (sym g.stored ∙ ap (λ w. w.summary) same ∙ p.stored))
        g.balanced

  All-Balanced : (l : List (Process M sizes runtime)) → All IsBalanced (map (λ p. p.values) l)
  All-Balanced [] = tt
  All-Balanced (p ∷ l) = (values-Balanced p, All-Balanced l)

  -- Each of some processes has got where calls of the OpenMP runtime lead to, and finishes the measurement
  -- for the first time there, on a thread that has begun, with a thread on the list. If MPI reduces as it
  -- documents, and the largest useful time is at least the unit of time, then at process 0 the load
  -- balance, that of MPI and that of OpenMP are at most one, with or without a reduction.
  pub processes-AtMostOne :
      (collective : Collective)
      → IsReduction collective
      → (use_mpi : Bool) (root : Process M sizes runtime) (others : List (Process M sizes runtime))
      → pos 1 ≤ℤ (results collective use_mpi root.values (map (λ p. p.values) others)).0.max.useful
      → let e = (results collective use_mpi root.values (map (λ p. p.values) others)).1 in
        IsAtMostOne e.lb × IsAtMostOne e.mpi_lb × IsAtMostOne e.omp_lb
  processes-AtMostOne collective law use_mpi root others top_pos =
      results-AtMostOne collective law use_mpi root.values _ (All-Balanced (root ∷ others)) top_pos
