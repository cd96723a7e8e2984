-- ===== src/Tool/Pop/Bounds.antt =====
-- The load balance that `finishMeasurement`, src/critical-core.cpp, prints, and its two factors, for one
-- process and for many.
use otf_cpt.Common.{subst, Bool, true, false, List, ◌∷◌, All, arith}
use otf_cpt.Common.Int.{ℤ, pos, ◌*ℤ◌, ◌≤ℤ◌, *ℤ_one, *ℤ_comm, *ℤ_pos, *ℤ_mono}
use otf_cpt.Common.Ratio.{whole, ◌over◌, IsAtMostOne}
use otf_cpt.Tool.World.{Summary}
use otf_cpt.Tool.Pop.{
  Collective, uc_max, uc_avg, over_processes, one_process, measured, add_runtime, pop_metrics,
  results,
}
use otf_cpt.Tool.Pop.Reduction.{
  IsReduction, IsBalanced, sums, balanced, maxima, counts, sum_useful_le, sum_balanced_le,
  sum_balanced_ge,
}

-- For a sum `s`, a sum of maxima `b`, the largest maximum `top` and the number of threads
split-AtMostOne :
    (s b top threads : ℤ)
    → pos 1 ≤ℤ threads
    → pos 1 ≤ℤ top
    → pos 1 ≤ℤ b
    → s ≤ℤ b
    → b ≤ℤ top *ℤ threads
    → let lb = record { num = s; den = threads } over whole top in
      let mpi_lb = record { num = b; den = threads } over whole top in
      IsAtMostOne lb × IsAtMostOne mpi_lb × IsAtMostOne (lb over mpi_lb)
split-AtMostOne s b top threads t_pos top_pos b_pos s_le b_le =
    let all_pos = *ℤ_pos threads top t_pos top_pos in
    simp *ℤ_one (
      (all_pos, le_trans_ℤ s b _ s_le bound),
      (all_pos, bound),
      (*ℤ_pos _ _ all_pos b_pos, rw (*ℤ_comm (threads *ℤ top)) (*ℤ_mono s b _ s_le (omega arith))),
    )
  where
    bound : b ≤ℤ threads *ℤ top
    bound = subst (λ r. b ≤ℤ r) (*ℤ_comm top threads) b_le

    le_trans_ℤ : (a b c : ℤ) → a ≤ℤ b → b ≤ℤ c → a ≤ℤ c
    le_trans_ℤ a b c h k = omega arith

-- If MPI reduces as it documents, and in each process the useful time of the threads sums up to at
-- most their number, which is not 0, times their maximum, which is not negative, then at process 0 the
-- load balance, that of MPI and that of OpenMP are at most one, with or without a reduction over the
-- processes, provided that the largest useful time is at least the unit of time.
pub results-AtMostOne :
    (collective : Collective)
    → IsReduction collective
    → (use_mpi : Bool) (root : Summary) (others : List Summary) → All IsBalanced (root ∷ others)
    → pos 1 ≤ℤ (results collective use_mpi root others).0.max.useful
    → let e = (results collective use_mpi root others).1 in
      IsAtMostOne e.lb × IsAtMostOne e.mpi_lb × IsAtMostOne e.omp_lb
unfolding results measured over_processes one_process add_runtime pop_metrics uc_max uc_avg
results-AtMostOne collective law true root others all top_pos =
    let l = root ∷ others in
    let top = collective.max_over (maxima l) in
    let attained = law.max_over-Any root.useful_max (maxima others) in
    split-AtMostOne (collective.sum_over (sums l)) (collective.sum_over (balanced l)) top
      (pos (collective.count_over (counts l))) (rw law.count_over (omega (arith, all.0.threads)))
      top_pos (rw law.sum_over (omega (arith, sum_balanced_ge l top all attained)))
      (rw (law.sum_over (sums l), law.sum_over (balanced l)) (sum_useful_le l all))
      (rw (law.sum_over (balanced l), law.count_over)
        (sum_balanced_le l top (law.max_over_ge (maxima l))))
results-AtMostOne collective law false root others all top_pos =
    let threads_pos : pos 1 ≤ℤ pos root.num_threads = omega (arith, all.0.threads) in
    split-AtMostOne root.useful_sum (root.useful_max *ℤ pos root.num_threads) root.useful_max _
      threads_pos top_pos (*ℤ_pos _ _ top_pos threads_pos) all.0.useful_sum (omega arith)
