-- ===== src/Tool/Pop/Alone.antt =====
-- The two branches of `finishMeasurement`, src/critical-core.cpp, for a program of one process.
use otf_cpt.Common.{ℕ, ◌≡◌, sym, ap, ◌∙◌, inl, inr, true, false, List, [], ◌∷◌, arith}
use otf_cpt.Common.Int.{ℤ, int_laws}
use otf_cpt.Tool.World.{Summary}
use otf_cpt.Tool.Pop.{
  Collective, Shared, reduced, divided, pop_metrics, uc_max, uc_avg, over_processes, one_process,
  measured, add_runtime, results,
}
use otf_cpt.Tool.Pop.Reduction.{IsReduction}

reduced_one :
    (f : List ℤ → ℤ) → ((a : ℤ) → f (a ∷ []) ≡ a) → (s : Shared ℤ) → reduced f (s ∷ []) ≡ s
reduced_one f h s = λ i. record {
  useful = h s.useful i;
  ompi_proc = h s.ompi_proc i;
  oomp = h s.oomp i;
  useful_proc = h s.useful_proc i;
  oomp_proc = h s.oomp_proc i;
  local_time = h s.local_time i;
  balanced = h s.balanced i;
}

module _ (collective : Collective) (law : IsReduction collective) where
  max_over_one : (a : ℤ) → collective.max_over (a ∷ []) ≡ a
  max_over_one a = elim (law.max_over-Any a []) [ inl e ↦ e | inr e ↦ absurd e ]

  sum_over_one : (a : ℤ) → collective.sum_over (a ∷ []) ≡ a
  sum_over_one a = law.sum_over (a ∷ []) ∙ omega (arith, int_laws)

  count_over_one : (a : ℕ) → collective.count_over (a ∷ []) ≡ a
  count_over_one a = law.count_over (a ∷ []) ∙ omega arith

  measured_one :
      (root : Summary)
      → root.total_threads ≡ root.num_threads
      → over_processes collective root [] ≡ one_process root
  unfolding over_processes one_process
  measured_one root e =
      let threads = count_over_one root.num_threads in
      λ i. record {
        number_of_procs = 1;
        total_threads = (threads ∙ sym e) i;
        runtime = max_over_one root.runtime i;
        avg = divided 1 (threads i) (reduced_one collective.sum_over sum_over_one (uc_avg root) i);
        max = reduced_one collective.max_over max_over_one (uc_max root) i;
      }

  -- If MPI reduces as it documents, a program of one process whose threads were all listed prints the
  -- same values with a reduction over the processes as without one.
  pub results-alone :
      (root : Summary)
      → root.total_threads ≡ root.num_threads
      → results collective true root [] ≡ results collective false root []
  unfolding results measured
  results-alone root e =
      ap (λ m. (add_runtime m, pop_metrics (add_runtime m) root)) (measured_one root e)
