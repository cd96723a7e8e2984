-- ===== src/Tool/Pop/Tests.antt =====
-- The end of `finishMeasurement`, src/critical-core.cpp, for two processes of two threads.
use otf_cpt.Common.{◌≡◌, refl, ◌⊎◌, inl, inr, true, false, Bool-cases, List, [], ◌∷◌, All, arith}
use otf_cpt.Common.Int.{ℤ, pos, ◌≤ℤ◌, ◌+ℤ◌, ◌*ℤ◌, max_ℤ, max_ℤ_ge, ltb_ℤ}
use otf_cpt.Tool.World.{Summary}
use otf_cpt.Tool.Pop.{
  Collective, Measured, over_processes, measured, add_runtime, pop_metrics, results, uc_max, uc_avg,
}
use otf_cpt.Tool.Pop.Reduction.{Any, IsReduction, sum, sum_ℤ}
use otf_cpt.Tool.Pop.Hierarchy.{AreMeasured, IsHierarchy, pop_metrics-IsHierarchy}
use otf_cpt.Tool.Pop.Alone.{results-alone}

abbrev largest : List ℤ → ℤ
largest [] = pos 0
largest (a ∷ []) = a
largest (a ∷ b ∷ l) = max_ℤ a (largest (b ∷ l))

abbrev pub plain : Collective
plain = record { max_over = largest; sum_over = sum_ℤ; count_over = sum }

All-le : (a b : ℤ) (l : List ℤ) → a ≤ℤ b → All (λ c. c ≤ℤ a) l → All (λ c. c ≤ℤ b) l
All-le a b [] h all = tt
All-le a b (c ∷ l) h all = (omega (arith, all.0), All-le a b l h all.1)

largest_ge : (l : List ℤ) → All (λ a. a ≤ℤ largest l) l
largest_ge [] = tt
largest_ge (a ∷ []) = (omega arith, tt)
largest_ge (a ∷ b ∷ l) =
    let ge = max_ℤ_ge a (largest (b ∷ l)) in (ge.0, All-le _ _ (b ∷ l) ge.1 (largest_ge (b ∷ l)))

max_ℤ-cases : (a b : ℤ) → (max_ℤ a b ≡ a) ⊎ (max_ℤ a b ≡ b)
unfolding max_ℤ
max_ℤ-cases a b = elim (Bool-cases (ltb_ℤ a b)) [
  | inl e ↦ inr (rw e refl)
  | inr e ↦ inl (rw e refl)
]

Any-path : {a b : ℤ} (l : List ℤ) → b ≡ a → Any (λ c. a ≡ c) l → Any (λ c. b ≡ c) l
Any-path l e any = rw e any

largest-Any : (a : ℤ) (l : List ℤ) → Any (λ b. largest (a ∷ l) ≡ b) (a ∷ l)
largest-Any a [] = inl refl
largest-Any a (b ∷ l) = elim (max_ℤ-cases a (largest (b ∷ l))) [
  | inl e ↦ inl e
  | inr e ↦ inr (Any-path (b ∷ l) e (largest-Any b l))
]

pub plain-IsReduction : IsReduction plain
plain-IsReduction = record {
  max_over_ge = largest_ge;
  max_over-Any = largest-Any;
  sum_over = λ l. refl;
  count_over = λ l. refl;
}

abbrev first : Summary
first = record {
  runtime = pos 100;
  num_threads = 2;
  total_threads = 2;
  useful_sum = pos 110;
  useful_max = pos 70;
  oomp_sum = pos 160;
  oomp_max = pos 90;
  ompi_proc = pos 80;
  useful_proc = pos 75;
  oomp_proc = pos 90;
  ompi_critical = pos 90;
  useful_critical = pos 85;
  oomp_critical = pos 95;
}

abbrev second : Summary
second = record first {
  runtime = pos 98;
  useful_sum = pos 95;
  useful_max = pos 60;
  useful_proc = pos 78;
}

abbrev both : Measured
both = (results plain true first (second ∷ [])).0

both-AreMeasured : AreMeasured both first
unfolding results measured over_processes add_runtime uc_max uc_avg max_ℤ ◌+ℤ◌ ◌*ℤ◌
both-AreMeasured = record {
  runtime = λ e. cc;
  useful = λ e. cc;
  useful_proc = λ e. cc;
  useful_critical = λ e. cc;
  oomp_critical = λ e. cc;
  balanced = (λ e. cc, λ e. cc);
  threads = λ e. cc;
}

pop_metrics-IsHierarchy_example : IsHierarchy (pop_metrics both first)
pop_metrics-IsHierarchy_example = pop_metrics-IsHierarchy both first both-AreMeasured

results-alone_example : results plain true first [] ≡ results plain false first []
results-alone_example = results-alone plain plain-IsReduction first refl

-- Load balance 205 / (4 * 70)
balance : (results plain true first (second ∷ [])).1.lb ≡ record { num = pos 205; den = pos 280 }
unfolding results measured over_processes add_runtime pop_metrics uc_max uc_avg max_ℤ ◌+ℤ◌ ◌*ℤ◌
balance = refl
