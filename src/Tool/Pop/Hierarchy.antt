-- ===== src/Tool/Pop/Hierarchy.antt =====
-- How the efficiencies at the end of `finishMeasurement`, src/critical-core.cpp, are factors of each
-- other.
use otf_cpt.Common.{◌≢◌, subst}
use otf_cpt.Common.Int.{pos, *ℤ_nonzero}
use otf_cpt.Common.Ratio.{
  Ratio, IsUsual, ◌times◌, ◌over◌, whole, ◌≈◌, ≈_refl, ≈_trans, times_congr, times_interchange,
  over-times, over-times_right, over-chain, over-Usual, whole-Usual,
}
use otf_cpt.Tool.World.{Summary}
use otf_cpt.Tool.Pop.{Measured, Efficiency, pop_metrics}

-- Nothing that is divided by is 0.
pub record AreMeasured (m : Measured) (root : Summary) : Type 0 where
  pub runtime : m.runtime ≢ pos 0
  pub useful : m.max.useful ≢ pos 0
  pub useful_proc : m.max.useful_proc ≢ pos 0
  pub useful_critical : root.useful_critical ≢ pos 0
  pub oomp_critical : root.oomp_critical ≢ pos 0
  pub balanced : IsUsual m.avg.balanced
  pub threads : m.avg.useful.den ≢ pos 0

-- The tree of the metrics: each is the product of the two below it, along the kinds of loss and along
-- MPI and OpenMP.
pub record IsHierarchy (e : Efficiency) : Type 0 where
  pub comm_e : e.comm_e ≈ e.ser_e times e.te
  pub pe : e.pe ≈ e.lb times (e.ser_e times e.te)
  pub lb_split : e.lb ≈ e.mpi_lb times e.omp_lb
  pub ser_e_split : e.ser_e ≈ e.mpi_ser_e times e.omp_ser_e
  pub te_split : e.te ≈ e.mpi_te times e.omp_te
  pub comm_e_split : e.comm_e ≈ e.mpi_comm_e times e.omp_comm_e
  pub pe_split : e.pe ≈ e.mpi_pe times e.omp_pe

both_split :
    (x y a b c d : Ratio)
    → x ≈ a times b
    → y ≈ c times d
    → x times y ≈ (a times c) times (b times d)
both_split x y a b c d e f =
    subst (λ r. x times y ≈ r) (times_interchange a b c d) (times_congr e f)

-- If nothing that is divided by is 0, then each efficiency is finite and the product of those below it,
-- along the kinds of loss and along MPI and OpenMP.
pub pop_metrics-IsHierarchy :
    (m : Measured) (root : Summary) → AreMeasured m root → IsHierarchy (pop_metrics m root)
unfolding pop_metrics
pop_metrics-IsHierarchy m root h =
    let real = whole-Usual m.runtime h.runtime in
    let top = whole-Usual m.max.useful h.useful in
    let ideal = whole-Usual root.useful_critical h.useful_critical in
    let outside = whole-Usual root.oomp_critical h.oomp_critical in
    let proc = whole-Usual m.max.useful_proc h.useful_proc in
    let ser_e = over-Usual _ _ top ideal in
    let te = over-Usual _ _ ideal real in
    let comm_e = over-Usual _ _ top real in
    let mpi_lb = over-Usual m.avg.balanced _ h.balanced top in
    let chain = over-chain _ _ (whole m.runtime) top.1 ideal real in
    let lb_finite = *ℤ_nonzero m.avg.useful.den _ h.threads h.useful in
    let lb = over-times (m.avg.useful over whole m.max.useful) _ lb_finite mpi_lb in
    let ser_e_split = over-times _ _ ser_e.1 (over-Usual _ _ proc ideal) in
    let te_split = over-times_right _ _ te.1 (over-Usual _ _ outside real) in
    let comm_e_split = ≈_trans chain (both_split _ _ _ _ _ _ ser_e_split te_split) in
    record {
      comm_e = chain;
      pe = times_congr (≈_refl _ lb_finite) chain;
      lb_split = lb;
      ser_e_split = ser_e_split;
      te_split = te_split;
      comm_e_split = comm_e_split;
      pe_split = both_split _ _ _ _ _ _ lb comm_e_split;
    }
