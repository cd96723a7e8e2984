-- ===== src/Tool/Pop.antt =====
-- `finishMeasurement`, src/critical-core.cpp, from the values of the processes to the efficiencies
-- that it prints. `Collective` is what the MPI library does in `PMPI_Reduce`: the maximum and the sum
-- of the values that the processes pass. The counters of the MPI calls and the output are left out.
use otf_cpt.Common.{ℕ, Bool, List, ◌∷◌, map, length, if◌then◌else◌}
use otf_cpt.Common.Int.{ℤ, pos, ◌+ℤ◌, ◌-ℤ◌, ◌*ℤ◌}
use otf_cpt.Common.Ratio.{Ratio, whole, ◌times◌, ◌over◌, plus}
use otf_cpt.Tool.World.{Summary}
pub mod Alone
pub mod Bounds
pub mod Hierarchy
pub mod Reduction
pub mod Tests

pub record Collective : Type 0 where
  pub max_over : List ℤ → ℤ
  pub sum_over : List ℤ → ℤ
  pub count_over : List ℕ → ℕ

-- The arrays of `NUM_SHARED_METRICS` values, with their indices.
pub record Shared (A : Type 0) : Type 0 where
  pub useful : A  -- 0
  pub ompi_proc : A  -- 1
  pub oomp : A  -- 2
  pub useful_proc : A  -- 3
  pub oomp_proc : A  -- 4
  pub local_time : A  -- 5
  pub balanced : A  -- 6

unfoldable pub uc_max : Summary → Shared ℤ
uc_max s = record {
  useful = s.useful_max;
  ompi_proc = s.ompi_proc;
  oomp = s.oomp_max;
  useful_proc = s.useful_proc;
  oomp_proc = s.oomp_proc;
  local_time = s.useful_proc -ℤ s.oomp_proc;
  balanced = s.useful_max;
}

unfoldable pub uc_avg : Summary → Shared ℤ
uc_avg s = record {
  useful = s.useful_sum;
  ompi_proc = s.ompi_proc;
  oomp = s.oomp_sum;
  useful_proc = s.useful_proc;
  oomp_proc = s.oomp_proc;
  local_time = (s.useful_proc -ℤ s.oomp_proc) *ℤ pos s.num_threads;
  balanced = s.useful_max *ℤ pos s.num_threads;
}

-- `maxComputation` and `avgComputation`, with what else is known of all processes.
pub record Measured : Type 0 where
  pub number_of_procs : ℕ
  pub total_threads : ℕ
  pub runtime : ℤ
  pub avg : Shared Ratio
  pub max : Shared ℤ

-- An array reduced element by element
abbrev pub reduced : (List ℤ → ℤ) → List (Shared ℤ) → Shared ℤ
reduced f l = record {
  useful = f (map (λ a. a.useful) l);
  ompi_proc = f (map (λ a. a.ompi_proc) l);
  oomp = f (map (λ a. a.oomp) l);
  useful_proc = f (map (λ a. a.useful_proc) l);
  oomp_proc = f (map (λ a. a.oomp_proc) l);
  local_time = f (map (λ a. a.local_time) l);
  balanced = f (map (λ a. a.balanced) l);
}

abbrev pub divided : (by_procs by_threads : ℕ) → Shared ℤ → Shared Ratio
divided procs threads s = record {
  useful = record { num = s.useful; den = pos threads };
  ompi_proc = record { num = s.ompi_proc; den = pos procs };
  oomp = record { num = s.oomp; den = pos threads };
  useful_proc = record { num = s.useful_proc; den = pos procs };
  oomp_proc = record { num = s.oomp_proc; den = pos procs };
  local_time = record { num = s.local_time; den = pos threads };
  balanced = record { num = s.balanced; den = pos threads };
}

unfoldable pub over_processes : Collective → Summary → List Summary → Measured
unfolding uc_max uc_avg
over_processes collective root others =
    let all = root ∷ others in
    let total_threads = collective.count_over (map (λ s. s.num_threads) all) in
    record {
      number_of_procs = length all;
      total_threads = total_threads;
      runtime = collective.max_over (map (λ s. s.runtime) all);
      avg = divided (length all) total_threads (reduced collective.sum_over (map uc_avg all));
      max = reduced collective.max_over (map uc_max all);
    }

-- Only the values that are sums over threads are divided: the others stay as they are.
unfoldable pub one_process : Summary → Measured
unfolding uc_max uc_avg
one_process s = record {
  number_of_procs = 1;
  total_threads = s.total_threads;
  runtime = s.runtime;
  avg = divided 1 s.num_threads (uc_avg s);
  max = uc_max s;
}

unfoldable pub measured : Collective → Bool → Summary → List Summary → Measured
unfolding over_processes one_process
measured collective use_mpi root others =
    if use_mpi then over_processes collective root others else one_process root

-- `avgComputation[5] = avgComputation[5] + totalRuntimeReal`, and the same for the maximum
unfoldable pub add_runtime : Measured → Measured
add_runtime m = record m {
  avg = record m.avg { local_time = plus m.avg.local_time m.runtime };
  max = record m.max { local_time = m.max.local_time +ℤ m.runtime };
}

pub record Efficiency : Type 0 where
  pub comm_e : Ratio
  pub te : Ratio
  pub ser_e : Ratio
  pub lb : Ratio
  pub pe : Ratio
  pub mpi_lb : Ratio
  pub omp_lb : Ratio
  pub omp_te : Ratio
  pub mpi_te : Ratio
  pub mpi_ser_e : Ratio
  pub omp_ser_e : Ratio
  pub mpi_comm_e : Ratio
  pub omp_comm_e : Ratio
  pub omp_pe : Ratio
  pub mpi_pe : Ratio

unfoldable pub pop_metrics : Measured → Summary → Efficiency
pop_metrics m root =
    let real = whole m.runtime in
    let ideal = whole root.useful_critical in
    let outside_omp = whole root.oomp_critical in
    let top = whole m.max.useful in
    let comm_e = top over real in
    let te = ideal over real in
    let ser_e = top over ideal in
    let lb = m.avg.useful over top in
    let pe = lb times comm_e in
    let mpi_lb = m.avg.balanced over top in
    let omp_lb = lb over mpi_lb in
    let omp_te = outside_omp over real in
    let mpi_te = te over omp_te in
    let mpi_ser_e = whole m.max.useful_proc over ideal in
    let omp_ser_e = ser_e over mpi_ser_e in
    let mpi_comm_e = mpi_ser_e times mpi_te in
    let omp_comm_e = omp_ser_e times omp_te in
    let omp_pe = omp_lb times omp_comm_e in
    let mpi_pe = mpi_lb times mpi_comm_e in
    record {
      comm_e = comm_e;
      te = te;
      ser_e = ser_e;
      lb = lb;
      pe = pe;
      mpi_lb = mpi_lb;
      omp_lb = omp_lb;
      omp_te = omp_te;
      mpi_te = mpi_te;
      mpi_ser_e = mpi_ser_e;
      omp_ser_e = omp_ser_e;
      mpi_comm_e = mpi_comm_e;
      omp_comm_e = omp_comm_e;
      omp_pe = omp_pe;
      mpi_pe = mpi_pe;
    }

-- What process 0 has to print.
unfoldable pub results : Collective → Bool → Summary → List Summary → Measured × Efficiency
unfolding measured add_runtime pop_metrics
results collective use_mpi root others =
    let m = add_runtime (measured collective use_mpi root others) in (m, pop_metrics m root)
