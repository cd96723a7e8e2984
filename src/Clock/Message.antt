-- ===== src/Clock/Message.antt =====
-- src/mpi-critical.cpp: `MpiHappensBefore` and `MpiHappensAfter`, which send the critical-path
-- clocks of a process along with a message and take up those that arrive, and the two lines by
-- which `MPI_Finalize` takes up the maximum over all processes.
use otf_cpt.Common.{Bool, not, if◌then◌else◌}
use otf_cpt.Common.Int.{ℤ}
use otf_cpt.Clock.State.{clock_useful, clock_ompi, clock_oomp, clock_ogpu}
use otf_cpt.Clock.Metric.{Metric}
use otf_cpt.Clock.CpClocks.{CpClocks, Clocks}
use otf_cpt.Clock.Thread.{ThreadClock}

-- `ipcData::values`, of which the fourth is not used.
pub record IpcData : Type 0 where
  pub useful : ℤ
  pub ompi : ℤ
  pub oomp : ℤ

module _ {M : Type 0} ⦃metric : Metric M⦄ where
  open metric use {max_update, reset, get_time}

  -- `critical.maxUpdate(BaseMetric{value})`
  unfoldable pub raise : ℤ → CpClocks M → CpClocks M
  raise value c = record c { critical = max_update c.critical (reset value) }

  unfoldable pub raise_all : IpcData → Clocks M → Clocks M
  unfolding raise
  raise_all uc cs clock_useful = raise uc.useful (cs clock_useful)
  raise_all uc cs clock_ompi = raise uc.ompi (cs clock_ompi)
  raise_all uc cs clock_oomp = raise uc.oomp (cs clock_oomp)
  raise_all uc cs clock_ogpu = cs clock_ogpu

  unfoldable pub mpi_happens_after : Bool → IpcData → ThreadClock M → ThreadClock M
  unfolding raise_all
  mpi_happens_after running uc tc =
      if not running then tc else record tc { clocks = raise_all uc tc.clocks }

  unfoldable pub mpi_happens_before : ThreadClock M → IpcData
  mpi_happens_before tc = record {
    useful = get_time (tc.clocks clock_useful).critical;
    ompi = get_time (tc.clocks clock_ompi).critical;
    oomp = get_time (tc.clocks clock_oomp).critical;
  }
