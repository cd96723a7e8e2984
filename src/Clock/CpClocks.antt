-- ===== src/Clock/CpClocks.antt =====
-- include/criticalPath.h: `cpClocks`, the thread-local, process-local and critical-path reading of
-- one clock, and the array of the four clocks, as a function of the index.
use otf_cpt.Common.Int.{ℤ}
use otf_cpt.Clock.State.{ClockType}
use otf_cpt.Clock.Metric.{Metric}

pub record CpClocks (M : Type 0) : Type 0 where
  pub thread : M
  pub proc : M
  pub critical : M

abbrev pub Clocks : Type 0 → Type 0
Clocks M = ClockType → CpClocks M

module _ {M : Type 0} ⦃metric : Metric M⦄ where
  open metric use {max_update, add, reset as reset_metric}

  unfoldable pub reset : ℤ → CpClocks M
  reset time = record {
    thread = reset_metric time;
    proc = reset_metric time;
    critical = reset_metric time;
  }

  unfoldable pub add_all : ℤ → CpClocks M → CpClocks M
  add_all time c = record {
    thread = add c.thread time;
    proc = add c.proc time;
    critical = add c.critical time;
  }

  -- `c.OmpHBefore(cc)`: the synchronisation clock `c` takes up the releasing thread's `cc`.
  unfoldable pub omp_h_before : CpClocks M → CpClocks M → CpClocks M
  omp_h_before c cc = record c {
    proc = max_update c.proc cc.proc;
    critical = max_update c.critical cc.critical;
  }

  -- `c.OmpHAfter(cc)`: the acquiring thread's `cc`, with `c` taken up.
  unfoldable pub omp_h_after : CpClocks M → CpClocks M → CpClocks M
  omp_h_after c cc = record cc {
    proc = max_update cc.proc c.proc;
    critical = max_update cc.critical c.critical;
  }
