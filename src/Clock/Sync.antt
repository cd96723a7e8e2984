-- ===== src/Clock/Sync.antt =====
-- include/criticalPath.h: `syncClock`, through which a releasing thread hands its clocks to an
-- acquiring one, and src/mpi-critical.cpp: the same between processes, by a message.
-- Each call is one step. `UniqLock` takes the lock `scMutex` for `DependentMetric`, the metric of a build
-- with NUM_UC_INT64 above 0; for `TimeMetric`, the metric of the build with 0, it takes none, and what
-- calls of several threads on one clock do to each other then is not followed.
-- The locations kept for messages are left out.
use otf_cpt.Common.{Bool, true, false, not, Option, none, some, if◌then◌else◌}
use otf_cpt.Common.Int.{pos}
use otf_cpt.Clock.State.{
  ClockState, state_init, clock_useful, clock_ompi, clock_oomp, clock_ogpu, same_state,
}
use otf_cpt.Clock.Metric.{Metric}
use otf_cpt.Clock.CpClocks.{Clocks, reset, omp_h_before, omp_h_after}
use otf_cpt.Clock.Thread.{ThreadClock, get_state}

pub record SyncClock (M : Type 0) : Type 0 where
  pub clocks : Clocks M
  pub sync_state : ClockState

module _ {M : Type 0} ⦃metric : Metric M⦄ where
  -- `syncClock()`
  unfoldable pub new_sync : SyncClock M
  unfolding reset
  new_sync = record { clocks = λ i. reset (pos 0); sync_state = state_init }

  -- `CheckArc`: the first thread to use the clock sets its state. The result says whether it did.
  unfoldable pub check_arc : ClockState → SyncClock M → SyncClock M × Bool
  check_arc s sc =
      if same_state sc.sync_state state_init
      then (record sc { sync_state = s }, true)
      else (sc, false)

  -- A fresh clock copies the releasing thread's clocks, and another one takes them up.
  unfoldable pub copy_clocks : Clocks M → Clocks M → Clocks M
  copy_clocks sc tc clock_useful = tc clock_useful
  copy_clocks sc tc clock_oomp = tc clock_oomp
  copy_clocks sc tc clock_ompi = tc clock_ompi
  copy_clocks sc tc clock_ogpu = sc clock_ogpu

  unfoldable pub merge_before : Clocks M → Clocks M → Clocks M
  unfolding omp_h_before
  merge_before sc tc clock_useful = omp_h_before (sc clock_useful) (tc clock_useful)
  merge_before sc tc clock_oomp = omp_h_before (sc clock_oomp) (tc clock_oomp)
  merge_before sc tc clock_ompi = omp_h_before (sc clock_ompi) (tc clock_ompi)
  merge_before sc tc clock_ogpu = sc clock_ogpu

  unfoldable pub merge_after : Clocks M → Clocks M → Clocks M
  unfolding omp_h_after
  merge_after sc tc clock_useful = omp_h_after (sc clock_useful) (tc clock_useful)
  merge_after sc tc clock_oomp = omp_h_after (sc clock_oomp) (tc clock_oomp)
  merge_after sc tc clock_ompi = omp_h_after (sc clock_ompi) (tc clock_ompi)
  merge_after sc tc clock_ogpu = tc clock_ogpu

  -- `OmpHBefore`, after the thread's state has been read.
  unfoldable pub release_in : ClockState → ThreadClock M → SyncClock M → SyncClock M
  unfolding check_arc copy_clocks merge_before
  release_in s tc sc =
      let (sc', fresh) = check_arc s sc in
      if fresh
      then record sc' { clocks = copy_clocks sc'.clocks tc.clocks }
      else record sc' { clocks = merge_before sc'.clocks tc.clocks }

  -- `sc->OmpHBefore(tc)`
  unfoldable pub happens_before : Bool → SyncClock M → ThreadClock M → Option (SyncClock M)
  unfolding release_in
  happens_before running sc tc =
      if not running
      then some sc
      else elim (get_state tc.stack) [ none ↦ none | some s ↦ some (release_in s tc sc) ]

  -- `sc->OmpHAfter(tc)`: both objects may change.
  unfoldable pub happens_after :
      Bool → SyncClock M → ThreadClock M → Option (SyncClock M × ThreadClock M)
  unfolding check_arc merge_after
  happens_after running sc tc = if not running then some (sc, tc) else elim (get_state tc.stack) [
    | none ↦ none
    | some s ↦ some ((check_arc s sc).0, record tc { clocks = merge_after sc.clocks tc.clocks })
  ]

  -- `OmpCReset`
  unfoldable pub clock_reset : Bool → SyncClock M → SyncClock M
  unfolding reset
  clock_reset running sc = if not running then sc else record {
    clocks = elim [ clock_ogpu ↦ sc.clocks clock_ogpu | _ ↦ reset (pos 0) ];
    sync_state = state_init;
  }
