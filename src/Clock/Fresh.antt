-- ===== src/Clock/Fresh.antt =====
-- Acquiring from a clock that nobody released into: `OmpHAfter` has no counterpart to the copy by
-- which `OmpHBefore` treats a fresh clock.
use otf_cpt.Common.{true, some, ◌≡◌}
use otf_cpt.Common.Int.{ℤ, pos, ltb_ℤ, max_ℤ}
use otf_cpt.Clock.State.{ClockState, ClockType}
use otf_cpt.Clock.Metric.{Metric}
use otf_cpt.Clock.CpClocks.{reset}
use otf_cpt.Clock.Thread.{ThreadClock, get_state}
use otf_cpt.Clock.Sync.{SyncClock, new_sync, merge_after, check_arc, happens_after}
use otf_cpt.Clock.Activity.{Part, thread, proc, critical, time_of}
use otf_cpt.Clock.Barrier.{IsShared, time_of-merge_after, happens_after-merge}

time_of-new_sync :
    (M : Type 0) ⦃metric : Metric M⦄ (p : Part) (i : ClockType)
    → time_of p ((new_sync {M = M}).clocks i) ≡ pos 0
unfolding new_sync reset
time_of-new_sync M ⦃metric⦄ thread i = metric.get_time-reset (pos 0)
time_of-new_sync M ⦃metric⦄ proc i = metric.get_time-reset (pos 0)
time_of-new_sync M ⦃metric⦄ critical i = metric.get_time-reset (pos 0)

max-zero : (v : ℤ) → ltb_ℤ v (pos 0) ≡ true → max_ℤ v (pos 0) ≡ pos 0
unfolding max_ℤ
max-zero v h = rw h

module _ {M : Type 0} ⦃metric : Metric M⦄ where
  -- A running clock holds the time counted so far less its start time, which is negative if it
  -- started after that. Acquiring from a clock that nobody released into replaces each such shared
  -- value by 0: at time `t` the clock then shows `t`, whatever it had counted.
  pub happens_after-fresh :
      (tc : ThreadClock M) (s : ClockState) (p : Part) (i : ClockType)
      → get_state tc.stack ≡ some s
      → IsShared p i
      → ltb_ℤ (time_of p (tc.clocks i)) (pos 0) ≡ true
      → (r : SyncClock M × ThreadClock M) × (happens_after true new_sync tc ≡ some r)
        × (time_of p (r.1.clocks i) ≡ pos 0)
  happens_after-fresh tc s p i on k h = (
    ((check_arc s new_sync).0, record tc { clocks = merge_after new_sync.clocks tc.clocks }),
    happens_after-merge tc new_sync s on,
    rw (time_of-merge_after p i new_sync.clocks tc.clocks k, time_of-new_sync M p i)
        (max-zero (time_of p (tc.clocks i)) h),
  )
