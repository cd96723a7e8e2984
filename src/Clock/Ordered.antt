-- ===== src/Clock/Ordered.antt =====
-- The three readings of a clock stay ordered: thread-local, process-local, critical path.
use otf_cpt.Common.{ℕ, Bool, true, false, inl, inr, arith, Bool-cases}
use otf_cpt.Common.Int.{ℤ, pos, neg, ◌≤ℤ◌, int_laws, max_ℤ_mono, max_ℤ_ge}
use otf_cpt.Clock.State.{
  ClockState, state_init, ClockType, clock_useful, clock_ompi, clock_oomp, clock_ogpu, state,
  same_state,
}
use otf_cpt.Clock.Metric.{Metric}
use otf_cpt.Clock.CpClocks.{CpClocks, Clocks, reset, add_all, omp_h_before, omp_h_after}
use otf_cpt.Clock.Thread.{ThreadClock, effective, switch_clock, switch_state, new_clock}
use otf_cpt.Clock.Sync.{
  SyncClock, new_sync, check_arc, copy_clocks, merge_before, merge_after, release_in, clock_reset,
}
use otf_cpt.Clock.Message.{IpcData, raise, raise_all, mpi_happens_after}

module _ {M : Type 0} ⦃metric : Metric M⦄ where
  open metric use {get_time}

  pub record IsOrdered (c : CpClocks M) : Type 0 where
    pub local : get_time c.thread ≤ℤ get_time c.proc
    pub global : get_time c.proc ≤ℤ get_time c.critical

  abbrev pub AreOrdered : Clocks M → Type 0
  AreOrdered cs = (i : ClockType) → IsOrdered (cs i)

  pub reset-IsOrdered : (t : ℤ) → IsOrdered (reset t)
  unfolding reset
  reset-IsOrdered t = omega arith

  add_all-IsOrdered : (t : ℤ) (c : CpClocks M) → IsOrdered c → IsOrdered (add_all t c)
  unfolding add_all
  add_all-IsOrdered t c o = record {
    local = rw (metric.get_time-add c.thread t, metric.get_time-add c.proc t) (omega int_laws);
    global = rw (metric.get_time-add c.proc t, metric.get_time-add c.critical t) (omega int_laws);
  }

  switch_clock-IsOrdered :
      (a b : Bool) (t : ℤ) (c : CpClocks M) → IsOrdered c → IsOrdered (switch_clock a b t c)
  unfolding switch_clock
  switch_clock-IsOrdered true true t c o = o
  switch_clock-IsOrdered false false t c o = o
  switch_clock-IsOrdered false true t c o = add_all-IsOrdered (neg t) c o
  switch_clock-IsOrdered true false t c o = add_all-IsOrdered t c o

  pub switch_state-AreOrdered :
      (now time : ℤ) (s s' : ClockState) (cs : Clocks M)
      → AreOrdered cs
      → AreOrdered (switch_state now s s' time cs)
  unfolding switch_state
  switch_state-AreOrdered now time s s' cs o i = elim (Bool-cases (same_state s s')) [
    | inl e ↦ rw e (o i)
    | inr e ↦
        rw e (switch_clock-IsOrdered (state s i) (state s' i) (effective now time) (cs i) (o i))
  ]

  omp_h_before-IsOrdered :
      (c cc : CpClocks M) → IsOrdered c → IsOrdered cc → IsOrdered (omp_h_before c cc)
  unfolding omp_h_before
  omp_h_before-IsOrdered c cc o oo = record {
    local =
        rw (metric.get_time-max_update c.proc cc.proc)
          (omega (arith, max_ℤ_ge (get_time c.proc) (get_time cc.proc)));
    global =
        rw
          (
            metric.get_time-max_update c.proc cc.proc,
            metric.get_time-max_update c.critical cc.critical,
          )
          (max_ℤ_mono _ _ _ _ o.global oo.global);
  }

  omp_h_after-IsOrdered :
      (c cc : CpClocks M) → IsOrdered c → IsOrdered cc → IsOrdered (omp_h_after c cc)
  unfolding omp_h_after omp_h_before
  omp_h_after-IsOrdered c cc o oo = omp_h_before-IsOrdered cc c oo o

  raise-IsOrdered : (v : ℤ) (c : CpClocks M) → IsOrdered c → IsOrdered (raise v c)
  unfolding raise
  raise-IsOrdered v c o = record {
    local = o.local;
    global =
        rw (metric.get_time-max_update c.critical (metric.reset v))
          (omega (arith, max_ℤ_ge (get_time c.critical) (get_time (metric.reset v))));
  }

  pub merge_after-AreOrdered :
      (sc tc : Clocks M) → AreOrdered sc → AreOrdered tc → AreOrdered (merge_after sc tc)
  unfolding merge_after
  merge_after-AreOrdered sc tc o oo clock_useful = omp_h_after-IsOrdered _ _ (o _) (oo _)
  merge_after-AreOrdered sc tc o oo clock_ompi = omp_h_after-IsOrdered _ _ (o _) (oo _)
  merge_after-AreOrdered sc tc o oo clock_oomp = omp_h_after-IsOrdered _ _ (o _) (oo _)
  merge_after-AreOrdered sc tc o oo clock_ogpu = oo _

  merge_before-AreOrdered :
      (sc tc : Clocks M) → AreOrdered sc → AreOrdered tc → AreOrdered (merge_before sc tc)
  unfolding merge_before
  merge_before-AreOrdered sc tc o oo clock_useful = omp_h_before-IsOrdered _ _ (o _) (oo _)
  merge_before-AreOrdered sc tc o oo clock_ompi = omp_h_before-IsOrdered _ _ (o _) (oo _)
  merge_before-AreOrdered sc tc o oo clock_oomp = omp_h_before-IsOrdered _ _ (o _) (oo _)
  merge_before-AreOrdered sc tc o oo clock_ogpu = o _

  copy_clocks-AreOrdered :
      (sc tc : Clocks M) → AreOrdered sc → AreOrdered tc → AreOrdered (copy_clocks sc tc)
  unfolding copy_clocks
  copy_clocks-AreOrdered sc tc o oo clock_useful = oo _
  copy_clocks-AreOrdered sc tc o oo clock_ompi = oo _
  copy_clocks-AreOrdered sc tc o oo clock_oomp = oo _
  copy_clocks-AreOrdered sc tc o oo clock_ogpu = o _

  pub release_in-AreOrdered :
      (s : ClockState) (tc : ThreadClock M) (sc : SyncClock M)
      → AreOrdered sc.clocks
      → AreOrdered tc.clocks
      → AreOrdered (release_in s tc sc).clocks
  unfolding release_in check_arc
  release_in-AreOrdered s tc sc o oo = elim (Bool-cases (same_state sc.sync_state state_init)) [
    | inl e ↦ rw e (copy_clocks-AreOrdered sc.clocks tc.clocks o oo)
    | inr e ↦ rw e (merge_before-AreOrdered sc.clocks tc.clocks o oo)
  ]

  pub clock_reset-AreOrdered :
      (running : Bool) (sc : SyncClock M)
      → AreOrdered sc.clocks
      → AreOrdered (clock_reset running sc).clocks
  unfolding clock_reset
  clock_reset-AreOrdered false sc o i = o i
  clock_reset-AreOrdered true sc o clock_useful = reset-IsOrdered (pos 0)
  clock_reset-AreOrdered true sc o clock_ompi = reset-IsOrdered (pos 0)
  clock_reset-AreOrdered true sc o clock_oomp = reset-IsOrdered (pos 0)
  clock_reset-AreOrdered true sc o clock_ogpu = o _

  raise_all-AreOrdered :
      (uc : IpcData) (cs : Clocks M) → AreOrdered cs → AreOrdered (raise_all uc cs)
  unfolding raise_all
  raise_all-AreOrdered uc cs o clock_useful = raise-IsOrdered uc.useful _ (o _)
  raise_all-AreOrdered uc cs o clock_ompi = raise-IsOrdered uc.ompi _ (o _)
  raise_all-AreOrdered uc cs o clock_oomp = raise-IsOrdered uc.oomp _ (o _)
  raise_all-AreOrdered uc cs o clock_ogpu = o _

  pub mpi_happens_after-AreOrdered :
      (running : Bool) (uc : IpcData) (tc : ThreadClock M)
      → AreOrdered tc.clocks
      → AreOrdered (mpi_happens_after running uc tc).clocks
  unfolding mpi_happens_after
  mpi_happens_after-AreOrdered false uc tc o = o
  mpi_happens_after-AreOrdered true uc tc o = raise_all-AreOrdered uc tc.clocks o

  -- A new synchronisation clock is ordered.
  pub new_sync-AreOrdered : AreOrdered new_sync.clocks
  unfolding new_sync
  new_sync-AreOrdered i = reset-IsOrdered (pos 0)

  pub new_clock-AreOrdered :
      (id : ℕ) (useful : ℤ) (omp : Bool)
      → pos 0 ≤ℤ useful
      → AreOrdered (new_clock id useful omp).clocks
  unfolding new_clock reset
  new_clock-AreOrdered id useful omp h clock_useful = record {
    local = omega arith;
    global = rw (metric.get_time-reset (pos 0), metric.get_time-reset useful) h;
  }
  new_clock-AreOrdered id useful omp h clock_ompi = reset-IsOrdered (pos 0)
  new_clock-AreOrdered id useful omp h clock_oomp = reset-IsOrdered (pos 0)
  new_clock-AreOrdered id useful omp h clock_ogpu = reset-IsOrdered (pos 0)
