-- ===== src/Clock/Barrier.antt =====
-- include/criticalPath.h: threads that release into a synchronisation clock, in any number, and one that
-- acquires from it afterwards, each call after the one before has returned. The lock of the clock
-- sees to that in the build with `DependentMetric`; with `TimeMetric` none is taken.
use mathlib.Core.Path.{subst}
use otf_cpt.Common.{true, false, Option, none, some, List, [], ◌∷◌, ◌≡◌, ◌≢◌, ◌↔◌, refl, sym, All}
use otf_cpt.Common.Int.{ℤ, ◌≤ℤ◌, max_ℤ, max_ℤ_le}
use otf_cpt.Clock.State.{
  ClockState, state_init, ClockType, clock_useful, clock_ompi, clock_oomp, clock_ogpu, same_state,
}
use otf_cpt.Clock.Metric.{Metric}
use otf_cpt.Clock.Metric.Dependent.{DependentMetric, dependent_metric}
use otf_cpt.Clock.CpClocks.{CpClocks, Clocks, omp_h_before, omp_h_after}
use otf_cpt.Clock.Thread.{ThreadClock, get_state}
use otf_cpt.Clock.Sync.{
  SyncClock, check_arc, copy_clocks, merge_before, merge_after, release_in, happens_before,
  happens_after,
}
use otf_cpt.Clock.Activity.{Part, thread, proc, critical, time_of}

-- The clocks that are handed over: all but that of the GPU, and all components but the thread's.
pub record IsShared (p : Part) (i : ClockType) : Type 0 where
  pub part : p ≢ thread
  pub clock : i ≢ clock_ogpu

module _ {M : Type 0} ⦃metric : Metric M⦄ where
  -- The threads release one after another.
  unfoldable pub release_each : List (ThreadClock M) → SyncClock M → Option (SyncClock M)
  release_each [] sc = some sc
  release_each (tc ∷ tcs) sc = elim (happens_before true sc tc) [
    | none ↦ none
    | some sc' ↦ release_each tcs sc'
  ]

  -- The thread is in an activity other than STATE_INIT.
  abbrev pub IsActive : ThreadClock M → Type 0
  IsActive tc = (s : ClockState) × (get_state tc.stack ≡ some s) × (same_state s state_init ≡ false)

  abbrev pub Below : Part → ClockType → ℤ → ThreadClock M → Type 0
  Below p i b tc = time_of p (tc.clocks i) ≤ℤ b

  time_of-omp_h_before :
      (p : Part) (c cc : CpClocks M)
      → p ≢ thread
      → time_of p (omp_h_before c cc) ≡ max_ℤ (time_of p c) (time_of p cc)
  unfolding omp_h_before
  time_of-omp_h_before thread c cc h = absurd (h refl)
  time_of-omp_h_before proc c cc h = metric.get_time-max_update c.proc cc.proc
  time_of-omp_h_before critical c cc h = metric.get_time-max_update c.critical cc.critical

  time_of-omp_h_after :
      (p : Part) (c cc : CpClocks M)
      → p ≢ thread
      → time_of p (omp_h_after c cc) ≡ max_ℤ (time_of p cc) (time_of p c)
  unfolding omp_h_before omp_h_after
  time_of-omp_h_after p c cc h = time_of-omp_h_before p cc c h

  pub time_of-merge_before :
      (p : Part) (i : ClockType) (sc tc : Clocks M)
      → IsShared p i
      → time_of p (merge_before sc tc i) ≡ max_ℤ (time_of p (sc i)) (time_of p (tc i))
  unfolding merge_before
  time_of-merge_before p clock_useful sc tc h = time_of-omp_h_before p _ _ h.part
  time_of-merge_before p clock_ompi sc tc h = time_of-omp_h_before p _ _ h.part
  time_of-merge_before p clock_oomp sc tc h = time_of-omp_h_before p _ _ h.part
  time_of-merge_before p clock_ogpu sc tc h = absurd (h.clock refl)

  pub time_of-merge_after :
      (p : Part) (i : ClockType) (sc tc : Clocks M)
      → IsShared p i
      → time_of p (merge_after sc tc i) ≡ max_ℤ (time_of p (tc i)) (time_of p (sc i))
  unfolding merge_after
  time_of-merge_after p clock_useful sc tc h = time_of-omp_h_after p _ _ h.part
  time_of-merge_after p clock_ompi sc tc h = time_of-omp_h_after p _ _ h.part
  time_of-merge_after p clock_oomp sc tc h = time_of-omp_h_after p _ _ h.part
  time_of-merge_after p clock_ogpu sc tc h = absurd (h.clock refl)

  pub copy_clocks-shared :
      (i : ClockType) (sc tc : Clocks M) → i ≢ clock_ogpu → copy_clocks sc tc i ≡ tc i
  unfolding copy_clocks
  copy_clocks-shared clock_useful sc tc h = refl
  copy_clocks-shared clock_ompi sc tc h = refl
  copy_clocks-shared clock_oomp sc tc h = refl
  copy_clocks-shared clock_ogpu sc tc h = absurd (h refl)

  pub happens_before-merge :
      (tc : ThreadClock M) (sc : SyncClock M) (s : ClockState)
      → get_state tc.stack ≡ some s
      → same_state sc.sync_state state_init ≡ false
      → happens_before true sc tc ≡ some (record sc { clocks = merge_before sc.clocks tc.clocks })
  unfolding happens_before release_in check_arc
  happens_before-merge tc sc s on h = rw (on, h)

  pub happens_before-copy :
      (tc : ThreadClock M) (sc : SyncClock M) (s : ClockState)
      → get_state tc.stack ≡ some s
      → same_state sc.sync_state state_init ≡ true
      → happens_before true sc tc
        ≡ some (record { clocks = copy_clocks sc.clocks tc.clocks; sync_state = s })
  unfolding happens_before release_in check_arc
  happens_before-copy tc sc s on h = rw (on, h)

  release_each-cons :
      (tc : ThreadClock M) (tcs : List (ThreadClock M)) (sc : SyncClock M) {sc₁ sc' : SyncClock M}
      → happens_before true sc tc ≡ some sc₁
      → release_each tcs sc₁ ≡ some sc'
      → release_each (tc ∷ tcs) sc ≡ some sc'
  unfolding release_each
  release_each-cons tc tcs sc e r = rw (e, release_each) r

  -- A clock that has been released into holds its own bound and that of all later releases.
  record Gathers (tcs : List (ThreadClock M)) (sc sc' : SyncClock M) : Type 0 where
    returned : release_each tcs sc ≡ some sc'
    least :
        (p : Part) (i : ClockType) (b : ℤ)
        → IsShared p i
        → (time_of p (sc'.clocks i) ≤ℤ b) ↔ ((time_of p (sc.clocks i) ≤ℤ b) × All (Below p i b) tcs)

  release_each-Gathers :
      (tcs : List (ThreadClock M)) (sc : SyncClock M)
      → same_state sc.sync_state state_init ≡ false
      → All IsActive tcs
      → (sc' : SyncClock M) × Gathers tcs sc sc'
  release_each-Gathers [] sc h a = (
    sc,
    record { returned = unfold release_each in refl; least = λ p i b k. (λ q. (q, tt), λ q. q.0) },
  )
  release_each-Gathers (tc ∷ tcs) sc h ((s, on, active), a) =
      let sc₁ = record sc { clocks = merge_before sc.clocks tc.clocks } in
      let (sc', g) = release_each-Gathers tcs sc₁ h a in
      (
        sc',
        record {
          returned = release_each-cons tc tcs sc (happens_before-merge tc sc s on h) g.returned;
          least = λ p i b k.
              let m = time_of-merge_before p i sc.clocks tc.clocks k in
              let le = max_ℤ_le (time_of p (sc.clocks i)) (time_of p (tc.clocks i)) b in
              let ih = g.least p i b k in
              (
                (λ q. let r = le.0 (rw m at (ih.0 q).0) in (r.0, (r.1, (ih.0 q).1))),
                (λ q. ih.1 (rw m (le.1 (q.0, q.1.0)), q.1.1)),
              );
        },
      )

  -- What the thread `tc` has after it acquired from a clock into which `tcs` released.
  pub record Joined (tcs : List (ThreadClock M)) (sc : SyncClock M) (tc tc' : ThreadClock M)
      : Type 0 where
    pub released : SyncClock M
    pub returned : release_each tcs sc ≡ some released
    pub kept : SyncClock M
    pub acquired : happens_after true released tc ≡ some (kept, tc')
    pub least :
        (p : Part) (i : ClockType) (b : ℤ)
        → IsShared p i
        → Below p i b tc' ↔ (Below p i b tc × All (Below p i b) tcs)
    pub own : (i : ClockType) → time_of thread (tc'.clocks i) ≡ time_of thread (tc.clocks i)
    pub gpu : tc'.clocks clock_ogpu ≡ tc.clocks clock_ogpu
    pub stack : tc'.stack ≡ tc.stack

  merge_after-own :
      (i : ClockType) (sc tc : Clocks M)
      → time_of thread (merge_after sc tc i) ≡ time_of thread (tc i)
  unfolding merge_after omp_h_after
  merge_after-own clock_useful sc tc = refl
  merge_after-own clock_ompi sc tc = refl
  merge_after-own clock_oomp sc tc = refl
  merge_after-own clock_ogpu sc tc = refl

  pub happens_after-merge :
      (tc : ThreadClock M) (sc : SyncClock M) (s : ClockState)
      → get_state tc.stack ≡ some s
      → happens_after true sc tc
        ≡ some ((check_arc s sc).0, record tc { clocks = merge_after sc.clocks tc.clocks })
  unfolding happens_after
  happens_after-merge tc sc s on = rw on

  release_each-Joined :
      (first : ThreadClock M) (rest : List (ThreadClock M)) (sc : SyncClock M) (tc : ThreadClock M)
      → sc.sync_state ≡ state_init
      → All IsActive (first ∷ rest)
      → IsActive tc
      → (tc' : ThreadClock M) × Joined (first ∷ rest) sc tc tc'
  release_each-Joined first rest sc tc fresh ((s, on, active), a) (s', on', _) =
      let sc₁ : SyncClock M = record {
        clocks = copy_clocks sc.clocks first.clocks;
        sync_state = s;
      } in
      let (sc', g) = release_each-Gathers rest sc₁ active a in
      (
        record tc { clocks = merge_after sc'.clocks tc.clocks },
        record {
          released = sc';
          returned =
              release_each-cons first rest sc
                (happens_before-copy first sc s on (rw fresh (unfold same_state in refl)))
                g.returned;
          kept = (check_arc s' sc').0;
          acquired = happens_after-merge tc sc' s' on';
          least = λ p i b k.
              let m = time_of-merge_after p i sc'.clocks tc.clocks k in
              let le = max_ℤ_le (time_of p (tc.clocks i)) (time_of p (sc'.clocks i)) b in
              let c = copy_clocks-shared i sc.clocks first.clocks k.clock in
              let ih = g.least p i b k in
              (
                (λ q.
                    let r = le.0 (rw m at q) in
                    let d = ih.0 r.1 in (r.0, (subst (λ x. time_of p x ≤ℤ b) c d.0, d.1))),
                (λ q. rw m (le.1 (q.0, ih.1 (subst (λ x. time_of p x ≤ℤ b) (sym c) q.1.0, q.1.1)))),
              );
          own = λ i. merge_after-own i sc'.clocks tc.clocks;
          gpu = unfold merge_after in refl;
          stack = refl;
        },
      )

-- In the build with `DependentMetric`, where a lock keeps the calls on a clock apart: threads that are in
-- an activity release one after another into a fresh clock, and after them a thread in an activity
-- acquires from it. All calls return, every shared reading of the acquiring thread becomes the least
-- upper bound of its own and all the released ones (so the order of the releases does not matter), and
-- its thread-local readings, its GPU clock and its stack are as before.
pub barrier-Joined :
    (first : ThreadClock DependentMetric) (rest : List (ThreadClock DependentMetric))
    (sc : SyncClock DependentMetric) (tc : ThreadClock DependentMetric)
    → sc.sync_state ≡ state_init
    → All IsActive (first ∷ rest)
    → IsActive tc
    → (tc' : ThreadClock DependentMetric) × Joined (first ∷ rest) sc tc tc'
barrier-Joined first rest sc tc fresh all on = release_each-Joined first rest sc tc fresh all on
