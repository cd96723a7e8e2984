-- ===== src/Openmp/Returns/Clocks.antt =====
-- The actions by which threads hand over clocks, include/criticalPath.h, and the counters.
use otf_cpt.Common.{
  ℕ, ◌≡◌, refl, some, Bool, true, false, update, update_self, update-ne, ℕ_discrete, subst, ◌∙◌,
}
use otf_cpt.Clock.State.{ClockState}
use otf_cpt.Clock.Metric.{Metric}
use otf_cpt.Clock.Thread.{ThreadClock}
use otf_cpt.Clock.Activity.{top}
use otf_cpt.Clock.Sync.{SyncClock, happens_before, happens_after, release_in, check_arc}
use otf_cpt.Clock.Ordered.{AreOrdered, clock_reset-AreOrdered, release_in-AreOrdered}
use otf_cpt.Clock.System.{
  IsThread, get_state-top, happens_before-eq, acquired, happens_after-eq, acquired-IsThread,
  check_arc-AreOrdered,
}
use otf_cpt.Tool.World.{World, OmptCounts, SyncRef}
use otf_cpt.Tool.Action.{
  Act, done, when, set_sync, count, current, release, acquire, clear, need_clock,
}
use otf_cpt.Openmp.Returns.Valid.{IsTimed, Begun}
use otf_cpt.Openmp.Returns.Ran.{Ran-some, Ran-deref}
use otf_cpt.Openmp.Returns.Primitives.{Quiet, set_clock-IsTimed, set_sync-IsTimed, set_clock-Begun}

module _ {M : Type 0} ⦃metric : Metric M⦄ where
  releases :
      (running : Bool) (sc : SyncClock M) (tc : ThreadClock M)
      → AreOrdered sc.clocks
      → IsThread tc
      → (sc' : SyncClock M) × (happens_before running sc tc ≡ some sc') × AreOrdered sc'.clocks
  releases true sc tc o h = (
    release_in (top tc.stack) tc sc,
    happens_before-eq sc tc h.stack,
    release_in-AreOrdered (top tc.stack) tc sc o h.ordered,
  )
  releases false sc tc o h = (sc, unfold happens_before in refl, o)

  acquires :
      (running : Bool) (sc : SyncClock M) (tc : ThreadClock M)
      → AreOrdered sc.clocks
      → IsThread tc
      → (sc' : SyncClock M) × (tc' : ThreadClock M) × (happens_after running sc tc
          ≡ some (sc', tc'))
        × AreOrdered sc'.clocks
        × IsThread tc'
  acquires true sc tc o h = (
    (check_arc (top tc.stack) sc).0,
    acquired sc tc,
    happens_after-eq sc tc h.stack,
    check_arc-AreOrdered (top tc.stack) sc o,
    acquired-IsThread sc tc o h,
  )
  acquires false sc tc o h = (sc, tc, unfold happens_after in refl, o, h)

  pub release-Quiet : (t : ℕ) (r : SyncRef) → Quiet {M = M} t (release t r)
  unfolding release
  release-Quiet t r w v b =
      let (tc, e) = b.clock in
      let (sc, p, o) = releases w.running (w.syncs r) tc (v.syncs r) (v.threads t tc e) in
      Ran-deref _ (w.threads t) tc _ w e (
        Ran-deref _ (happens_before w.running (w.syncs r) tc) sc _ w p (
          Ran-some _ tt _ (record {
            objects = refl;
            locks = refl;
            running = refl;
            timed = set_sync-IsTimed r sc w o v;
            begun = record { clock = b.clock; counters = b.counters };
            keeps = λ v b. record { clock = b.clock; counters = b.counters };
            lists = (refl, refl);
          })))

  pub acquire-Quiet : (t : ℕ) (r : SyncRef) → Quiet {M = M} t (acquire t r)
  unfolding acquire
  acquire-Quiet t r w v b =
      let (tc, e) = b.clock in
      let (sc, tc', p, o, h) = acquires w.running (w.syncs r) tc (v.syncs r) (v.threads t tc e) in
      let w' = set_sync r sc w in
      Ran-deref _ (w.threads t) tc _ w e (
        Ran-deref _ (happens_after w.running (w.syncs r) tc) (sc, tc') _ w p
          (Ran-some _ tt _ (record {
            objects = refl;
            locks = refl;
            running = refl;
            timed = set_clock-IsTimed t tc' w' h (set_sync-IsTimed r sc w o v);
            begun = set_clock-Begun t t tc' w' (record { clock = b.clock; counters = b.counters });
            keeps = λ v b.
                set_clock-Begun t v tc' w' (record { clock = b.clock; counters = b.counters });
            lists = (refl, refl);
          })))

  pub clear-Quiet : (t : ℕ) (r : SyncRef) → Quiet {M = M} t (clear r)
  unfolding clear
  clear-Quiet t r w v b = Ran-some _ tt _ (record {
    objects = refl;
    locks = refl;
    running = refl;
    timed = set_sync-IsTimed r _ w (clock_reset-AreOrdered w.running (w.syncs r) (v.syncs r)) v;
    begun = record { clock = b.clock; counters = b.counters };
    keeps = λ v b. record { clock = b.clock; counters = b.counters };
    lists = (refl, refl);
  })

  pub done-Quiet : (t : ℕ) → Quiet {M = M} t done
  done-Quiet t w v b = Ran-some _ tt w (record {
    objects = refl;
    locks = refl;
    running = refl;
    timed = v;
    begun = b;
    keeps = λ v b. b;
    lists = (refl, refl);
  })

  pub when-Quiet :
      {t : ℕ} (b : Bool) (m : Act M (Unit {0})) → Quiet t m → Quiet {M = M} t (when b m)
  when-Quiet true m q = q
  when-Quiet {t} false m q = done-Quiet t

  pub set_counts-Begun :
      (t u : ℕ) (c : OmptCounts) (w : World M)
      → Begun u w
      → Begun u (record w { counts = update w.counts t (some c) })
  set_counts-Begun t u c w b = elim (ℕ_discrete t u) [
    | yes e ↦ record {
      clock = b.clock;
      counters =
          (c, subst (λ j. update w.counts t (some c) j ≡ some c) e (update_self w.counts t _));
    }
    | no n ↦ record {
      clock = b.clock;
      counters = (b.counters.0, update-ne w.counts t u _ n ∙ b.counters.1);
    }
  ]

  pub count-Quiet : (t : ℕ) (f : OmptCounts → OmptCounts) → Quiet {M = M} t (count t f)
  unfolding count
  count-Quiet t f w v b =
      when-Quiet {t = t} w.running _
        (λ w v b.
          let (c, e) = b.counters in
          Ran-deref _ (w.counts t) c _ w e (
            Ran-some _ tt _ (record {
              objects = refl;
              locks = refl;
              running = refl;
              timed = record { threads = v.threads; syncs = v.syncs };
              begun = set_counts-Begun t t (f c) w b;
              keeps = λ v b. set_counts-Begun t v (f c) w b;
              lists = (refl, refl);
            })))
        w v b

  pub current-Quiet :
      (t : ℕ) (w : World M) → IsTimed w → Begun t w → (s : ClockState) × (current t w ≡ some (s, w))
  unfolding current
  current-Quiet t w v b =
      let (tc, e) = b.clock in
      (top tc.stack, rw (e, current) (rw (get_state-top tc.stack (v.threads t tc e).stack)))

  pub need_clock-Quiet : (t : ℕ) (openmp : Bool) → Quiet {M = M} t (need_clock t openmp)
  unfolding need_clock
  need_clock-Quiet t openmp w v b = let (tc, e) = b.clock in rw (e, need_clock) (done-Quiet t w v b)
