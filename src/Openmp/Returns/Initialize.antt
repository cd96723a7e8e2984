-- ===== src/Openmp/Returns/Initialize.antt =====
-- The start of the tool, `ompt_tsan_initialize` of src/ompt-critical.cpp: the initial thread gets its
-- clock, and the measurement starts unless the flags say otherwise.
use otf_cpt.Common.{
  ℕ, suc, ◌≡◌, refl, sym, subst, Option, some, Bool, true, false, not, ◌&&◌, update_self,
  Option-cases, inl, inr, All,
}
use otf_cpt.Common.Int.{ℤ, pos}
use otf_cpt.Clock.State.{ClockState, state_init, state_useful, state_mpi, same_state}
use otf_cpt.Clock.Metric.{Metric}
use otf_cpt.Clock.Thread.{ThreadClock, get_state, new_clock}
use otf_cpt.Clock.Activity.{top}
use otf_cpt.Clock.System.{get_state-top}
use otf_cpt.Openmp.Threads.{initialize}
use otf_cpt.Tool.World.{World, initial_world}
use otf_cpt.Tool.Action.{Act, ◌>>=◌, when, deref, on_clock, get_time, enter_at, current, need_clock}
use otf_cpt.Tool.Measure.{start_tool, start_measurement}
use otf_cpt.Openmp.Returns.Valid.{IsTimed, IsValid, Begun, AreLinked, initial_world-IsValid}
use otf_cpt.Openmp.Returns.Ran.{Ran, Ran-some, Ran-imp, Ran-bind, Ran-deref}
use otf_cpt.Openmp.Returns.Primitives.{enter-IsCall, set_clock-IsTimed}
use otf_cpt.Openmp.Returns.Begin.{new_clock-IsThread}

module _ {M : Type 0} ⦃metric : Metric M⦄ where
  -- The thread has a clock, but need not have begun; only clocks and the measurement have changed.
  record Opened (t : ℕ) (w w' : World M) : Type 0 where
    objects : w'.objects ≡ w.objects
    lists : (w'.thread_clocks ≡ w.thread_clocks) × (w'.thread_counts ≡ w.thread_counts)
    timed : IsTimed w'
    clock : (tc : ThreadClock M) × (w'.threads t ≡ some tc)

  then-Opened :
      {A : Type 0} {t : ℕ} (u w : World M) (m : Act M A) (f : A → Act M (Unit {0}))
      → Ran (λ a w'. Opened t u w') (m w)
      → ((a : A) (w' : World M) → Opened t u w' → Ran (λ v w''. Opened t u w'') (f a w'))
      → Ran (λ v w'. Opened t u w') ((m >>= f) w)
  then-Opened u w m f r rest = Ran-bind _ _ m f w r rest

  when-Opened :
      {t : ℕ} (b : Bool) (u w : World M) (m : Act M (Unit {0}))
      → Opened t u w
      → Ran (λ v w'. Opened t u w') (m w)
      → Ran (λ v w'. Opened t u w') (when b m w)
  when-Opened true u w m h r = r
  when-Opened false u w m h r = Ran-some _ tt w h

  enter_at-Opened :
      {t : ℕ} (time : ℤ) (cs : ClockState) (u w : World M)
      → Opened t u w
      → Ran (λ v w'. Opened t u w') (enter_at t time cs w)
  unfolding enter_at on_clock get_time
  enter_at-Opened {t} time cs u w h =
      let (tc, e) = h.clock in
      let ticked = record w { calls = suc w.calls } in
      let (tc', r, k) =
        enter-IsCall (w.times w.calls) time cs w.running tc (h.timed.threads t tc e) in
      Ran-deref _ (w.threads t) tc _ ticked e (
        Ran-deref _ _ tc' _ ticked r (
          Ran-some _ tt _ (record {
            objects = h.objects;
            lists = h.lists;
            timed =
                set_clock-IsTimed t tc' ticked k
                  (record { threads = h.timed.threads; syncs = h.timed.syncs });
            clock = (tc', update_self w.threads t _);
          })))

  current-Opened :
      {t : ℕ} (u w : World M) → Opened t u w → Ran (λ s w'. Opened t u w') (current t w)
  unfolding current
  current-Opened {t} u w h =
      let (tc, e) = h.clock in
      Ran-deref _ (w.threads t) tc _ w e (
        returns (get_state tc.stack) (top tc.stack)
          (get_state-top tc.stack (h.timed.threads t tc e).stack))
    where
      returns :
          (o : Option ClockState) (s : ClockState)
          → o ≡ some s
          → Ran (λ s w'. Opened t u w') (deref o w)
      returns o s e = rw e (Ran-some _ s w h)

  need_clock-Opened :
      {t : ℕ} (openmp : Bool) (w : World M)
      → IsTimed w
      → Ran (λ u w'. Opened t w w') (need_clock t openmp w)
  unfolding need_clock
  need_clock-Opened {t} openmp w v = elim (Option-cases (w.threads t)) [
    | inr (tc, e) ↦
        rw (e, need_clock)
          (Ran-some _ tt w
            (record { objects = refl; lists = (refl, refl); timed = v; clock = (tc, e) }))
    | inl e ↦
        rw (e, need_clock)
          (Ran-some _ tt _ (record {
            objects = refl;
            lists = (refl, refl);
            timed =
                set_clock-IsTimed t (new_clock w.next_id (pos 0) openmp)
                  (record w { next_id = suc w.next_id }) (new_clock-IsThread w.next_id openmp)
                  (record { threads = v.threads; syncs = v.syncs });
            clock = (_, update_self w.threads t _);
          }))
  ]

  start_tool-Opened :
      {t : ℕ} (tool_control : Bool) (cs : ClockState) (u w : World M)
      → Opened t u w
      → Ran (λ v w'. Opened t u w') (start_tool t tool_control cs w)
  unfolding start_tool get_time start_measurement
  start_tool-Opened {t} tool_control cs u w h =
      when-Opened (not (w.stopped && not tool_control) && not w.running) u w _ h (
        then-Opened u _ (current t) _
          (current-Opened u _ (record {
            objects = h.objects;
            lists = h.lists;
            timed = record { threads = h.timed.threads; syncs = h.timed.syncs };
            clock = h.clock;
          }))
          λ a w₁ h₁.
            then-Opened u w₁ (when (same_state cs state_mpi && same_state a state_init) _) _
              (when-Opened (same_state cs state_mpi && same_state a state_init) u w₁ _ h₁
                (enter_at-Opened _ state_useful u w₁ h₁))
              λ b w₂ h₂. enter_at-Opened _ cs u w₂ h₂)

  initialize-Opened :
      (t : ℕ) (w : World M) → IsTimed w → Ran (λ u w'. Opened t w w') (initialize t w)
  unfolding initialize
  initialize-Opened t w v =
      then-Opened w w (need_clock t false) _ (need_clock-Opened false w v)
        λ u w₁ h₁. start_tool-Opened false state_useful w w₁ h₁

  -- The tool starts, and leaves a valid state in which the thread has a clock.
  pub initialize-Ran :
      (t : ℕ) (stopped dump : Bool) (times : ℕ → ℤ)
      → Ran
          (λ u w'. IsValid w' × ((tc : ThreadClock M) × (w'.threads t ≡ some tc)))
          (initialize t (initial_world stopped dump times))
  unfolding initial_world
  initialize-Ran t stopped dump times =
      let v = initial_world-IsValid stopped dump times in
      Ran-imp _ _
        (λ u w' h. (
          record {
            timed = h.timed;
            linked = subst AreLinked (sym h.objects) v.linked;
            listed = record {
              clocks = subst (All (λ t. Begun t w')) (sym h.lists.0) tt;
              counters = subst (All (λ t. Begun t w')) (sym h.lists.1) tt;
            };
          },
          h.clock,
        ))
        (initialize-Opened t (initial_world stopped dump times) v.timed)
