-- ===== src/Openmp/Returns/Primitives.antt =====
-- The actions on the clock of a thread, include/criticalPath.h, and what they leave as it is.
use otf_cpt.Common.{
  ℕ, suc, ◌≡◌, refl, ◌∙◌, Option, some, Bool, true, false, subst, update, update-Each, update_self,
  update-ne, ite_both, some-injective, ℕ_discrete,
}
use otf_cpt.Common.Int.{ℤ, pos}
use otf_cpt.Clock.State.{ClockState, state_init}
use otf_cpt.Clock.Metric.{Metric}
use otf_cpt.Clock.Thread.{ThreadClock, enter_state, exit_state, set_state}
use otf_cpt.Clock.Sync.{SyncClock}
use otf_cpt.Clock.Activity.{Event, Op, step}
use otf_cpt.Clock.Accounting.{moved}
use otf_cpt.Clock.Ordered.{AreOrdered}
use otf_cpt.Clock.System.{IsThread, step-eq, moved-IsThread}
use otf_cpt.Tool.World.{World, SyncRef, SyncRef-discrete}
use otf_cpt.Tool.Action.{
  Act, ◌>>=◌, ◌>>◌, get_time, set_clock, set_sync, on_clock, enter_at, enter, exit, set,
}
use otf_cpt.Openmp.Returns.Valid.{IsTimed, Begun}
use otf_cpt.Openmp.Returns.Ran.{Ran, Ran-some, Ran-imp, Ran-bind, Ran-deref}

module _ {M : Type 0} ⦃metric : Metric M⦄ where
  -- Only clocks and counters have changed since `w`.
  pub record Kept (t : ℕ) (w w' : World M) : Type 0 where
    pub objects : w'.objects ≡ w.objects
    pub locks : w'.lock_held ≡ w.lock_held
    pub running : w'.running ≡ w.running
    pub timed : IsTimed w'
    pub begun : Begun t w'
    pub keeps : (v : ℕ) → Begun v w → Begun v w'
    pub lists : (w'.thread_clocks ≡ w.thread_clocks) × (w'.thread_counts ≡ w.thread_counts)

  pub Kept-trans : {t : ℕ} {u v w : World M} → Kept t u v → Kept t v w → Kept t u w
  Kept-trans p q = record {
    objects = q.objects ∙ p.objects;
    locks = q.locks ∙ p.locks;
    running = q.running ∙ p.running;
    timed = q.timed;
    begun = q.begun;
    keeps = λ v b. q.keeps v (p.keeps v b);
    lists = (q.lists.0 ∙ p.lists.0, q.lists.1 ∙ p.lists.1);
  }

  -- A call on a thread's clock returns, for every value of the flag, and keeps the clock valid.
  abbrev IsCall : (Bool → ThreadClock M → Option (ThreadClock M)) → Type 0
  IsCall f =
      (running : Bool) (tc : ThreadClock M)
      → IsThread tc
      → (tc' : ThreadClock M) × (f running tc ≡ some tc') × IsThread tc'

  pub enter-IsCall :
      (now time : ℤ) (cs : ClockState) → IsCall (λ running tc. enter_state running now time cs tc)
  unfolding enter_state step
  enter-IsCall now time cs false tc h = (tc, refl, h)
  enter-IsCall now time cs true tc h =
      let e : Event = record { now = now; time = time; op = Op.enter cs } in
      (moved e tc, step-eq e tc h, moved-IsThread e tc h)

  exit-IsCall :
      (now : ℤ) (is_running : Bool)
      → IsCall (λ running tc. exit_state running now (pos 0) is_running tc)
  unfolding exit_state step
  exit-IsCall now is_running false tc h = (tc, refl, h)
  exit-IsCall now is_running true tc h =
      let e : Event = record { now = now; time = pos 0; op = Op.exit is_running } in
      (moved e tc, step-eq e tc h, moved-IsThread e tc h)

  set-IsCall : (now time : ℤ) → IsCall (λ running tc. set_state running now time state_init tc)
  unfolding set_state step
  set-IsCall now time false tc h =
      let e : Event = record { now = now; time = time; op = Op.stop } in
      (moved e tc, step-eq e tc h, moved-IsThread e tc h)
  set-IsCall now time true tc h =
      let e : Event = record { now = now; time = time; op = Op.stop } in
      (moved e tc, step-eq e tc h, moved-IsThread e tc h)

  pub set_clock-IsTimed :
      (t : ℕ) (tc : ThreadClock M) (w : World M)
      → IsThread tc
      → IsTimed w
      → IsTimed (set_clock t tc w)
  set_clock-IsTimed t tc w h v = record {
    threads =
        update-Each (λ j o. (c : ThreadClock M) → o ≡ some c → IsThread c) w.threads t (some tc)
          (λ c e. subst IsThread (some-injective _ _ e) h) (λ j n. v.threads j);
    syncs = v.syncs;
  }

  pub set_sync-IsTimed :
      (r : SyncRef) (sc : SyncClock M) (w : World M)
      → AreOrdered sc.clocks
      → IsTimed w
      → IsTimed (set_sync r sc w)
  set_sync-IsTimed r sc w h v = record {
    threads = v.threads;
    syncs = λ q.
        ite_both (λ (c : SyncClock M). AreOrdered c.clocks) (SyncRef-discrete r q) sc (w.syncs q) h
          (v.syncs q);
  }

  pub set_clock-Begun :
      (t u : ℕ) (tc : ThreadClock M) (w : World M) → Begun u w → Begun u (set_clock t tc w)
  set_clock-Begun t u tc w b = elim (ℕ_discrete t u) [
    | yes e ↦ record {
      clock =
          (tc, subst (λ j. update w.threads t (some tc) j ≡ some tc) e (update_self w.threads t _));
      counters = b.counters;
    }
    | no n ↦ record {
      clock = (b.clock.0, update-ne w.threads t u _ n ∙ b.clock.1);
      counters = b.counters;
    }
  ]

  -- The action returns on thread `t`, and has only changed clocks and counters.
  abbrev pub Quiet : ℕ → Act M (Unit {0}) → Type 0
  Quiet t m = (w : World M) → IsTimed w → Begun t w → Ran (λ u w'. Kept t w w') (m w)

  on_clock-Quiet :
      (t : ℕ) (f : Bool → ThreadClock M → Option (ThreadClock M))
      → IsCall f
      → Quiet t (on_clock t f)
  unfolding on_clock
  on_clock-Quiet t f call w v b =
      let (tc, e) = b.clock in
      let (tc', r, h) = call w.running tc (v.threads t tc e) in
      Ran-deref _ (w.threads t) tc _ w e (
        Ran-deref _ (f w.running tc) tc' _ w r (
          Ran-some _ tt _ (record {
            objects = refl;
            locks = refl;
            running = refl;
            timed = set_clock-IsTimed t tc' w h v;
            begun = set_clock-Begun t t tc' w b;
            keeps = λ v b. set_clock-Begun t v tc' w b;
            lists = (refl, refl);
          })))

  pub Quiet-bind : {t : ℕ} (m n : Act M (Unit {0})) → Quiet t m → Quiet t n → Quiet t (m >> n)
  Quiet-bind {t} m n qm qn w v b =
      Ran-bind (λ u w'. Kept t w w') _ m (λ u. n) w (qm w v b)
        (λ u w' k.
          Ran-imp (λ u w''. Kept t w' w'') _ (λ u w'' k'. Kept-trans k k') (qn w' k.timed k.begun))

  ticked : World M → World M
  ticked w = record w { calls = suc w.calls }

  timed_call :
      (t : ℕ) (f : ℤ → Bool → ThreadClock M → Option (ThreadClock M))
      → ((now : ℤ) → IsCall (f now))
      → Quiet t (get_time >>= λ now. on_clock t (f now))
  unfolding get_time
  timed_call t f call w v b =
      let quiet =
        on_clock-Quiet t (f (w.times w.calls)) (call _) (record w { calls = suc w.calls })
          (record { threads = v.threads; syncs = v.syncs })
          (record { clock = b.clock; counters = b.counters }) in
      Ran-imp _ _
        (λ u w' k. record {
          objects = k.objects;
          locks = k.locks;
          running = k.running;
          timed = k.timed;
          begun = k.begun;
          keeps = λ v b. k.keeps v (record { clock = b.clock; counters = b.counters });
          lists = k.lists;
        })
        quiet

  pub enter_at-Quiet : (t : ℕ) (time : ℤ) (cs : ClockState) → Quiet t (enter_at t time cs)
  unfolding enter_at
  enter_at-Quiet t time cs = timed_call t _ (λ now. enter-IsCall now time cs)

  pub enter-Quiet : (t : ℕ) (cs : ClockState) → Quiet t (enter t cs)
  unfolding enter
  enter-Quiet t cs = enter_at-Quiet t (pos 0) cs

  pub exit-Quiet : (t : ℕ) (is_running : Bool) → Quiet t (exit t is_running)
  unfolding exit
  exit-Quiet t is_running = timed_call t _ (λ now. exit-IsCall now is_running)

  pub set-Quiet : (t : ℕ) (time : ℤ) → Quiet t (set t time state_init)
  unfolding set
  set-Quiet t time = timed_call t _ (λ now. set-IsCall now time)
