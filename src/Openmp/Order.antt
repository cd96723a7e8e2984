-- ===== src/Openmp/Order.antt =====
-- Releases and acquisitions of the callbacks in src/ompt-critical.cpp, while the tool runs: what they do to
-- a bound `b` that the reading of a clock has reached.
mod Flows
mod Dependences
mod Completion
mod Ring
mod Tests
use otf_cpt.Common.{
  ℕ, ◌≡◌, refl, sym, ◌∙◌, ap, subst, Option, some, none, Bool, true, false, not, List, [], ◌∷◌,
  ◌++◌, some-injective, update, update_self, update-ne, ℕ_discrete, ite, inl, inr, Bool-cases,
  arith,
}
use otf_cpt.Common.Int.{ℤ, ◌≤ℤ◌, max_ℤ, max_ℤ_ge}
use otf_cpt.Clock.State.{ClockState, ClockType, state_init, same_state}
use otf_cpt.Clock.Metric.{Metric}
use otf_cpt.Clock.Activity.{Part, time_of}
use otf_cpt.Clock.Barrier.{
  IsShared, IsActive, happens_before-merge, happens_before-copy, time_of-merge_before,
  copy_clocks-shared, happens_after-merge, time_of-merge_after,
}
use otf_cpt.Clock.Thread.{ThreadClock, get_state}
use otf_cpt.Clock.Sync.{
  SyncClock, happens_before, happens_after, check_arc, copy_clocks, merge_before, merge_after,
}
use otf_cpt.Tool.World.{World, SyncRef, SyncRef-discrete}
use otf_cpt.Tool.Action.{
  Act, ◌>>=◌, ◌>>◌, done, deref, fetch, modify, release, acquire, set_sync, set_clock,
}
use otf_cpt.Openmp.Returns.Ran.{Ran, Ran-some, Ran-imp, Ran-bind, Ran-deref}

module _ {M : Type 0} ⦃metric : Metric M⦄ (p : Part) (i : ClockType) (shared : IsShared p i)
    (b : ℤ) where
  -- The reading of the clock is at least `b`.
  abbrev pub Reached : ThreadClock M → Type 0
  Reached tc = b ≤ℤ time_of p (tc.clocks i)

  -- A thread has released into the clock, and what was released reaches `b`.
  pub record Covers (sc : SyncClock M) : Type 0 where
    pub time : b ≤ℤ time_of p (sc.clocks i)
    pub used : same_state sc.sync_state state_init ≡ false

  record Taken (sc : SyncClock M) (tc : ThreadClock M) : Type 0 where
    after : SyncClock M
    returned : happens_before true sc tc ≡ some after
    keeps : Covers sc → Covers after
    covers : Reached tc → Covers after

  taken : (sc : SyncClock M) (tc : ThreadClock M) → IsActive tc → Taken sc tc
  taken sc tc (s, on, active) = elim (Bool-cases (same_state sc.sync_state state_init)) [
    | inl e ↦ record {
      after = record { clocks = copy_clocks sc.clocks tc.clocks; sync_state = s };
      returned = happens_before-copy tc sc s on e;
      keeps = λ c. let both : true ≡ false = sym e ∙ c.used in let no : ⊥ = cc in absurd no;
      covers = λ h. record {
        time =
            subst (λ x. b ≤ℤ time_of p x)
              (sym (copy_clocks-shared i sc.clocks tc.clocks shared.clock)) h;
        used = active;
      };
    }
    | inr e ↦
        (let m = time_of-merge_before p i sc.clocks tc.clocks shared in
          let ge = max_ℤ_ge (time_of p (sc.clocks i)) (time_of p (tc.clocks i)) in
          record {
            after = record sc { clocks = merge_before sc.clocks tc.clocks };
            returned = happens_before-merge tc sc s on e;
            keeps = λ c. record { time = rw m (omega (arith, ge.0, c.time)); used = e };
            covers = λ h. record { time = rw m (omega (arith, ge.1, h)); used = e };
          })
  ]

  record Acquired (sc : SyncClock M) (tc : ThreadClock M) : Type 0 where
    after : SyncClock M
    clock : ThreadClock M
    returned : happens_after true sc tc ≡ some (after, clock)
    keeps : Covers sc → Covers after
    stack : clock.stack ≡ tc.stack
    had : Reached tc → Reached clock
    gets : Covers sc → Reached clock

  check_arc-Covers : (s : ClockState) (sc : SyncClock M) → Covers sc → Covers (check_arc s sc).0
  unfolding check_arc
  check_arc-Covers s sc c = rw (c.used) c

  acquired : (sc : SyncClock M) (tc : ThreadClock M) → IsActive tc → Acquired sc tc
  acquired sc tc (s, on, active) =
      let m = time_of-merge_after p i sc.clocks tc.clocks shared in
      let ge = max_ℤ_ge (time_of p (tc.clocks i)) (time_of p (sc.clocks i)) in
      record {
        after = (check_arc s sc).0;
        clock = record tc { clocks = merge_after sc.clocks tc.clocks };
        returned = happens_after-merge tc sc s on;
        keeps = check_arc-Covers s sc;
        stack = refl;
        had = λ h. rw m (omega (arith, ge.0, h));
        gets = λ c. rw m (omega (arith, ge.1, c.time));
      }

  -- The thread is in an activity.
  abbrev pub Ready : ℕ → World M → Type 0
  Ready t w = (tc : ThreadClock M) × (w.threads t ≡ some tc) × IsActive tc

  abbrev pub Has : ℕ → World M → Type 0
  Has t w = (tc : ThreadClock M) × (w.threads t ≡ some tc) × Reached tc

  -- The tool still runs, and what has been reached stays.
  pub record Moves (w w' : World M) : Type 0 where
    pub running : w'.running ≡ true
    pub ready : (t : ℕ) → Ready t w → Ready t w'
    pub has : (t : ℕ) → Has t w → Has t w'
    pub covers : (r : SyncRef) → Covers (w.syncs r) → Covers (w'.syncs r)

  pub Moves-refl : {w : World M} → w.running ≡ true → Moves w w
  Moves-refl e = record { running = e; ready = λ t h. h; has = λ t h. h; covers = λ r h. h }

  pub Moves-trans : {u v w : World M} → Moves u v → Moves v w → Moves u w
  Moves-trans m n = record {
    running = n.running;
    ready = λ t h. n.ready t (m.ready t h);
    has = λ t h. n.has t (m.has t h);
    covers = λ r h. n.covers r (m.covers r h);
  }

  set_sync-Covers :
      (r q : SyncRef) (sc : SyncClock M) (w : World M)
      → (Covers (w.syncs r) → Covers sc)
      → Covers (w.syncs q)
      → Covers ((set_sync r sc w).syncs q)
  set_sync-Covers r q sc w f c =
      elim (SyncRef-discrete r q) as (λ d. Covers (ite d sc (w.syncs q))) [
        | yes e ↦ f (subst (λ x. Covers (w.syncs x)) (sym e) c)
        | no n ↦ c
      ]

  set_sync-own :
      (r : SyncRef) (sc : SyncClock M) (w : World M)
      → Covers sc
      → Covers ((set_sync r sc w).syncs r)
  set_sync-own r sc w c = elim (SyncRef-discrete r r) as (λ d. Covers (ite d sc (w.syncs r))) [
    | yes e ↦ c
    | no n ↦ absurd (n refl)
  ]

  -- What a release of the thread `t` does.
  pub release-Moves :
      (t : ℕ) (r : SyncRef) (w : World M)
      → w.running ≡ true
      → Ready t w
      → Ran (λ u w'. Moves w w' × (Has t w → Covers (w'.syncs r))) (release t r w)
  unfolding release
  release-Moves t r w on (tc, e, active) =
      let a = taken (w.syncs r) tc active in
      Ran-deref _ (w.threads t) tc _ w e (
        Ran-deref _ (happens_before w.running (w.syncs r) tc) a.after _ w (rw on a.returned) (
          Ran-some _ tt _ (
            record {
              running = on;
              ready = λ u h. h;
              has = λ u h. h;
              covers = λ q c. set_sync-Covers r q a.after w a.keeps c;
            },
            (λ (c, q, h).
                set_sync-own r a.after w
                  (a.covers (subst Reached (some-injective _ _ (sym q ∙ e)) h))),
          )))

  -- A thread's clock is replaced by one that has what it had.
  replaced :
      (Q : ThreadClock M → Type 0) (t u : ℕ) (old new : ThreadClock M)
      (f : ℕ → Option (ThreadClock M))
      → f t ≡ some old
      → (Q old → Q new)
      → (tc : ThreadClock M) × (f u ≡ some tc) × Q tc
      → (tc : ThreadClock M) × (update f t (some new) u ≡ some tc) × Q tc
  replaced Q t u old new f e step (tc, q, h) = elim (ℕ_discrete t u) [
    | yes same ↦ (
      new,
      subst (λ v. update f t (some new) v ≡ some new) same (update_self f t (some new)),
      step (subst Q (some-injective _ _ (sym q ∙ ap f (sym same) ∙ e)) h),
    )
    | no other ↦ (tc, update-ne f t u (some new) other ∙ q, h)
  ]

  -- What an acquisition of the thread `t` does.
  pub acquire-Moves :
      (t : ℕ) (r : SyncRef) (w : World M)
      → w.running ≡ true
      → Ready t w
      → Ran (λ u w'. Moves w w' × (Covers (w.syncs r) → Has t w')) (acquire t r w)
  unfolding acquire
  acquire-Moves t r w on (tc, e, active) =
      let a = acquired (w.syncs r) tc active in
      Ran-deref _ (w.threads t) tc _ w e (
        Ran-deref _ (happens_after w.running (w.syncs r) tc) (a.after, a.clock) _ w
          (rw on a.returned)
          (Ran-some _ tt _ (
            record {
              running = on;
              ready = λ u h.
                  replaced IsActive t u tc a.clock w.threads e
                    (λ q.
                      subst
                        (λ st.
                          (s : ClockState) × (get_state st ≡ some s)
                          × (same_state s state_init ≡ false))
                        (sym a.stack) q)
                    h;
              has = λ u h. replaced Reached t u tc a.clock w.threads e a.had h;
              covers = λ q c. set_sync-Covers r q a.after w a.keeps c;
            },
            (λ c. (a.clock, update_self w.threads t (some a.clock), a.gets c)),
          )))
