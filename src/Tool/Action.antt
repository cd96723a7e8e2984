-- ===== src/Tool/Action.antt =====
-- Actions on the state of the tool, and those of include/criticalPath.h on the clocks of a thread.
-- The result `none` says that the call does not return: a null pointer, a vector read before its
-- begin, or a mutex that is held.

use otf_cpt.Common.{ℕ, suc, Bool, true, false, Option, none, some, ite, update}
use otf_cpt.Common.Int.{ℤ, pos}
use otf_cpt.Clock.State.{ClockState, state_omp}
use otf_cpt.Clock.Metric.{Metric}
use otf_cpt.Clock.Thread.{ThreadClock, get_state, new_clock, enter_state, exit_state, set_state}
use otf_cpt.Clock.Sync.{SyncClock, happens_before, happens_after, clock_reset}
use otf_cpt.Tool.World.{World, OmptCounts, SyncRef, SyncRef-discrete, TaskData}

abbrev pub Act : Type 0 → Type 0 → Type 0
Act M A = World M → Option (A × World M)

module _ {M : Type 0} where
  abbrev pub pure : {A : Type 0} → A → Act M A
  pure a w = some (a, w)

  infixl 5 ◌>>=◌ ◌>>◌
  abbrev pub ◌>>=◌ : {A B : Type 0} → Act M A → (A → Act M B) → Act M B
  ◌>>=◌ m f w = elim (m w) [ none ↦ none | some (a, w') ↦ f a w' ]

  abbrev pub ◌>>◌ : {A B : Type 0} → Act M A → Act M B → Act M B
  m >> n = m >>= λ _. n

  abbrev pub deref : {A : Type 0} → Option A → Act M A
  deref none w = none
  deref (some a) w = some (a, w)

  abbrev pub fetch : {A : Type 0} → (World M → A) → Act M A
  fetch f w = some (f w, w)

  abbrev pub modify : (World M → World M) → Act M (Unit {0})
  modify f w = some (tt, f w)

  abbrev pub done : Act M (Unit {0})
  done w = some (tt, w)

  abbrev pub when : Bool → Act M (Unit {0}) → Act M (Unit {0})
  when true m = m
  when false m = done

  -- Writes to the members of the state.
  abbrev pub set_clock : ℕ → ThreadClock M → World M → World M
  set_clock t tc w = record w { threads = update w.threads t (some tc) }

  abbrev pub set_sync : SyncRef → SyncClock M → World M → World M
  set_sync r sc w = record w { syncs = λ q. ite (SyncRef-discrete r q) sc (w.syncs q) }

  abbrev pub on_task : ℕ → (TaskData → TaskData) → World M → World M
  on_task i f w = record w {
    objects = record w.objects { tasks = update w.tasks i (f (w.tasks i)) };
  }

  -- `getTime()`
  unfoldable pub get_time : Act M ℤ
  get_time w = some (w.times w.calls, record w { calls = suc w.calls })

  -- A call on `thread_local_clock`.
  unfoldable pub on_clock : ℕ → (Bool → ThreadClock M → Option (ThreadClock M)) → Act M (Unit {0})
  on_clock t f = do
    tc ← fetch (λ w. w.threads t)
    tc ← deref tc
    running ← fetch (λ w. w.running)
    tc ← deref (f running tc)
    modify (set_clock t tc)

  -- `if (analysis_flags->running) omptThreadCount->…++;`
  unfoldable pub count : ℕ → (OmptCounts → OmptCounts) → Act M (Unit {0})
  count t f = do
    running ← fetch (λ w. w.running)
    when running do
      c ← fetch (λ w. w.counts t)
      c ← deref c
      modify (λ w. record w { counts = update w.counts t (some (f c)) })

module _ {M : Type 0} ⦃metric : Metric M⦄ where
  unfoldable pub enter_at : ℕ → ℤ → ClockState → Act M (Unit {0})
  unfolding on_clock get_time
  enter_at t time cs = do
    now ← get_time
    on_clock t (λ running tc. enter_state running now time cs tc)

  unfoldable pub enter : ℕ → ClockState → Act M (Unit {0})
  unfolding enter_at
  enter t cs = enter_at t (pos 0) cs

  -- The `DCHECK`s of the variant with two states only report.
  unfoldable pub exit : ℕ → Bool → Act M (Unit {0})
  unfolding on_clock get_time
  exit t is_running = do
    now ← get_time
    on_clock t (λ running tc. exit_state running now (pos 0) is_running tc)

  unfoldable pub set : ℕ → ℤ → ClockState → Act M (Unit {0})
  unfolding on_clock get_time
  set t time cs = do now ← get_time; on_clock t (λ running tc. set_state running now time cs tc)

  -- `thread_local_clock->GetState()`
  unfoldable pub current : ℕ → Act M ClockState
  current t = do tc ← fetch (λ w. w.threads t); tc ← deref tc; deref (get_state tc.stack)

  -- `OmpHappensBefore`
  unfoldable pub release : ℕ → SyncRef → Act M (Unit {0})
  unfolding happens_before
  release t r = do
    tc ← fetch (λ w. w.threads t)
    tc ← deref tc
    sc ← fetch (λ w. happens_before w.running (w.syncs r) tc)
    sc ← deref sc
    modify (set_sync r sc)

  -- `OmpHappensAfter`
  unfoldable pub acquire : ℕ → SyncRef → Act M (Unit {0})
  unfolding happens_after
  acquire t r = do
    tc ← fetch (λ w. w.threads t)
    tc ← deref tc
    both ← fetch (λ w. happens_after w.running (w.syncs r) tc)
    both ← deref both
    modify (set_sync r both.0)
    modify (set_clock t both.1)

  -- `OmpClockReset`
  unfoldable pub clear : SyncRef → Act M (Unit {0})
  unfolding clock_reset
  clear r = modify (λ w. set_sync r (clock_reset w.running (w.syncs r)) w)

  -- `if (!thread_local_clock) thread_local_clock = new THREAD_CLOCK(my_next_id(), 0, openmp);`
  unfoldable pub need_clock : ℕ → Bool → Act M (Unit {0})
  unfolding new_clock
  need_clock t openmp w = elim (w.threads t) [
    | some tc ↦ done w
    | none ↦
        modify
          (λ w.
            set_clock t (new_clock w.next_id (pos 0) openmp) (record w { next_id = suc w.next_id }))
          w
  ]

  -- `ompTimer`, around the block `m` that it stands in.
  unfoldable pub omp_timer : ℕ → Act M (Unit {0}) → Act M (Unit {0})
  unfolding need_clock enter exit
  omp_timer t m = do need_clock t false; enter t state_omp; m; exit t true
