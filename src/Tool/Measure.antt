-- ===== src/Tool/Measure.antt =====
-- src/critical-core.cpp: the start and the stop of the measurement, and `finishMeasurement` up to
-- where it reduces over the processes, which Tool/Pop.antt continues. `runtime` is the flag
-- of that name, which replaces the measured time if it is positive. The debug checks are left out.
use otf_cpt.Common.{
  ℕ, ◌+◌, Bool, true, false, not, ◌&&◌, some, List, [], ◌∷◌, update, length, if◌then◌else◌,
}
use otf_cpt.Common.Int.{ℤ, pos, ◌+ℤ◌, ◌-ℤ◌, ltb_ℤ}
use otf_cpt.Clock.State.{
  ClockState, state_init, state_useful, state_mpi, clock_useful, clock_ompi, clock_oomp, same_state,
}
use otf_cpt.Clock.Metric.{Metric}
use otf_cpt.Tool.World.{OmptCounts}
use otf_cpt.Tool.Action.{
  Act, ◌>>=◌, ◌>>◌, pure, done, when, deref, fetch, modify, get_time, enter_at, set, current,
}

-- `omptCounts::add`
unfoldable pub add : OmptCounts → OmptCounts → OmptCounts
add c o = record {
  task_create = c.task_create + o.task_create;
  task_schedule = c.task_schedule + o.task_schedule;
  impl_task_begin = c.impl_task_begin + o.impl_task_begin;
  impl_task_end = c.impl_task_end + o.impl_task_end;
  sync_region_begin = c.sync_region_begin + o.sync_region_begin;
  sync_region_end = c.sync_region_end + o.sync_region_end;
  mutex_acquire = c.mutex_acquire + o.mutex_acquire;
}

-- Sums and maxima over the threads, as far as the loop has come.
pub record Totals : Type 0 where
  pub useful_sum : ℤ
  pub useful_max : ℤ
  pub oomp_sum : ℤ
  pub oomp_max : ℤ

abbrev pub no_totals : Totals
no_totals = record { useful_sum = pos 0; useful_max = pos 0; oomp_sum = pos 0; oomp_max = pos 0 }

unfoldable pub add_totals : ℤ → ℤ → Totals → Totals
add_totals uc oot s = record {
  useful_sum = s.useful_sum +ℤ uc;
  useful_max = if ltb_ℤ s.useful_max uc then uc else s.useful_max;
  oomp_sum = s.oomp_sum +ℤ oot;
  oomp_max = if ltb_ℤ s.oomp_max oot then oot else s.oomp_max;
}

module _ {M : Type 0} where
  unfoldable pub start_measurement : ℤ → Act M (Unit {0})
  start_measurement time = modify (λ w. record w { start_programm_time = time })

  unfoldable pub stop_measurement : ℤ → Act M (Unit {0})
  stop_measurement time = do
    running ← fetch (λ w. w.running)
    when running (modify (λ w. record w { end_programm_time = time; running = false }))

  -- `(*thread_counts)[0]->add(*(*thread_counts)[i])` for the threads `l`.
  unfoldable pub add_counts : ℕ → List ℕ → Act M (Unit {0})
  add_counts first [] = done
  add_counts first (t ∷ l) = do
    c ← fetch (λ w. w.counts first)
    c ← deref c
    o ← fetch (λ w. w.counts t)
    o ← deref o
    modify (λ w. record w { counts = update w.counts first (some (add c o)) })
    add_counts first l

  unfoldable pub add_all_counts : List ℕ → Act M (Unit {0})
  add_all_counts [] = done
  add_all_counts (first ∷ l) = add_counts first l

module _ {M : Type 0} ⦃metric : Metric M⦄ where
  -- The thread-local reading of the useful clock and of the one outside OpenMP.
  unfoldable pub thread_times : ℕ → Act M (ℤ × ℤ)
  thread_times t = do
    tc ← fetch (λ w. w.threads t)
    tc ← deref tc
    pure (
      metric.get_time (tc.clocks clock_useful).thread,
      metric.get_time (tc.clocks clock_oomp).thread,
    )

  -- One round of the loop over the threads: the clocks are stopped and then read.
  unfoldable pub gather_thread : ℕ → Totals → Act M Totals
  gather_thread t s = do
    state ← current t
    end ← fetch (λ w. w.end_programm_time)
    when (not (same_state state state_init)) (set t end state_init)
    times ← thread_times t
    pure (add_totals times.0 times.1 s)

  unfoldable pub gather : List ℕ → Totals → Act M Totals
  gather [] s = pure s
  gather (t ∷ l) s = do s' ← gather_thread t s; gather l s'

  -- Where no thread is listed, the calling thread's values stand for all.
  unfoldable pub gather_all : ℕ → List ℕ → Act M (ℕ × Totals)
  gather_all t [] = do
    times ← thread_times t
    pure (
      1,
      record { useful_sum = times.0; useful_max = times.0; oomp_sum = times.1; oomp_max = times.1 },
    )
  gather_all t (first ∷ l) = do
    s ← gather (first ∷ l) no_totals
    counters ← fetch (λ w. w.thread_counts)
    add_all_counts counters
    pure (length (first ∷ l), s)

  unfoldable pub finish_measurement : ℤ → ℕ → Act M (Unit {0})
  finish_measurement runtime t = do
    finished ← fetch (λ w. w.finished)
    when (not finished) do
      modify (λ w. record w { finished = true })
      time ← get_time
      stop_measurement time
      end ← fetch (λ w. w.end_programm_time)
      set t end state_init
      start ← fetch (λ w. w.start_programm_time)
      listed ← fetch (λ w. w.thread_clocks)
      totals ← gather_all t listed
      tc ← fetch (λ w. w.threads t)
      tc ← deref tc
      modify (λ w. record w {
        summary = some (record {
          runtime = if ltb_ℤ (pos 0) runtime then runtime else end -ℤ start;
          num_threads = totals.0;
          total_threads = length listed;
          useful_sum = totals.1.useful_sum;
          useful_max = totals.1.useful_max;
          oomp_sum = totals.1.oomp_sum;
          oomp_max = totals.1.oomp_max;
          ompi_proc = metric.get_time (tc.clocks clock_ompi).proc;
          useful_proc = metric.get_time (tc.clocks clock_useful).proc;
          oomp_proc = metric.get_time (tc.clocks clock_oomp).proc;
          ompi_critical = metric.get_time (tc.clocks clock_ompi).critical;
          useful_critical = metric.get_time (tc.clocks clock_useful).critical;
          oomp_critical = metric.get_time (tc.clocks clock_oomp).critical;
        });
      })

  unfoldable pub start_tool : ℕ → Bool → ClockState → Act M (Unit {0})
  start_tool t tool_control cs = do
    stopped ← fetch (λ w. w.stopped)
    running ← fetch (λ w. w.running)
    when (not (stopped && not tool_control) && not running) do
      time ← get_time
      modify (λ w. record w { running = true })
      start_measurement time
      state ← current t
      when (same_state cs state_mpi && same_state state state_init) (enter_at t time state_useful)
      enter_at t time cs

  unfoldable pub stop_running : ℕ → Act M (Unit {0})
  stop_running t = do
    time ← get_time
    stop_measurement time
    end ← fetch (λ w. w.end_programm_time)
    set t end state_init

  unfoldable pub stop_tool : ℤ → ℕ → Act M (Unit {0})
  stop_tool runtime t = do
    running ← fetch (λ w. w.running)
    when running (stop_running t)
    dump ← fetch (λ w. w.dump_on_stop)
    when dump (finish_measurement runtime t)
