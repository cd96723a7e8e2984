-- ===== src/Openmp/Threads.antt =====
-- src/ompt-critical.cpp: the callbacks for threads, parallel regions and implicit tasks, on thread
-- `t`. Where the source stores a pointer in the runtime's `ompt_data_t`, the callback returns it, and
-- where it reads one, that is an argument.
use otf_cpt.Common.{ℕ, suc, Bool, true, false, not, some, [], ◌∷◌, ◌++◌, update}
use otf_cpt.Common.Int.{ℤ}
use otf_cpt.Clock.State.{state_init, state_useful, state_omp, same_state}
use otf_cpt.Clock.Metric.{Metric}
use otf_cpt.Tool.World.{TaskType, barrier, new_counts}
use otf_cpt.Tool.Action.{
  Act, ◌>>=◌, ◌>>◌, pure, when, fetch, modify, count, enter, enter_at, exit, current, release,
  acquire, need_clock,
}
use otf_cpt.Tool.Measure.{start_tool, stop_tool}
use otf_cpt.Openmp.Objects.{Sizes, team, new_team, new_implicit, delete_task, give_back}

-- `omp_control_tool_t`, with the commands of other tools as `other`.
pub data Command : Type 0 where
  tool_start tool_pause tool_flush tool_end other : Command

module _ {M : Type 0} ⦃metric : Metric M⦄ where
  -- The end of `ompt_tsan_initialize`, which runs before any callback. What comes before it registers
  -- the callbacks.
  unfoldable pub initialize : ℕ → Act M (Unit {0})
  initialize t = do need_clock t false; start_tool t false state_useful

  -- The thread's pools, of which none has taken an object before, are not made here but there from the
  -- start.
  unfoldable pub thread_begin : ℕ → Bool → Act M (Unit {0})
  thread_begin t is_initial = do
    modify (λ w. record w { counts = update w.counts t (some new_counts) })
    need_clock t true
    modify (λ w. record w {
      thread_clocks = w.thread_clocks ++ t ∷ [];
      thread_counts = w.thread_counts ++ t ∷ [];
    })
    start ← fetch (λ w. w.start_programm_time)
    when is_initial (enter t state_omp)
    when (not is_initial) (enter_at t start state_omp)

  -- `GetParallelPtr` is the clock of barrier 1.
  unfoldable pub parallel_begin : Sizes → ℕ → Act M ℕ
  parallel_begin sizes t = do
    team_data ← new_team sizes t
    enter t state_omp
    release t (barrier team_data 1)
    pure team_data

  unfoldable pub parallel_end : ℕ → ℕ → Act M (Unit {0})
  parallel_end t team_data = do exit t true; give_back team t team_data

  -- The first lines of the implicit task's begin: the team, which the initial task makes itself.
  unfoldable pub join_team : Sizes → ℕ → Bool → ℕ → Act M ℕ
  join_team sizes t true team_data = new_team sizes t
  join_team sizes t false team_data = do
    state ← current t
    when (same_state state state_init) (enter t state_omp)
    acquire t (barrier team_data 1)
    pure team_data

  unfoldable pub implicit_task_begin : Sizes → ℕ → ℕ → ℤ → TaskType → Act M (ℕ × ℕ)
  implicit_task_begin sizes t team_data thread_num type = do
    count t (λ c. record c { impl_task_begin = suc c.impl_task_begin })
    team_data ← join_team sizes t type.initial team_data
    i ← new_implicit sizes t team_data thread_num type
    enter t state_useful
    pure (team_data, i)

  unfoldable pub implicit_task_end : ℕ → ℕ → ℕ → TaskType → Act M (Unit {0})
  implicit_task_end t team_data i type = do
    count t (λ c. record c { impl_task_end = suc c.impl_task_end })
    is_running ← fetch (λ w. (w.tasks i).is_running)
    exit t is_running
    delete_task t i
    when type.initial (give_back team t team_data)

  unfoldable pub control_tool : ℤ → ℕ → Command → Act M ℕ
  control_tool runtime t tool_start = do start_tool t true state_useful; pure 0
  control_tool runtime t tool_pause = pure 1
  control_tool runtime t tool_flush = pure 1
  control_tool runtime t tool_end = do stop_tool runtime t; pure 0
  control_tool runtime t other = pure 0
