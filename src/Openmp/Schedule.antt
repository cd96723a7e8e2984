-- ===== src/Openmp/Schedule.antt =====
-- src/ompt-critical.cpp: the callback that schedules tasks, on thread `t`.
use otf_cpt.Common.{ℕ, zero, suc, true, not, Option, none, some, ◌==◌}
use otf_cpt.Common.Int.{pos, ◌-ℤ◌, is_zero}
use otf_cpt.Clock.State.{state_useful, state_omp}
use otf_cpt.Clock.Metric.{Metric}
use otf_cpt.Tool.World.{TaskData, task, taskwait, barrier, taskgroup}
use otf_cpt.Tool.Action.{
  Act, ◌>>=◌, ◌>>◌, done, when, deref, fetch, modify, on_task, count, enter, exit, release, acquire,
  omp_timer,
}
use otf_cpt.Openmp.Dependences.{release_dependencies, acquire_dependencies}
use otf_cpt.Openmp.Objects.{delete_task}

-- `ompt_task_status_t`
pub data Status : Type 0 where
  complete cancelled detach yielded switched : Status
  early_fulfill late_fulfill taskwait_complete : Status

module _ {M : Type 0} where
  -- `while (task != nullptr && --task->RefCount == 0)`, for at most `fuel` rounds.
  unfoldable pub free_task : ℕ → ℕ → Option ℕ → Act M (Unit {0})
  free_task fuel t none = done
  free_task zero t (some i) = λ w. none
  free_task (suc fuel) t (some i) = do
    parent ← fetch (λ w. (w.tasks i).parent)
    left ← fetch (λ w. (w.tasks i).ref_count -ℤ pos 1)
    modify (on_task i (λ d. record d { ref_count = left }))
    when (is_zero left) do delete_task t i; free_task fuel t parent

  -- Each round clears the parent of another task, so that as many rounds as there are tasks, and one
  -- more, are enough.
  unfoldable pub free_chain : ℕ → ℕ → Act M (Unit {0})
  free_chain t i = do tasks ← fetch (λ w. suc w.task_pool.created); free_task tasks t (some i)

module _ {M : Type 0} ⦃metric : Metric M⦄ where
  -- The part of `completeTask` for a task that is not included: barrier, taskwait and taskgroup.
  unfoldable pub release_completed : ℕ → TaskData → Act M (Unit {0})
  release_completed t d = do
    team ← deref d.team
    release t (barrier team d.barrier_index)
    parent ← deref d.parent
    release t (taskwait parent)
    elim d.task_group [ none ↦ done | some g ↦ release t (taskgroup g) ]

  unfoldable pub release_included : ℕ → TaskData → Act M (Unit {0})
  release_included t d = do parent ← deref d.parent; release t (task parent)

  unfoldable pub complete_task : ℕ → ℕ → Act M (Unit {0})
  complete_task t i = do
    d ← fetch (λ w. w.tasks i)
    when d.task_type.fulfilled (acquire t (task i))
    when (not d.task_type.undeferred) (release_completed t d)
    when d.task_type.undeferred (release_included t d)
    release_dependencies t d.dependencies

  unfoldable pub suspend_untied : ℕ → ℕ → TaskData → Act M (Unit {0})
  suspend_untied t i d = do
    when d.in_barrier (enter t state_omp)
    when (not d.in_barrier) do exit t d.is_running; release t (task i)

  -- `suspendTask(FromTask, ToTask)`, which reads `ToTask` only if there is a `FromTask`.
  unfoldable pub suspend_task : ℕ → Option ℕ → Option ℕ → Act M (Unit {0})
  suspend_task t none to_task = done
  suspend_task t (some i) to_task = do
    d ← fetch (λ w. w.tasks i)
    when d.task_type.untied (suspend_untied t i d)
    when (not d.task_type.untied) (enter t state_omp)
    j ← deref to_task
    modify (on_task j (λ e. record e { implicit_task = d.implicit_task }))

  unfoldable pub suspend_task_end : ℕ → ℕ → Act M (Unit {0})
  suspend_task_end t i = do is_running ← fetch (λ w. (w.tasks i).is_running); exit t is_running

  unfoldable pub begin_task : ℕ → ℕ → Act M (Unit {0})
  begin_task t i = do
    modify (on_task i (λ d. record d { execution = suc d.execution }))
    d ← fetch (λ w. w.tasks i)
    acquire_dependencies t d.dependencies
    acquire t (task i)
    enter t state_useful

  unfoldable pub resume_untied : ℕ → ℕ → TaskData → Act M (Unit {0})
  resume_untied t i d = do
    when d.in_barrier (exit t d.is_running)
    when (not d.in_barrier) do acquire t (task i); enter t state_useful

  unfoldable pub resume_task : ℕ → ℕ → TaskData → Act M (Unit {0})
  resume_task t i d = do
    when d.task_type.untied (resume_untied t i d)
    when (not d.task_type.untied) (exit t d.is_running)

  unfoldable pub start_task : ℕ → Option ℕ → Act M (Unit {0})
  start_task t none = done
  start_task t (some i) = do
    d ← fetch (λ w. w.tasks i)
    when (d.execution == 0) (begin_task t i)
    when (not (d.execution == 0)) (resume_task t i d)

  -- The first task has completed, and the second one starts.
  unfoldable pub finish_first : ℕ → Option ℕ → Option ℕ → Act M (Unit {0})
  finish_first t none to_task = start_task t to_task
  finish_first t (some i) to_task = do
    suspend_task_end t i
    complete_task t i
    free_chain t i
    start_task t to_task

  unfoldable pub detach_first : ℕ → Option ℕ → Option ℕ → Act M (Unit {0})
  detach_first t none to_task = start_task t to_task
  detach_first t (some i) to_task = do suspend_task_end t i; start_task t to_task

  unfoldable pub suspend_first : ℕ → Option ℕ → Option ℕ → Act M (Unit {0})
  suspend_first t from_task to_task = do suspend_task t from_task to_task; start_task t to_task

  unfoldable pub fulfill_early : ℕ → ℕ → Act M (Unit {0})
  fulfill_early t i = do
    release t (task i)
    modify (on_task i (λ d. record d { task_type = record d.task_type { fulfilled = true } }))

  unfoldable pub fulfill_late : ℕ → ℕ → Act M (Unit {0})
  fulfill_late t i = do acquire t (task i); complete_task t i; free_chain t i

  unfoldable pub complete_taskwait : ℕ → ℕ → Act M (Unit {0})
  complete_taskwait t i = do
    d ← fetch (λ w. w.tasks i)
    acquire_dependencies t d.dependencies
    free_chain t i

  -- The switch of `ompt_tsan_task_schedule`.
  unfoldable pub schedule : Status → ℕ → Option ℕ → Option ℕ → Act M (Unit {0})
  schedule early_fulfill t first second = do i ← deref first; omp_timer t (fulfill_early t i)
  schedule late_fulfill t first second = do i ← deref first; omp_timer t (fulfill_late t i)
  schedule taskwait_complete t first second = do
    i ← deref first
    omp_timer t (complete_taskwait t i)
  schedule complete t first second = finish_first t first second
  schedule cancelled t first second = finish_first t first second
  schedule detach t first second = detach_first t first second
  schedule yielded t first second = suspend_first t first second
  schedule switched t first second = suspend_first t first second

  -- The counters may be absent here.
  unfoldable pub task_schedule : Status → ℕ → Option ℕ → Option ℕ → Act M (Unit {0})
  task_schedule status t first second = do
    counters ← fetch (λ w. w.counts t)
    elim counters [
      | none ↦ done
      | some c ↦ count t (λ c. record c { task_schedule = suc c.task_schedule })
    ]
    schedule status t first second
